-- ===== src/Api/Reviews/Granting.antt =====
-- What the review of a request does to quotas, to the request and to everybody else.
use mathlib.Core.Option
use easy_deploy.Prelude.{
  if◌then◌else◌, ◌≡◌, ◌≢◌, refl, ap, ◌∙◌, Bool, true, false, some, List, [], ◌∷◌, arith, Text,
}
use easy_deploy.Prelude.Int.{ℤ, pos, int_eq, int_eq_iff, ◌≤ℤ◌, ltb_ℤ}
use easy_deploy.Prelude.Rows.{first, update, first-update_self, first-update_other}
use easy_deploy.Effect.{ok}
use easy_deploy.Store.{
  answering, Db, User, ResourceRequest, RequestStatus, approved, statement, fits_int4,
}
use easy_deploy.Store.Users.{get_user_by_id, update_user_quota}
use easy_deploy.Store.Requests.{get_request, review_request}
use easy_deploy.Api.{Principal}
use easy_deploy.Api.Reviews.{
  Review, Amounts, was_approved, settle_request, granted_amounts, user_amounts, no_amounts,
}

abbrev pub user_with : ℤ → User → Bool
user_with id u = int_eq u.id id

abbrev pub request_with : ℤ → ResourceRequest → Bool
request_with id r = int_eq r.id id

abbrev pub with_amounts : Amounts → User → User
with_amounts a u = record u {
  cpu_quota_milli = a.cpu_milli;
  mem_quota_mb = a.mem_mb;
  disk_quota_mb = a.disk_mb;
}

abbrev as_reviewed : RequestStatus → Text → Text → ResourceRequest → ResourceRequest
as_reviewed status reviewer note r = record r {
  status = status;
  reviewed_by = reviewer;
  review_note = note;
}

-- CPU and memory fit their columns.
abbrev pub FitColumns : Amounts → Type 0
FitColumns a = (fits_int4 a.cpu_milli ≡ true) × (fits_int4 a.mem_mb ≡ true)

-- The first amount that is positive.
abbrev pub first_positive : List ℤ → ℤ → ℤ
first_positive [] otherwise = otherwise
first_positive (n ∷ ns) otherwise = if ltb_ℤ (pos 0) n then n else first_positive ns otherwise

-- What an approval is to give a user: the override, what was asked for, or what the user has.
abbrev pub amounts_due : Review → ResourceRequest → User → Amounts
amounts_due req rr u = record {
  cpu_milli = first_positive (req.grant_cpu_milli ∷ rr.cpu_milli ∷ []) u.cpu_quota_milli;
  mem_mb = first_positive (req.grant_mem_mb ∷ rr.mem_mb ∷ []) u.mem_quota_mb;
  disk_mb = first_positive (req.grant_disk_mb ∷ rr.disk_mb ∷ []) u.disk_quota_mb;
}

granted-due :
    (req : Review) (rr : ResourceRequest) (u : User)
    → granted_amounts req rr (user_amounts (ok u)) ≡ amounts_due req rr u
unfolding granted_amounts
granted-due req rr u = refl

module _ (p : Principal) (id : ℤ) (req : Review) (rr : ResourceRequest) (db : Db)
    (approve : req.approve ≡ true) (found : first (request_with id) db.requests ≡ some rr) where
  -- The whole effect of an approval for the local host, when the database answers.
  approve_local :
      (u : User)
      → rr.endpoint_id ≡ pos 0
      → first (user_with rr.user_id) db.users ≡ some u
      → FitColumns (granted_amounts req rr (user_amounts (ok u)))
      → settle_request p id req (answering db) ≡ (
        ok (was_approved (granted_amounts req rr (user_amounts (ok u)))),
        record db {
          users =
              update
                (user_with rr.user_id)
                (with_amounts (granted_amounts req rr (user_amounts (ok u))))
                db.users;
          requests =
              update (request_with id) (as_reviewed approved p.username req.note) db.requests;
          outages = [];
        },
      )
  unfolding settle_request get_request get_user_by_id update_user_quota review_request statement
  approve_local u local user fits =
      rw (found, approve) (rw local (rw user (rw (fits.0, fits.1) refl)))

  -- Approving a request for the local host, when the database answers and has the request and the
  -- requester: each amount of the requester's quota becomes the override if that is positive, else
  -- what was asked for if that is positive, and else stays; nobody else's quota changes, nor any grant
  -- on a remote environment; the request is marked approved. The CPU and memory that are written fit
  -- columns of 32 bits.
  pub settle_request-approves :
      (u : User)
      → rr.endpoint_id ≡ pos 0
      → first (user_with rr.user_id) db.users ≡ some u
      → FitColumns (amounts_due req rr u)
      → let after = (settle_request p id req (answering db)).1 in
        (first (user_with rr.user_id) after.users ≡ some (with_amounts (amounts_due req rr u) u))
        × ((other : ℤ)
            → other ≢ rr.user_id
            → first (user_with other) after.users ≡ first (user_with other) db.users)
        × (after.grants ≡ db.grants)
        × (Option.map (λ (r : ResourceRequest). r.status) (first (request_with id) after.requests)
            ≡ some approved)
  settle_request-approves u local user fits =
      let amounts = amounts_due req rr u in
      let due = granted-due req rr u in
      rw (approve_local u local user (rw due fits)) (
        rw due (
            first-update_self (user_with rr.user_id) (with_amounts amounts) (λ r. refl) db.users
            ∙ ap (Option.map (with_amounts amounts)) user),
        λ other apart. rw due (
            first-update_other (user_with rr.user_id) (with_amounts amounts) (user_with other)
              (λ r h. ground (arith, int_eq_iff r.id other, int_eq_iff r.id rr.user_id)) (λ r. refl)
              db.users),
        refl,
        rw
            (first-update_self (request_with id) (as_reviewed approved p.username req.note)
              (λ r. refl) db.requests)
            (rw found refl),
      )

-- The rest of an approval for the local host after a failed read of the present quota: what the
-- answers to later statements are does not change the accounts.
approve_blind :
    (p : Principal) (id : ℤ) (req : Review) (rr : ResourceRequest) (db : Db) (rest : List Bool)
    → req.approve ≡ true
    → first (request_with id) db.requests ≡ some rr
    → rr.endpoint_id ≡ pos 0
    → FitColumns (granted_amounts req rr no_amounts)
    → (settle_request p id req (record db { outages = false ∷ true ∷ false ∷ rest })).1.users
      ≡ update (user_with rr.user_id) (with_amounts (granted_amounts req rr no_amounts)) db.users
unfolding settle_request get_request get_user_by_id update_user_quota review_request statement
approve_blind p id req rr db [] approve found local fits =
    rw (found, approve) (rw local (rw (fits.0, fits.1) refl))
approve_blind p id req rr db (true ∷ rest) approve found local fits =
    rw (found, approve) (rw local (rw (fits.0, fits.1) refl))
approve_blind p id req rr db (false ∷ rest) approve found local fits =
    rw (found, approve) (rw local (rw (fits.0, fits.1) refl))

only_storage :
    (req : Review) (rr : ResourceRequest)
    → (req.grant_cpu_milli ≤ℤ pos 0) × (req.grant_mem_mb ≤ℤ pos 0) × (req.grant_disk_mb ≤ℤ pos 0)
    → (rr.cpu_milli ≤ℤ pos 0) × (rr.mem_mb ≤ℤ pos 0)
    → ltb_ℤ (pos 0) rr.disk_mb ≡ true
    → granted_amounts req rr no_amounts
      ≡ record { cpu_milli = pos 0; mem_mb = pos 0; disk_mb = rr.disk_mb }
unfolding granted_amounts
only_storage req rr none_given asked disk = ground arith

-- A request for storage alone, with no override, for the local host, is approved while the read of
-- the present quota fails and the quota is then written, whatever statements fail after that: the
-- requester's CPU and memory quota become zero, the storage quota becomes what was asked for, and
-- nobody else's quota changes.
pub settle_request-forgets :
    (p : Principal) (id : ℤ) (req : Review) (rr : ResourceRequest) (db : Db) (rest : List Bool)
    (u other : User) (k : ℤ)
    → req.approve ≡ true
    → first (request_with id) db.requests ≡ some rr
    → rr.endpoint_id ≡ pos 0
    → (req.grant_cpu_milli ≤ℤ pos 0) × (req.grant_mem_mb ≤ℤ pos 0) × (req.grant_disk_mb ≤ℤ pos 0)
    → (rr.cpu_milli ≤ℤ pos 0) × (rr.mem_mb ≤ℤ pos 0)
    → ltb_ℤ (pos 0) rr.disk_mb ≡ true
    → first (user_with rr.user_id) db.users ≡ some u
    → k ≢ rr.user_id
    → first (user_with k) db.users ≡ some other
    → let after =
        (settle_request p id req (record db { outages = false ∷ true ∷ false ∷ rest })).1 in
      (first (user_with rr.user_id) after.users
        ≡ some (record u {
          cpu_quota_milli = pos 0;
          mem_quota_mb = pos 0;
          disk_quota_mb = rr.disk_mb;
        }))
      × (first (user_with k) after.users ≡ some other)
settle_request-forgets p id req rr db rest u other k approve found local none_given asked disk user
      apart there =
    let amounts : Amounts = record { cpu_milli = pos 0; mem_mb = pos 0; disk_mb = rr.disk_mb } in
    let picked : granted_amounts req rr no_amounts ≡ amounts =
      only_storage req rr none_given asked disk in
    let fits : FitColumns (granted_amounts req rr no_amounts) = rw picked (refl, refl) in
    rw (approve_blind p id req rr db rest approve found local fits) (
      rw picked (
        first-update_self (user_with rr.user_id) (with_amounts amounts) (λ r. refl) db.users
            ∙ ap (Option.map (with_amounts amounts)) user,
        first-update_other (user_with rr.user_id) (with_amounts amounts) (user_with k)
              (λ r h. ground (arith, int_eq_iff r.id k, int_eq_iff r.id rr.user_id)) (λ r. refl)
              db.users
            ∙ there,
      ))

-- A rejection changes no quota and no grant, whether or not the database answers.
pub settle_request-rejects :
    (p : Principal) (id : ℤ) (req : Review) (db : Db)
    → req.approve ≡ false
    → let after = (settle_request p id req db).1 in
      (after.users ≡ db.users) × (after.grants ≡ db.grants)
unfolding settle_request get_request review_request statement
settle_request-rejects p id req db reject = ground arith
