-- ===== src/Store/Grants.antt =====
-- server/internal/store/endpoints.go: a member's access to remote environments, with its quota.
use easy_deploy.Prelude.{Bool, ◌&&◌, List, [], ◌∷◌, ◌++◌, Option, map, if◌then◌else◌}
use easy_deploy.Prelude.Int.{ℤ, int_eq, leb_ℤ}
use easy_deploy.Prelude.Rows.{select, first, update, delete, exists}
use easy_deploy.Effect.{Result, ok, err, ◌>>◌}
use easy_deploy.Store.{User, Grant, Endpoint, Db, Query, StoreError, statement, conflict, fits_int4}

abbrev pub is_grant : ℤ → ℤ → Grant → Bool
is_grant user_id endpoint_id g = int_eq g.user_id user_id && int_eq g.endpoint_id endpoint_id

-- `ORDER BY endpoint_id`
insert_grant_by : Grant → List Grant → List Grant
insert_grant_by g [] = g ∷ []
insert_grant_by g (h ∷ hs) =
    if leb_ℤ g.endpoint_id h.endpoint_id then g ∷ h ∷ hs else h ∷ insert_grant_by g hs

unfoldable pub by_endpoint : List Grant → List Grant
unfolding insert_grant_by
by_endpoint [] = []
by_endpoint (g ∷ gs) = insert_grant_by g (by_endpoint gs)

unfoldable pub get_user_endpoint_ids : ℤ → Query (List ℤ)
unfolding statement by_endpoint
get_user_endpoint_ids user_id = statement λ db. (
  ok (
      map (λ (g : Grant). g.endpoint_id)
        (by_endpoint (select (λ g. int_eq g.user_id user_id) db.grants))),
  db,
)

unfoldable pub get_user_endpoints : ℤ → Query (List Grant)
unfolding statement by_endpoint
get_user_endpoints user_id =
    statement
      λ db. (ok (by_endpoint (select (λ (g : Grant). int_eq g.user_id user_id) db.grants)), db)

unfoldable pub user_has_endpoint : ℤ → ℤ → Query Bool
unfolding statement
user_has_endpoint user_id endpoint_id =
    statement λ db. (ok (exists (is_grant user_id endpoint_id) db.grants), db)

-- `none` is the `ok = false` of the source.
unfoldable pub get_user_endpoint_quota : ℤ → ℤ → Query (Option Grant)
unfolding statement
get_user_endpoint_quota user_id endpoint_id =
    statement λ db. (ok (first (is_grant user_id endpoint_id) db.grants), db)

-- `INSERT … ON CONFLICT (user_id, endpoint_id) DO UPDATE`
unfoldable pub upsert_grant : Grant → List Grant → List Grant
upsert_grant g gs =
    if exists (is_grant g.user_id g.endpoint_id) gs
    then update (is_grant g.user_id g.endpoint_id)
        (λ old. record old {
          cpu_quota_milli = g.cpu_quota_milli;
          mem_quota_mb = g.mem_quota_mb;
          disk_quota_mb = g.disk_quota_mb;
        })
        gs
    else gs ++ g ∷ []

-- Both columns of the key reference their tables.
unfoldable pub references_ok : Grant → Db → Bool
references_ok g db =
    exists (λ (u : User). int_eq u.id g.user_id) db.users
    && exists (λ (e : Endpoint). int_eq e.id g.endpoint_id) db.endpoints

-- The CPU and the memory stand in `INTEGER` columns.
unfoldable pub insert_grant : Grant → Query Unit
unfolding statement upsert_grant references_ok
insert_grant g = statement λ db.
    if references_ok g db && (fits_int4 g.cpu_quota_milli && fits_int4 g.mem_quota_mb)
    then (ok tt, record db { grants = upsert_grant g db.grants })
    else (err conflict, db)

unfoldable pub grant_user_endpoint_quota : ℤ → ℤ → ℤ → ℤ → ℤ → Query Unit
unfolding insert_grant
grant_user_endpoint_quota user_id endpoint_id cpu_milli mem_mb disk_mb = insert_grant (record {
  user_id = user_id;
  endpoint_id = endpoint_id;
  cpu_quota_milli = cpu_milli;
  mem_quota_mb = mem_mb;
  disk_quota_mb = disk_mb;
})

-- the loop of `SetUserEndpoints`; the user of each grant is the one whose grants are replaced
unfoldable pub insert_grants : ℤ → List Grant → Query Unit
unfolding insert_grant
insert_grants user_id [] = λ db. (ok tt, db)
insert_grants user_id (g ∷ gs) =
    insert_grant (record g { user_id = user_id }) >> insert_grants user_id gs

unfoldable pub delete_grants : ℤ → Query Unit
unfolding statement
delete_grants user_id =
    statement λ db.
      (ok tt, record db { grants = delete (λ (g : Grant). int_eq g.user_id user_id) db.grants })

-- A statement that changes nothing itself: `Begin` and `Commit` may fail too.
unfoldable pub transaction_mark : Query Unit
unfolding statement
transaction_mark = statement λ db. (ok tt, db)

abbrev pub keep_or_restore : Db → Result StoreError Unit → Db → Result StoreError Unit × Db
keep_or_restore before (ok u) after = (ok u, after)
keep_or_restore before (err e) after = (err e, record before { outages = after.outages })

-- A transaction: if a statement fails, the deferred rollback restores the tables.
abbrev pub in_transaction : Query Unit → Query Unit
in_transaction body db = let (r, db') = body db in keep_or_restore db r db'

unfoldable pub set_user_endpoints : ℤ → List Grant → Query Unit
unfolding transaction_mark delete_grants insert_grants
set_user_endpoints user_id gs =
    transaction_mark
    >> in_transaction (do delete_grants user_id; insert_grants user_id gs; transaction_mark)
