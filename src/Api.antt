-- ===== src/Api.antt =====
-- server/internal/api: what the handlers have in common. A handler reads its request, calls the
-- store and the other components in order, and answers at the first error.
pub mod Users
pub mod Reviews
pub mod Quota
pub mod Services
pub mod Volumes
pub mod Access
pub mod Account
pub mod Router
pub mod Lists
pub mod Environments
pub mod Registries
pub mod Exposure
pub mod Containers
pub mod Files
pub mod Edge
pub mod Streams
use easy_deploy.Prelude.{
  ℕ, Bool, true, false, Option, none, some, [], Text, text_eq, codes, if◌then◌else◌,
}
use easy_deploy.Prelude.Int.{ℤ}
use easy_deploy.Prelude.Decimal.{parse_int, good, syntax, range}
use easy_deploy.Effect.{Result, ok, err, Exec, or_fail}
use easy_deploy.Store.{Db, Query, StoreError, role_admin}

-- auth.Principal: the caller, from the claims of the session token.
pub record Principal : Type 0 where
  pub user_id : ℤ
  pub username : Text
  pub role : Text

abbrev pub is_admin : Principal → Bool
is_admin p = text_eq p.role role_admin

-- The owner to which a member's lists and creations are scoped; empty for an admin.
abbrev pub owner_scope : Principal → Text
owner_scope p = if is_admin p then [] else p.username

pub data Reason : Type 0 where
  from_store : StoreError → Reason
  bad_body : Reason
  bad_number : Reason
  from_docker : Text → Reason
  refused : Text → Reason

-- an error response
pub record Failure : Type 0 where
  pub status : ℕ
  pub reason : Reason

abbrev pub failure : ℕ → Reason → Failure
failure status reason = record { status = status; reason = reason }

abbrev pub Handler : Type 0 → Type 0
Handler A = Exec Db Failure A

abbrev pub or_status : {A : Type 0} → ℕ → Query A → Handler A
or_status status = or_fail (λ e. failure status (from_store e))

-- `json.NewDecoder(r.Body).Decode(&req)`: `none` is a body that does not decode.
abbrev pub decode : {A S : Type 0} → Option A → Exec S Failure A
decode none s = (err (failure 400 bad_body), s)
decode (some a) s = (ok a, s)

-- `strconv.ParseInt(chi.URLParam(r, "id"), 10, 64)`
unfoldable pub url_id : {S : Type 0} → Text → Exec S Failure ℤ
url_id text s = elim (parse_int text) [
  | good n ↦ (ok n, s)
  | syntax ↦ (err (failure 400 bad_number), s)
  | range n ↦ (err (failure 400 bad_number), s)
]

-- `if test { writeErr(w, …); return }`
abbrev pub refuse_if : {S : Type 0} → Bool → Failure → Exec S Failure Unit
refuse_if true f s = (err f, s)
refuse_if false f s = (ok tt, s)

-- a host that cannot be reached, or a thing that it does not know
abbrev pub or_502 : {A : Type 0} → Option A → Handler A
or_502 none db = (err (failure 502 (from_docker (codes "docker"))), db)
or_502 (some a) db = (ok a, db)
