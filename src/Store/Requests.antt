-- ===== src/Store/Requests.antt =====
-- server/internal/store/users.go: resource requests.
use mathlib.Core.List.{reverse}
use easy_deploy.Prelude.{
  ◌+◌, Bool, true, false, ◌&&◌, List, [], ◌∷◌, ◌++◌, Option, none, some, Text, if◌then◌else◌,
}
use easy_deploy.Prelude.Int.{ℤ, pos, int_eq, ltb_ℤ}
use easy_deploy.Prelude.Rows.{select, first, update, exists}
use easy_deploy.Effect.{ok, err}
use easy_deploy.Store.{
  User, ResourceRequest, RequestStatus, pending, approved, rejected, Query, statement, found,
  conflict,
}

-- `user_id` REFERENCES users(id).
unfoldable pub create_request : ResourceRequest → Query ResourceRequest
unfolding statement
create_request r = statement λ db.
    let saved = record r { id = pos db.next_request; status = pending } in
    if exists (λ (u : User). int_eq u.id r.user_id) db.users
    then (
      ok saved,
      record db { requests = db.requests ++ saved ∷ []; next_request = db.next_request + 1 },
    )
    else (err conflict, record db { next_request = db.next_request + 1 })

unfoldable pub get_request : ℤ → Query ResourceRequest
unfolding statement
get_request id =
    statement λ db. (found (first (λ (r : ResourceRequest). int_eq r.id id) db.requests), db)

abbrev pub status_eq : RequestStatus → RequestStatus → Bool
status_eq pending pending = true
status_eq approved approved = true
status_eq rejected rejected = true
status_eq _ _ = false

abbrev pub status_matches : Option RequestStatus → ResourceRequest → Bool
status_matches none r = true
status_matches (some s) r = status_eq r.status s

-- Newest first; `none` and a user id that is not positive ask for no condition.
unfoldable pub list_requests : Option RequestStatus → ℤ → Query (List ResourceRequest)
unfolding statement
list_requests status for_user = statement λ db. (
  ok (
      reverse (
        select
          (λ r.
            status_matches status r
            && (if ltb_ℤ (pos 0) for_user then int_eq r.user_id for_user else true))
          db.requests)),
  db,
)

unfoldable pub review_request : ℤ → RequestStatus → Text → Text → Query Unit
unfolding statement
review_request id status reviewed_by note = statement λ db. (
  ok tt,
  record db {
    requests =
        update (λ (r : ResourceRequest). int_eq r.id id)
          (λ r. record r { status = status; reviewed_by = reviewed_by; review_note = note })
          db.requests;
  },
)
