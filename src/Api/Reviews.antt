-- ===== src/Api/Reviews.antt =====
-- server/internal/api/handlers_users.go: resource requests and their review.
pub mod Granting
use easy_deploy.Prelude.{
  ℕ, Bool, true, false, not, ◌&&◌, ◌||◌, Option, none, some, List, Text, codes, text_eq,
  if◌then◌else◌,
}
use easy_deploy.Prelude.Int.{ℤ, pos, int_eq, ltb_ℤ, leb_ℤ}
use easy_deploy.Effect.{Result, ok, err, pure, attempt, ◌>>=◌, ◌>>◌}
use easy_deploy.Store.{
  Db, StoreError, User, Grant, ResourceRequest, RequestStatus, approved, rejected, pending,
}
use easy_deploy.Store.Users.{get_user_by_id, update_user_quota}
use easy_deploy.Store.Requests.{create_request, get_request, list_requests, review_request}
use easy_deploy.Store.Grants.{
  user_has_endpoint, get_user_endpoint_quota, grant_user_endpoint_quota, set_user_endpoints,
  get_user_endpoints,
}
use easy_deploy.Api.{
  Principal, is_admin, Failure, failure, refused, Handler, or_status, decode, url_id, refuse_if,
}

pub record NewRequest : Type 0 where
  pub endpoint_id : ℤ
  pub cpu_milli : ℤ
  pub mem_mb : ℤ
  pub disk_mb : ℤ
  pub note : Text

-- A member may ask for quota only where an admin has given access.
unfoldable pub require_access : Principal → ℤ → Handler Unit
require_access p endpoint_id =
    if not (int_eq endpoint_id (pos 0)) && not (is_admin p)
    then (do
      granted ← or_status 500 (user_has_endpoint p.user_id endpoint_id)
      refuse_if (not granted)
          (failure 403 (refused (codes "you don't have access to that environment"))))
    else pure tt

unfoldable pub handle_create_request : Principal → Option NewRequest → Handler ResourceRequest
unfolding require_access
handle_create_request p body = do
  req ← decode body
  refuse_if (leb_ℤ req.cpu_milli (pos 0) && (leb_ℤ req.mem_mb (pos 0) && leb_ℤ req.disk_mb (pos 0)))
      (failure 400 (refused (codes "request at least one of CPU, memory, or storage")))
  require_access p req.endpoint_id
  or_status 500 (
      create_request (record {
        id = pos 0;
        user_id = p.user_id;
        username = p.username;
        endpoint_id = req.endpoint_id;
        cpu_milli = req.cpu_milli;
        mem_mb = req.mem_mb;
        disk_mb = req.disk_mb;
        note = req.note;
        status = pending;
        reviewed_by = codes "";
        review_note = codes "";
      }))

unfoldable pub handle_list_requests :
    Principal → Option RequestStatus → Handler (List ResourceRequest)
handle_list_requests p status =
    or_status 500 (list_requests status (if is_admin p then pos 0 else p.user_id))

pub record Review : Type 0 where
  pub approve : Bool
  pub grant_cpu_milli : ℤ
  pub grant_mem_mb : ℤ
  pub grant_disk_mb : ℤ
  pub note : Text

pub record Amounts : Type 0 where
  pub cpu_milli : ℤ
  pub mem_mb : ℤ
  pub disk_mb : ℤ

abbrev pub no_amounts : Amounts
no_amounts = record { cpu_milli = pos 0; mem_mb = pos 0; disk_mb = pos 0 }

abbrev pub user_amounts : Result StoreError User → Amounts
user_amounts (ok u) = record {
  cpu_milli = u.cpu_quota_milli;
  mem_mb = u.mem_quota_mb;
  disk_mb = u.disk_quota_mb;
}
user_amounts (err e) = no_amounts

abbrev pub grant_amounts : Result StoreError (Option Grant) → Amounts
grant_amounts (ok (some g)) = record {
  cpu_milli = g.cpu_quota_milli;
  mem_mb = g.mem_quota_mb;
  disk_mb = g.disk_quota_mb;
}
grant_amounts (ok none) = no_amounts
grant_amounts (err e) = no_amounts

-- What the user has now on the environment; a failed read counts as nothing.
unfoldable pub current_amounts : ResourceRequest → Handler Amounts
current_amounts rr =
    if int_eq rr.endpoint_id (pos 0)
    then (do u ← attempt (get_user_by_id rr.user_id); pure (user_amounts u))
    else (do
      g ← attempt (get_user_endpoint_quota rr.user_id rr.endpoint_id)
      pure (grant_amounts g))

-- the closure `pick`
unfoldable pub pick : ℤ → ℤ → ℤ → ℤ
pick override requested current =
    if ltb_ℤ (pos 0) override
    then override
    else if ltb_ℤ (pos 0) requested
    then requested
    else current

unfoldable pub granted_amounts : Review → ResourceRequest → Amounts → Amounts
unfolding pick
granted_amounts req rr current = record {
  cpu_milli = pick req.grant_cpu_milli rr.cpu_milli current.cpu_milli;
  mem_mb = pick req.grant_mem_mb rr.mem_mb current.mem_mb;
  disk_mb = pick req.grant_disk_mb rr.disk_mb current.disk_mb;
}

unfoldable pub write_quota : ResourceRequest → Amounts → Handler Unit
write_quota rr a = or_status 500 (
    if int_eq rr.endpoint_id (pos 0)
    then update_user_quota rr.user_id a.cpu_milli a.mem_mb a.disk_mb
    else grant_user_endpoint_quota rr.user_id rr.endpoint_id a.cpu_milli a.mem_mb a.disk_mb)

-- The answer: the status, and for an approval what was granted.
pub data Reviewed : Type 0 where
  was_rejected : Reviewed
  was_approved : Amounts → Reviewed

unfoldable pub approve_request : Text → ℤ → ResourceRequest → Review → Handler Reviewed
unfolding current_amounts granted_amounts write_quota
approve_request reviewer id rr req = do
  current ← current_amounts rr
  let amounts = granted_amounts req rr current
  write_quota rr amounts
  or_status 500 (review_request id approved reviewer req.note)
  pure (was_approved amounts)

unfoldable pub settle_request : Principal → ℤ → Review → Handler Reviewed
unfolding approve_request
settle_request p id req = do
  rr ← or_status 404 (get_request id)
  if req.approve
      then approve_request p.username id rr req
      else do or_status 500 (review_request id rejected p.username req.note); pure was_rejected

unfoldable pub handle_review_request : Principal → Text → Option Review → Handler Reviewed
unfolding settle_request
handle_review_request p id_text body = do
  id ← url_id id_text
  req ← decode body
  settle_request p id req

-- server/internal/api/handlers_endpoints.go: a user's grants, read and replaced by an admin.
unfoldable pub handle_get_user_environments : Text → Handler (List Grant)
handle_get_user_environments id_text = do id ← url_id id_text; or_status 500 (get_user_endpoints id)

unfoldable pub handle_set_user_environments : Text → Option (List Grant) → Handler Unit
handle_set_user_environments id_text body = do
  id ← url_id id_text
  grants ← decode body
  or_status 500 (set_user_endpoints id grants)
