-- ===== src/Api/Services.antt =====
-- server/internal/api/handlers_services.go: the settings of a service, as a request gives them.
pub mod Covers
pub mod Handlers
use easy_deploy.Prelude.{
  ℕ, Bool, true, false, not, ◌&&◌, ◌||◌, Option, none, some, List, [], Text, codes, text_eq,
  is_empty, if◌then◌else◌,
}
use easy_deploy.Prelude.Int.{ℤ, pos, int_eq, ltb_ℤ, leb_ℤ}
use easy_deploy.Effect.{Result, ok, err, Exec, pure, or_fail, ◌>>=◌, ◌>>◌}
use easy_deploy.Store.{Db, Service, StoreError, not_found}
use easy_deploy.Store.Services.{get_service}
use easy_deploy.Docker.Usage.{Daemon}
use easy_deploy.Api.{
  Principal, is_admin, Failure, failure, Reason, refused, from_store, Handler, decode, refuse_if,
}
use easy_deploy.Api.Quota.{enforce_service_quota}

-- `env` and `advanced` are the JSON that the handler marshals from the request.
pub record ServiceRequest : Type 0 where
  pub name : Text
  pub image : Text
  pub subdomain : Text
  pub container_port : ℤ
  pub network : Text
  pub env : Text
  pub cpu_milli : ℤ
  pub mem_mb : ℤ
  pub replicas : ℤ
  pub min_replicas : ℤ
  pub max_replicas : ℤ
  pub autoscale : Bool
  pub target_cpu_pct : ℤ
  pub git_repo : Text
  pub git_branch : Text
  pub git_dockerfile : Text
  pub advanced : Text

unfoldable pub clamp_min : ℤ → ℤ → ℤ
clamp_min v min = if ltb_ℤ v min then min else v

abbrev or_default : Text → Text → Text
or_default given default = if is_empty given then default else given

-- The assignments that `handleCreateService` and `handleUpdateService` share, in their order.
unfoldable pub normalize : ServiceRequest → ServiceRequest
unfolding clamp_min
normalize req =
    let replicas = clamp_min req.replicas (pos 1) in
    let min_replicas = clamp_min req.min_replicas (pos 1) in
    let top = clamp_min req.max_replicas replicas in
    record req {
      replicas = replicas;
      min_replicas = min_replicas;
      max_replicas = if ltb_ℤ top min_replicas then min_replicas else top;
      target_cpu_pct = if leb_ℤ req.target_cpu_pct (pos 0) then pos 70 else req.target_cpu_pct;
      git_branch = or_default req.git_branch (codes "main");
      git_dockerfile = or_default req.git_dockerfile (codes "Dockerfile");
    }

-- The replicas that the quota is checked against.
unfoldable pub effective_replicas : ServiceRequest → ℤ
effective_replicas req =
    if req.autoscale && ltb_ℤ req.replicas req.max_replicas then req.max_replicas else req.replicas

-- The row that a creation stores; the network falls back to the edge network.
unfoldable pub service_of : ServiceRequest → Text → Text → ℤ → Service
service_of req owner token env = record {
  id = pos 0;
  name = req.name;
  owner = owner;
  image = req.image;
  subdomain = req.subdomain;
  container_port = req.container_port;
  network = or_default req.network (codes "easydeploy-edge");
  env = req.env;
  cpu_milli = req.cpu_milli;
  mem_mb = req.mem_mb;
  replicas = req.replicas;
  min_replicas = req.min_replicas;
  max_replicas = req.max_replicas;
  autoscale = req.autoscale;
  target_cpu_pct = req.target_cpu_pct;
  git_repo = req.git_repo;
  git_branch = req.git_branch;
  git_dockerfile = req.git_dockerfile;
  webhook_token = token;
  last_image = [];
  advanced = req.advanced;
  endpoint_id = env;
}

abbrev pub as_forbidden : Reason → Failure
as_forbidden = failure 403

-- The checks of `handleCreateService`: the row that it hands to the service manager.
unfoldable pub plan_creation :
    Principal → ℤ → Option Daemon → Text → Option ServiceRequest → Handler Service
unfolding normalize effective_replicas
plan_creation p env client token body = do
  given ← decode body
  refuse_if (is_empty given.name || is_empty given.image)
      (failure 400 (refused (codes "name and image are required")))
  let req = normalize given
  owner ←
      or_fail as_forbidden
        (enforce_service_quota p env client (effective_replicas req) req.cpu_milli req.mem_mb [])
  pure (service_of req owner token env)

abbrev pub owned_by : Principal → Service → Handler Service
owned_by p svc db =
    if not (is_admin p) && not (text_eq svc.owner p.username)
    then (err (failure 403 (refused (codes "you do not have access to this resource"))), db)
    else (ok svc, db)

-- `statusForOwnershipErr`
abbrev pub ownership_status : StoreError → Failure
ownership_status not_found = failure 404 (from_store not_found)
ownership_status e = failure 502 (from_store e)

unfoldable pub owned_service : Principal → Text → Handler Service
owned_service p name = or_fail ownership_status (get_service name) >>= owned_by p

-- The checks of `handleUpdateService`: the row that replaces the editable settings.
unfoldable pub plan_update :
    Principal → ℤ → Option Daemon → Text → Option ServiceRequest → Handler (Service × Service)
unfolding owned_service normalize effective_replicas
plan_update p env client name body = do
  cur ← owned_service p name
  given ← decode body
  refuse_if (is_empty given.image) (failure 400 (refused (codes "image is required")))
  let req = normalize given
  owner ← or_fail as_forbidden (
      enforce_service_quota p env client (effective_replicas req) req.cpu_milli req.mem_mb cur.name)
  pure (cur, service_of req [] [] (pos 0))
