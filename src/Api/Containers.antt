-- ===== src/Api/Containers.antt =====
-- server/internal/api/handlers_manage.go: the settings and the image of a container are changed.
use easy_deploy.Prelude.{
  not, ◌&&◌, Option, none, some, List, [], Text, codes, text_eq, is_empty, if◌then◌else◌,
}
use easy_deploy.Prelude.Int.{ℤ, pos, int_eq, ltb_ℤ}
use easy_deploy.Effect.{Result, ok, err, Exec, pure, raise, attempt, or_fail, ◌>>=◌, ◌>>◌}
use easy_deploy.Store.{Route}
use easy_deploy.Docker.{ContainerInfo, Labels, label_of, label_subdomain}
use easy_deploy.Docker.Usage.{Daemon}
use easy_deploy.Docker.Options.{DeploySpec, AdvancedSpec}
use easy_deploy.Docker.Replace.{Inspected, Replacer, ReplaceCall, edit_container, recreate}
use easy_deploy.Proxy.{Plane, Publish}
use easy_deploy.Registry.{Box, RegistryError, auth_for_image}
use easy_deploy.Api.{Principal, Failure, failure, from_docker, Handler, decode}
use easy_deploy.Api.Quota.{resolve_resources, Resources}

pub record DeployRequest : Type 0 where
  pub name : Text
  pub image : Text
  pub env : List Text
  pub subdomain : Text
  pub container_port : ℤ
  pub publish : Labels
  pub network : Text
  pub cpu_milli : ℤ
  pub mem_mb : ℤ

-- The tables, what Envoy is served, and the calls of the daemon.
pub record Editing (K : Type 0) : Type 0 where
  pub plane : Plane
  pub calls : List (ReplaceCall K)

abbrev or_no_auth : Result RegistryError Text → Text
or_no_auth (ok token) = token
or_no_auth (err e) = []

-- The subdomain that the container had, if it can be inspected.
abbrev old_subdomain : Option ContainerInfo → Text
old_subdomain none = []
old_subdomain (some info) = elim info.labels [
  | none ↦ []
  | some labels ↦ label_of label_subdomain labels
]

abbrev spec_of : DeployRequest → Resources → Text → AdvancedSpec → DeploySpec
spec_of req res auth no_advanced = record {
  name = req.name;
  image = req.image;
  env = req.env;
  subdomain = req.subdomain;
  container_port = req.container_port;
  publish = req.publish;
  network = req.network;
  registry_auth = auth;
  owner = res.owner;
  nano_cpus = res.nano_cpus;
  memory_bytes = res.mem_bytes;
  extra_labels = [];
  advanced = no_advanced;
}

abbrev pub EditHandler : Type 0 → Type 0 → Type 0
EditHandler K A = Exec (Editing K) Failure A

abbrev tables : {K A : Type 0} → Handler A → EditHandler K A
tables h w = let (r, db) = h w.plane.db in (r, record w { plane = record w.plane { db = db } })

-- A call of the proxy registry whose error is dropped.
abbrev tried : {K A : Type 0} → Publish A → EditHandler K Unit
tried f w = (ok tt, record w { plane = (f w.plane).1 })

abbrev daemon_result :
    {K A : Type 0} → Editing K → Result Text A × List (ReplaceCall K) → Result Failure A × Editing K
daemon_result w (ok a, cs) = (ok a, record w { calls = cs })
daemon_result w (err why, cs) = (err (failure 502 (from_docker why)), record w { calls = cs })

abbrev on_daemon : {K A : Type 0} → Exec (List (ReplaceCall K)) Text A → EditHandler K A
on_daemon f w = daemon_result w (f w.calls)

abbrev or_502 : {K A : Type 0} → Option A → EditHandler K A
or_502 none = raise (failure 502 (from_docker (codes "docker")))
or_502 (some a) = pure a

abbrev image_or : {K : Type 0} → Text → Option (Text × K) → Text
image_or given none = given
image_or given (some (image, rest)) = if is_empty given then image else given

abbrev config_of : {K : Type 0} → Option (Inspected K) → Option (Text × K)
config_of none = none
config_of (some info) = info.config

-- `upsert` and `remove` are the proxy registry's.
module _ {K : Type 0} (box : Box) (upsert : Route → Publish Route) (remove : Text → Publish Unit)
    (no_advanced : AdvancedSpec) where
  -- A route is kept in step for the local host only.
  abbrev retire : Text → DeployRequest → EditHandler K Unit
  retire old req =
      if not (is_empty old) && not (text_eq old req.subdomain) then tried (remove old) else pure tt

  abbrev announce : Text → DeployRequest → EditHandler K Unit
  announce new_id req =
      if not (is_empty req.subdomain) && ltb_ℤ (pos 0) req.container_port
      then tried (
          upsert (record {
            id = pos 0;
            subdomain = req.subdomain;
            container_id = new_id;
            target_host = req.name;
            target_port = req.container_port;
            endpoint_id = pos 0;
          }))
      else pure tt

  abbrev reroute : ℤ → Text → Text → DeployRequest → EditHandler K Unit
  reroute env old new_id req =
      if int_eq env (pos 0) then (retire old req >> announce new_id req) else pure tt

  -- `local` is the local daemon, on which the usage is counted whatever the environment.
  unfoldable pub handle_edit_container :
      Principal
      → ℤ
      → Daemon
      → Option (Replacer K × (Text → Option ContainerInfo))
      → Text
      → Option DeployRequest
      → EditHandler K Text
  unfolding edit_container
  handle_edit_container p env local client id body = do
    req ← decode body
    cli ← or_502 client
    res ← tables (or_fail (failure 403) (resolve_resources p local id req.cpu_milli req.mem_mb))
    auth ← tables (attempt (auth_for_image box req.image))
    new_id ← on_daemon (edit_container cli.0 id (spec_of req res (or_no_auth auth) no_advanced))
    reroute env (old_subdomain (cli.1 id)) new_id req
    pure new_id

  -- `image` is empty where the body does not decode.
  unfoldable pub handle_update_container : Option (Replacer K) → Text → Text → EditHandler K Text
  unfolding recreate
  handle_update_container client id image = do
    cli ← or_502 client
    let wanted = image_or image (config_of (cli.inspect id))
    auth ← tables (attempt (auth_for_image box wanted))
    on_daemon (recreate cli id image (or_no_auth auth))
