-- ===== src/Api/Edge.antt =====
-- server/internal/api/handlers_endpoints.go: the edge proxies of remote environments.
pub mod Serving
use easy_deploy.Prelude.{Bool, Option, none, some, List, Text, codes, is_empty}
use easy_deploy.Prelude.Int.{ℤ, pos, int_eq}
use easy_deploy.Effect.{Result, ok, err, Exec, pure, ◌>>=◌, ◌>>◌}
use easy_deploy.Xds.Cache.{node_for_endpoint}
use easy_deploy.Xds.Bootstrap.{AddressError, edge_bootstrap_yaml}
use easy_deploy.Docker.Edge as Docker
use easy_deploy.Docker.Edge.{
  EdgeCall, EdgeHost, EdgeSpec, EdgeStatus, deploy_edge, edge_status, remove_edge,
}
use easy_deploy.Proxy.{Plane, Publish, RouteError}
use easy_deploy.Api.{Failure, failure, from_docker, refused, refuse_if}
use easy_deploy.Api.Environments.{endpoint_id_param}

-- The tables and what Envoy is served, and the calls of the remote daemon.
pub record Edges : Type 0 where
  pub plane : Plane
  pub calls : List EdgeCall

abbrev pub EdgeHandler : Type 0 → Type 0
EdgeHandler A = Exec Edges Failure A

abbrev pub keep_calls :
    {A : Type 0} → Edges → Result Text A × List EdgeCall → Result Failure A × Edges
keep_calls w (ok a, cs) = (ok a, record w { calls = cs })
keep_calls w (err why, cs) = (err (failure 502 (from_docker why)), record w { calls = cs })

abbrev pub on_host : {A : Type 0} → Docker.Task A → EdgeHandler A
on_host m w = keep_calls w (m w.calls)

abbrev pub keep_plane :
    {A : Type 0} → Edges → Result RouteError A × Plane → Result Failure A × Edges
keep_plane w (ok a, p) = (ok a, record w { plane = p })
keep_plane w (err e, p) = (err (failure 500 (refused (codes "routes"))), record w { plane = p })

abbrev pub on_plane : {A : Type 0} → Publish A → EdgeHandler A
on_plane m w = keep_plane w (m w.plane)

abbrev pub reached : Option EdgeHost → EdgeHandler EdgeHost
reached none w = (err (failure 502 (from_docker (codes "environment"))), w)
reached (some h) w = (ok h, w)

abbrev pub advertised : Result AddressError Text → EdgeHandler Text
advertised (ok yaml) w = (ok yaml, w)
advertised (err e) w = (err (failure 400 (refused (codes "xds advertise address"))), w)

-- The body is optional: without one the port is 0, which stands for the default.
abbrev pub port_of : Option ℤ → ℤ
port_of none = pos 0
port_of (some n) = n

-- `client_for` is the endpoint manager's `ClientFor`, `sync` the registry's `Sync`.
module _ (client_for : ℤ → Option EdgeHost) (sync : Publish Unit) where
  unfoldable pub handle_edge_status : Text → EdgeHandler EdgeStatus
  unfolding endpoint_id_param
  handle_edge_status target = do
    h ← reached (client_for (endpoint_id_param target))
    on_host (edge_status h)

  -- With the node's configuration: deploy, publish, and ask how the edge is.
  unfoldable pub deploy_and_publish : EdgeHost → EdgeSpec → EdgeHandler EdgeStatus
  unfolding deploy_edge edge_status
  deploy_and_publish h spec = do
    on_host (deploy_edge h spec)
    on_plane sync
    on_host (edge_status h)

  abbrev pub spec_for : Text → Text → Option ℤ → EdgeSpec
  spec_for node yaml body = record {
    node_id = node;
    bootstrap_yaml = yaml;
    host_port = port_of body;
  }

  -- The handler for an environment.
  unfoldable pub deploy_to : Text → ℤ → Option ℤ → EdgeHandler EdgeStatus
  unfolding deploy_and_publish
  deploy_to advertise_addr id body w =
      let node = node_for_endpoint w.plane.xds.node_id id in
      (do
        yaml ← advertised (edge_bootstrap_yaml node advertise_addr)
        h ← reached (client_for id)
        deploy_and_publish h (spec_for node yaml body))
        w

  unfoldable pub handle_deploy_edge : Text → Text → Option ℤ → EdgeHandler EdgeStatus
  unfolding endpoint_id_param deploy_to
  handle_deploy_edge advertise_addr target body = do
    let id = endpoint_id_param target
    refuse_if (int_eq id (pos 0))
        (failure 400 (refused (codes "the local host runs its own Envoy")))
    refuse_if (is_empty advertise_addr)
        (failure 400 (refused (codes "set EASYDEPLOY_XDS_ADVERTISE_ADDR")))
    deploy_to advertise_addr id body

  unfoldable pub handle_remove_edge : Text → EdgeHandler Unit
  unfolding endpoint_id_param remove_edge
  handle_remove_edge target = do
    h ← reached (client_for (endpoint_id_param target))
    on_host (remove_edge h)
