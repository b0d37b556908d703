-- ===== src/Api/Environments.antt =====
-- server/internal/api/handlers_endpoints.go: the environments, over the endpoint manager.
use easy_deploy.Prelude.{
  ℕ, Bool, true, false, not, Option, List, ◌∷◌, map, Text, codes, is_empty, if◌then◌else◌,
}
use easy_deploy.Prelude.Int.{ℤ, pos, int_eq}
use easy_deploy.Prelude.Decimal.{parse_int, parsed_value}
use easy_deploy.Prelude.Rows.{select, exists}
use easy_deploy.Effect.{Exec, pure, or_fail, ◌>>=◌, ◌>>◌}
use easy_deploy.Store.{Endpoint}
use easy_deploy.Store.Endpoints.{list_endpoints}
use easy_deploy.Store.Grants.{get_user_endpoint_ids}
use easy_deploy.Endpoint.{Hosts, EndpointError}
use easy_deploy.Endpoint as Environments
use easy_deploy.Api.{
  Principal, is_admin, Failure, failure, refused, Handler, or_status, decode, refuse_if,
}

-- No secret is shown.
pub record EndpointView : Type 0 where
  pub id : ℤ
  pub name : Text
  pub host : Text
  pub tls : Bool
  pub is_local : Bool

abbrev remote_view : Endpoint → EndpointView
remote_view e = record {
  id = e.id;
  name = e.name;
  host = e.host;
  tls = not (is_empty e.tls_cert_enc);
  is_local = false;
}

abbrev local_view : EndpointView
local_view = record {
  id = pos 0;
  name = codes "Local";
  host = codes "local socket";
  tls = false;
  is_local = true;
}

abbrev granted_only : List ℤ → List Endpoint → List Endpoint
granted_only ids es = select (λ (e : Endpoint). exists (int_eq e.id) ids) es

-- An administrator sees every environment, a member those that are granted.
unfoldable pub handle_list_endpoints : Principal → Handler (List EndpointView)
handle_list_endpoints p = do
  remotes ← or_status 500 list_endpoints
  if is_admin p then pure (local_view ∷ map remote_view remotes) else do
    ids ← or_status 500 (get_user_endpoint_ids p.user_id)
    pure (local_view ∷ map remote_view (granted_only ids remotes))

pub record NewEndpoint : Type 0 where
  pub name : Text
  pub host : Text
  pub tls_ca : Text
  pub tls_cert : Text
  pub tls_key : Text

-- A number that does not parse is 0, the local host.
unfoldable pub endpoint_id_param : Text → ℤ
endpoint_id_param text = parsed_value (parse_int text)

-- The parameters of the endpoint manager.
module _ {C : Type 0} (connect : Text → Option (Text × Text × Text) → Option C)
    (encrypt : Text → Text) (decrypt : Text → Text) (local : C) where
  abbrev HostHandler : Type 0 → Type 0
  HostHandler A = Exec (Hosts C) Failure A

  abbrev hosts_or : {A : Type 0} → ℕ → Environments.Task C A → HostHandler A
  hosts_or status = or_fail (λ e. failure status (refused (codes "environment")))

  abbrev not_local : ℤ → HostHandler Unit
  not_local id =
      refuse_if (int_eq id (pos 0))
        (failure 400 (refused (codes "the local environment cannot be deleted")))

  unfoldable pub handle_create_endpoint : Option NewEndpoint → HostHandler EndpointView
  handle_create_endpoint body = do
    req ← decode body
    ep ← hosts_or 400 (
        Environments.create connect encrypt decrypt local req.name req.host req.tls_ca req.tls_cert
          req.tls_key)
    pure (remote_view ep)

  unfoldable pub handle_update_endpoint : Text → Option NewEndpoint → HostHandler EndpointView
  unfolding endpoint_id_param
  handle_update_endpoint target body = do
    let id = endpoint_id_param target
    not_local id
    req ← decode body
    ep ← hosts_or 400 (
        Environments.update connect encrypt decrypt local id req.name req.host req.tls_ca
          req.tls_cert req.tls_key)
    pure (remote_view ep)

  unfoldable pub handle_endpoint_status :
      (C → Option Text) → Text → Environments.Task C (Bool × Text)
  unfolding endpoint_id_param
  handle_endpoint_status version target =
      Environments.status connect encrypt decrypt local version (endpoint_id_param target)

  unfoldable pub handle_delete_endpoint : Text → HostHandler Unit
  unfolding endpoint_id_param
  handle_delete_endpoint target = do
    let id = endpoint_id_param target
    not_local id
    hosts_or 500 (Environments.remove connect encrypt decrypt local id)
