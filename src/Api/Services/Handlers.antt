-- ===== src/Api/Services/Handlers.antt =====
-- server/internal/api/handlers_services.go: the handlers of services, over the service manager.
pub mod Ownership
use easy_deploy.Prelude.{
  ℕ, Bool, true, false, not, ◌&&◌, ◌||◌, leb, ◌==◌, Option, none, some, List, [], ◌∷◌, map, Text,
  codes, is_empty, if◌then◌else◌,
}
use easy_deploy.Prelude.Int.{ℤ, int_eq}
use easy_deploy.Prelude.Trim.{trim_space}
use easy_deploy.Effect.{Result, ok, err, Exec, pure, or_fail, ◌>>=◌, ◌>>◌}
use easy_deploy.Store.{Db, Service, Query}
use easy_deploy.Store.Services.{list_services, get_service_by_token}
use easy_deploy.Docker.Usage.{Daemon}
use easy_deploy.Docker.Spec.{DeploySpec, AdvancedSpec}
use easy_deploy.Proxy.{Plane, Publish, service_domains}
use easy_deploy.Proxy.Slug.{is_alnum, is_dash}
use easy_deploy.Service.Manager
use easy_deploy.Service.Manager.{Fleet, Host}
use easy_deploy.Api.{
  Principal, owner_scope, Failure, failure, refused, Handler, or_status, decode, refuse_if,
}
use easy_deploy.Api.Services.{ServiceRequest, owned_service, plan_creation, plan_update}

abbrev pub FleetHandler : Type 0 → Type 0
FleetHandler A = Exec Fleet Failure A

-- A handler that needs only the database.
abbrev pub on_tables : {A : Type 0} → Handler A → FleetHandler A
on_tables h w = let (r, db) = h w.plane.db in (r, record w { plane = record w.plane { db = db } })

abbrev pub manager_or : {A : Type 0} → ℕ → Manager.Task A → FleetHandler A
manager_or status = or_fail (λ e. failure status (refused (codes "service")))

pub record ServiceView : Type 0 where
  pub service : Service
  pub domains : List Text
  pub advanced : AdvancedSpec

-- The characters after the first, up to an alphanumeric one; `last` tells whether the one before was.
unfoldable pub subdomain_rest : Bool → Text → Bool
subdomain_rest last [] = last
subdomain_rest last (c ∷ s) = (is_alnum c || is_dash c) && subdomain_rest (is_alnum c) s

-- `^[a-z0-9]([a-z0-9-]*[a-z0-9])?$`
unfoldable pub is_subdomain : Text → Bool
unfolding subdomain_rest
is_subdomain [] = false
is_subdomain (c ∷ s) = is_alnum c && subdomain_rest true s

-- What a redeployment answers: a build that was started for the service, or that it is done.
pub data Redeployed : Type 0 where
  building : Service → Redeployed
  redeployed : Redeployed

-- The manager's parameters; `to_lower` is `unicode.ToLower`, `decode_advanced` what `json.Unmarshal`
-- leaves in the variable.
module _ (spec_for : Service → ℕ → Query DeploySpec) (client_for : ℤ → Option Host)
    (sync : Publish Unit) (order : List Text → List Text) (to_lower : ℕ → ℕ) (base_domain : Text)
    (decode_advanced : Text → AdvancedSpec) (no_advanced : AdvancedSpec) where
  unfoldable pub service_view : Service → FleetHandler ServiceView
  service_view svc w =
      let (domains, db) =
        service_domains to_lower base_domain svc.name svc.subdomain svc.endpoint_id w.plane.db in
      (
        ok (record {
          service = svc;
          domains = domains;
          advanced = if is_empty svc.advanced then no_advanced else decode_advanced svc.advanced;
        }),
        record w { plane = record w.plane { db = db } },
      )

  -- the loop over the list: the services of one environment
  unfoldable pub views_of : ℤ → List Service → FleetHandler (List ServiceView)
  unfolding service_view
  views_of env [] = pure []
  views_of env (svc ∷ rest) =
      let others = views_of env rest in
      if int_eq svc.endpoint_id env
      then (do v ← service_view svc; vs ← others; pure (v ∷ vs))
      else others

  unfoldable pub handle_list_services : Principal → ℤ → FleetHandler (List ServiceView)
  unfolding views_of
  handle_list_services p env = do
    list ← on_tables (or_status 500 (list_services (owner_scope p)))
    views_of env list

  unfoldable pub handle_set_service_subdomain :
      Principal → Text → Option Text → FleetHandler ServiceView
  unfolding is_subdomain service_view
  handle_set_service_subdomain p name body = do
    svc ← on_tables (owned_service p name)
    given ← decode body
    let sub = map to_lower (trim_space given)
    refuse_if (not (is_empty sub) && not (is_subdomain sub))
        (failure 400 (refused (codes "subdomain must be a single DNS label")))
    manager_or 502 (Manager.set_subdomain spec_for client_for sync order svc.name sub)
    service_view (record svc { subdomain = sub })

  unfoldable pub handle_get_service : Principal → Text → FleetHandler ServiceView
  unfolding service_view
  handle_get_service p name = do svc ← on_tables (owned_service p name); service_view svc

  unfoldable pub handle_create_service :
      Principal → ℤ → Option Daemon → Text → Option ServiceRequest → FleetHandler ServiceView
  unfolding plan_creation service_view
  handle_create_service p env client token body = do
    row ← on_tables (plan_creation p env client token body)
    saved ← manager_or 400 (Manager.create spec_for client_for sync order row)
    service_view saved

  unfoldable pub handle_update_service :
      Principal → ℤ → Option Daemon → Text → Option ServiceRequest → FleetHandler ServiceView
  unfolding service_view
  handle_update_service p env client name body = do
    plan ← on_tables (plan_update p env client name body)
    saved ← manager_or 502 (Manager.update spec_for client_for sync order plan.0.name plan.1)
    service_view saved

  unfoldable pub handle_scale_service : Principal → Text → Option ℤ → FleetHandler ℤ
  handle_scale_service p name body = do
    svc ← on_tables (owned_service p name)
    replicas ← decode body
    manager_or 502 (Manager.scale spec_for client_for sync order name replicas)
    pure replicas

  -- A build from git runs in the background.
  abbrev build_or_redeploy : Service → Text → FleetHandler Redeployed
  build_or_redeploy svc image =
      if not (is_empty svc.git_repo) && is_empty image then pure (building svc) else (do
        manager_or 502 (Manager.redeploy spec_for client_for sync order svc.name image)
        pure redeployed)

  -- `image` is empty where the body does not decode.
  unfoldable pub handle_redeploy_service : Principal → Text → Text → FleetHandler Redeployed
  handle_redeploy_service p name image = do
    svc ← on_tables (owned_service p name)
    build_or_redeploy svc image

  unfoldable pub handle_delete_service : Principal → Text → FleetHandler Unit
  handle_delete_service p name = do
    svc ← on_tables (owned_service p name)
    manager_or 502 (Manager.delete spec_for client_for sync order name)

-- The service whose build is started in the background.
unfoldable pub handle_webhook : Text → Handler Service
handle_webhook token =
    or_fail (λ e. failure 404 (refused (codes "unknown webhook"))) (get_service_by_token token)
