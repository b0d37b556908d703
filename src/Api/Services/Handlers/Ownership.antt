-- ===== src/Api/Services/Handlers/Ownership.antt =====
-- A service of somebody else.
use easy_deploy.Prelude.{
  ◌≡◌, ◌≢◌, arith, ℕ, ◌≤◌, false, Option, some, List, Text, text_eq, text_eq_iff,
}
use easy_deploy.Prelude.Int.{ℤ}
use easy_deploy.Prelude.Rows.{first}
use easy_deploy.Effect.{Result, ok, err, ◌>>=◌}
use easy_deploy.Store.{Db, Service, Query, answering, statement}
use easy_deploy.Store.Services.{get_service}
use easy_deploy.Docker.Usage.{Daemon}
use easy_deploy.Docker.Spec.{DeploySpec, AdvancedSpec}
use easy_deploy.Proxy.{Publish}
use easy_deploy.Service.Manager.{Fleet, Host}
use easy_deploy.Api.{Principal, is_admin, Failure, Handler}
use easy_deploy.Api.Access.{IsDenied}
use easy_deploy.Api.Services.{ServiceRequest, owned_service, plan_update}
use easy_deploy.Api.Services.Handlers.{
  FleetHandler, on_tables, handle_get_service, handle_set_service_subdomain, handle_update_service,
  handle_scale_service, handle_redeploy_service, handle_delete_service,
}

-- An error response; no table changed, no daemon was called, and Envoy is served what it was.
abbrev pub IsUntouched : {A : Type 0} → Fleet → Result Failure A × Fleet → Type 0
IsUntouched w (ok a, after) = ⊥
IsUntouched w (err f, after) =
    (403 ≤ f.status)
    × (after.calls ≡ w.calls)
    × (after.plane.xds ≡ w.plane.xds)
    × (answering after.plane.db ≡ answering w.plane.db)

bind-IsDenied :
    {A B : Type 0} (m : Handler A) (k : A → Handler B) (db : Db)
    → IsDenied db (m db)
    → IsDenied db ((m >>= k) db)
bind-IsDenied m k db h = ground arith

bind-IsUntouched :
    {A B : Type 0} (m : Handler A) (k : A → FleetHandler B) (w : Fleet)
    → IsDenied w.plane.db (m w.plane.db)
    → IsUntouched w ((on_tables m >>= k) w)
bind-IsUntouched m k w h = ground arith

module _ (p : Principal) (name : Text) (svc : Service) (w : Fleet) (member : is_admin p ≡ false)
    (there : first (λ (s : Service). text_eq s.name name) w.plane.db.services ≡ some svc)
    (other : svc.owner ≢ p.username) where
  owned_service-IsDenied : IsDenied w.plane.db (owned_service p name w.plane.db)
  unfolding owned_service get_service statement
  owned_service-IsDenied = ground (arith, text_eq_iff svc.owner p.username)

  module _ (spec_for : Service → ℕ → Query DeploySpec) (client_for : ℤ → Option Host)
      (sync : Publish Unit) (order : List Text → List Text) (to_lower : ℕ → ℕ) (base_domain : Text)
      (decode_advanced : Text → AdvancedSpec) (no_advanced : AdvancedSpec) where
    -- Whatever a member asks of a service of somebody else (to see it, to change its settings, its
    -- subdomain or its replicas, to redeploy or to delete it), the answer is an error, no table
    -- changes, no daemon is called and Envoy is served what it was, whether or not the database
    -- answers.
    pub handlers-IsUntouched :
        (env : ℤ) (client : Option Daemon) (text : Option Text) (body : Option ServiceRequest)
        (number : Option ℤ) (image : Text)
        → IsUntouched w (
            handle_get_service spec_for client_for sync order to_lower base_domain decode_advanced
              no_advanced p name w)
          × IsUntouched w (
              handle_set_service_subdomain spec_for client_for sync order to_lower base_domain
                decode_advanced no_advanced p name text w)
          × IsUntouched w (
              handle_update_service spec_for client_for sync order to_lower base_domain
                decode_advanced no_advanced p env client name body w)
          × IsUntouched w (
              handle_scale_service spec_for client_for sync order to_lower base_domain
                decode_advanced no_advanced p name number w)
          × IsUntouched w (
              handle_redeploy_service spec_for client_for sync order to_lower base_domain
                decode_advanced no_advanced p name image w)
          × IsUntouched w (
              handle_delete_service spec_for client_for sync order to_lower base_domain
                decode_advanced no_advanced p name w)
    unfolding handle_get_service handle_set_service_subdomain handle_update_service
        handle_scale_service handle_redeploy_service handle_delete_service plan_update
    handlers-IsUntouched env client text body number image = (
      bind-IsUntouched (owned_service p name) _ w owned_service-IsDenied,
      bind-IsUntouched (owned_service p name) _ w owned_service-IsDenied,
      bind-IsUntouched (plan_update p env client name body) _ w
          (bind-IsDenied (owned_service p name) _ w.plane.db owned_service-IsDenied),
      bind-IsUntouched (owned_service p name) _ w owned_service-IsDenied,
      bind-IsUntouched (owned_service p name) _ w owned_service-IsDenied,
      bind-IsUntouched (owned_service p name) _ w owned_service-IsDenied,
    )
