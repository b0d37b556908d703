-- ===== src/Service/Autoscaler.antt =====
-- server/internal/service/scaler.go: one round of the autoscaler over all services. What each host says
-- of the running replicas is a parameter.
use easy_deploy.Prelude.{ℕ, Option, none, some, List, [], ◌∷◌, Text}
use easy_deploy.Prelude.Int.{ℤ}
use easy_deploy.Effect.{Result, ok, err, pure, attempt, ◌>>=◌}
use easy_deploy.Store.{Service, Query}
use easy_deploy.Store.Services.{list_services}
use easy_deploy.Docker.Spec.{DeploySpec}
use easy_deploy.Proxy.{Publish}
use easy_deploy.Service.Scaler.{Float64, scale_request}
use easy_deploy.Service.Manager.{Host, Task, FleetError, stored, scale}

module _ (fl : Float64) (samples : Service → Option (List (Option fl.F)))
    (spec_for : Service → ℕ → Query DeploySpec) (client_for : ℤ → Option Host) (sync : Publish Unit)
    (order : List Text → List Text) where
  abbrev scaled : Text → Option ℤ → Task Unit
  scaled name none = pure tt
  scaled name (some n) = scale spec_for client_for sync order name n

  -- A service that cannot be scaled does not keep the others from it.
  unfoldable pub scale_each : List Service → Task Unit
  unfolding scale
  scale_each [] = pure tt
  scale_each (svc ∷ rest) =
      let others = scale_each rest in
      (attempt {F = FleetError} (scaled svc.name (scale_request fl svc (samples svc)))
        >>= (λ r. others))

  abbrev each_of : Result FleetError (List Service) → Task Unit
  each_of (err e) = pure tt
  each_of (ok svcs) = scale_each svcs

  -- The decision is made on the row that the list gave, even if it was changed since.
  unfoldable pub scale_once : Task Unit
  unfolding scale_each
  scale_once = attempt (stored (list_services [])) >>= each_of
