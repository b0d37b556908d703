-- ===== src/Boot/Accounts.antt =====
-- Synchronising services and routes leaves the accounts alone, whatever fails on the way.
use easy_deploy.Prelude.{
  ℕ, zero, suc, ◌+◌, ◌≡◌, refl, ◌∙◌, arith, Bool, Option, none, some, List, [], ◌∷◌, ◌++◌, Text,
  Bool-cases, inl, inr,
}
use easy_deploy.Prelude.Int.{ℤ, pos}
use easy_deploy.Effect.{Result, ok, err, Exec, ◌>>=◌}
use easy_deploy.Store.{Db, User, Query, Route, Service, Endpoint, statement}
use easy_deploy.Store.Services.{list_services}
use easy_deploy.Store.Endpoints.{list_endpoints}
use easy_deploy.Store.Routes.{list_routes}
use easy_deploy.Store.Registries.{list_registries}
use easy_deploy.Docker.Spec.{DeploySpec, AdvancedSpec}
use easy_deploy.Xds.Cache.{Snapshot}
use easy_deploy.Registry.{Box, auth_for_image}
use easy_deploy.Service.Replicas.{replica_spec, upstreams, rounds}
use easy_deploy.Service.Manager.{
  Fleet, Host, stored, routed, reached, deploy_on, ensure, reconcile, reconcile_all, sync_all,
  drop_index, has_index, by_index, starts,
}
use easy_deploy.Proxy.{Plane, Publish, ServiceUpstream, publish, push, on_db}

module _ {S E : Type 0} (users : S → List User) where
  abbrev pub Keeps : {A : Type 0} → Exec S E A → Type 0
  Keeps m = (s : S) → users (m s).1 ≡ users s

  bind-Keeps :
      {A B : Type 0} (m : Exec S E A) (f : A → Exec S E B)
      → Keeps m
      → ((a : A) → Keeps (f a))
      → Keeps (m >>= f)
  bind-Keeps {A} m f keep later s = after (m s).0 refl
    where
      after : (r : Result E A) → (m s).0 ≡ r → users ((m >>= f) s).1 ≡ users s
      after (ok a) e = rw e (later a (m s).1 ∙ keep s)
      after (err why) e = rw e (keep s)

abbrev pub db_users : Db → List User
db_users db = db.users

abbrev pub plane_users : Plane → List User
plane_users p = p.db.users

abbrev pub fleet_users : Fleet → List User
fleet_users w = w.plane.db.users

stored-Keeps : {A : Type 0} (q : Query A) → Keeps db_users q → Keeps fleet_users (stored q)
stored-Keeps q keep w = ground (arith, keep w.plane.db)

pub routed-Keeps : {A : Type 0} (f : Publish A) → Keeps plane_users f → Keeps fleet_users (routed f)
routed-Keeps f keep w = ground (arith, keep w.plane)

on_db-Keeps : {A : Type 0} (q : Query A) → Keeps db_users q → Keeps plane_users (on_db q)
on_db-Keeps q keep p = ground (arith, keep p.db)

list_services-Keeps : (owner : Text) → Keeps db_users (list_services owner)
unfolding list_services statement
list_services-Keeps owner db = ground arith

list_registries-Keeps : (owner : Text) → Keeps db_users (list_registries owner)
unfolding list_registries statement
list_registries-Keeps owner db = ground arith

list_endpoints-Keeps : Keeps db_users list_endpoints
unfolding list_endpoints statement
list_endpoints-Keeps db = ground arith

list_routes-Keeps : Keeps db_users list_routes
unfolding list_routes statement
list_routes-Keeps db = ground arith

upstreams-Keeps : Keeps db_users upstreams
unfolding upstreams
upstreams-Keeps =
    bind-Keeps db_users (list_services []) _ (list_services-Keeps []) (λ svcs db. refl)

module _ (to_lower : ℕ → ℕ) (accepts : Text → Snapshot → Bool) (order : List ℤ → List ℤ)
    (base_domain : Text) where
  push-Keeps :
      (q : Option (Query (List ServiceUpstream))) (eps : List Endpoint)
      (services : List ServiceUpstream) (routes : List Route)
      → Keeps plane_users (push to_lower accepts order q base_domain eps services routes)
  unfolding push
  push-Keeps q eps services routes p = ground arith

  pub publish-Keeps :
      Keeps plane_users (publish to_lower accepts order (some upstreams) base_domain)
  unfolding publish
  publish-Keeps =
      bind-Keeps plane_users (on_db list_endpoints) _
        (on_db-Keeps list_endpoints list_endpoints-Keeps)
        λ eps.
          bind-Keeps plane_users (on_db upstreams) _ (on_db-Keeps upstreams upstreams-Keeps)
            λ services.
              bind-Keeps plane_users (on_db list_routes) _
                (on_db-Keeps list_routes list_routes-Keeps)
                λ routes. push-Keeps (some upstreams) eps services routes

module _ (box : Box) (decode_env : Text → List Text) (decode_advanced : Text → AdvancedSpec)
    (no_advanced : AdvancedSpec) where
  pub replica_spec-Keeps :
      (svc : Service) (i : ℕ)
      → Keeps db_users (replica_spec box decode_env decode_advanced no_advanced svc i)
  unfolding replica_spec auth_for_image
  replica_spec-Keeps svc i db = ground (arith, list_registries-Keeps [] db)

module _ (spec_for : Service → ℕ → Query DeploySpec) (client_for : ℤ → Option Host)
    (sync : Publish Unit) (order : List Text → List Text)
    (spec_keeps : (svc : Service) (i : ℕ) → Keeps db_users (spec_for svc i))
    (sync_keeps : Keeps plane_users sync) where
  deploy_on-Keeps : (h : Host) (spec : DeploySpec) → Keeps fleet_users (deploy_on h spec)
  unfolding deploy_on
  deploy_on-Keeps h spec w = ground arith

  ensure-Keeps :
      (h : Host) (svc : Service) (i n : ℕ) (m : List (ℤ × Text))
      → Keeps fleet_users (ensure spec_for client_for sync order h svc i n m)
  unfolding ensure
  ensure-Keeps h svc i zero m = λ w. refl
  ensure-Keeps h svc i (suc n) m =
      let later = ensure-Keeps h svc (i + 1) n (drop_index (pos i) m) in
      elim (Bool-cases (has_index (pos i) m)) [
        | inl there ↦ rw there later
        | inr absent ↦ rw absent (
            bind-Keeps fleet_users (stored (spec_for svc i)) _
              (stored-Keeps (spec_for svc i) (spec_keeps svc i))
              λ spec.
                bind-Keeps fleet_users (deploy_on h spec) _ (deploy_on-Keeps h spec) λ u. later)
      ]

  reached-Keeps : {A : Type 0} (o : Option A) → Keeps fleet_users (reached o)
  reached-Keeps none w = refl
  reached-Keeps (some a) w = refl

  reconcile-Keeps :
      (svc : Service) → Keeps fleet_users (reconcile spec_for client_for sync order svc)
  unfolding reconcile
  reconcile-Keeps svc =
      bind-Keeps fleet_users (reached (client_for svc.endpoint_id)) _
        (reached-Keeps (client_for svc.endpoint_id))
        λ h.
          bind-Keeps fleet_users (reached (h.list svc.name)) _ (reached-Keeps (h.list svc.name))
            λ existing w.
              bind-Keeps fleet_users
                (ensure spec_for client_for sync order h svc 0 (rounds svc.replicas)
                  (by_index existing []))
                _ (ensure-Keeps h svc 0 (rounds svc.replicas) (by_index existing []))
                (λ left v. refl) (record w { calls = w.calls ++ starts existing })

  reconcile_all-Keeps :
      (svcs : List Service) → Keeps fleet_users (reconcile_all spec_for client_for sync order svcs)
  unfolding reconcile_all
  reconcile_all-Keeps [] = λ w. refl
  reconcile_all-Keeps (svc ∷ rest) =
      bind-Keeps fleet_users (reconcile spec_for client_for sync order svc) _ (reconcile-Keeps svc)
        λ u. reconcile_all-Keeps rest

  pub sync_all-Keeps : Keeps fleet_users (sync_all spec_for client_for sync order)
  unfolding sync_all
  sync_all-Keeps =
      bind-Keeps fleet_users (stored (list_services [])) _
        (stored-Keeps (list_services []) (list_services-Keeps []))
        λ svcs.
          bind-Keeps fleet_users (reconcile_all spec_for client_for sync order svcs) _
            (reconcile_all-Keeps svcs) λ u. routed-Keeps sync sync_keeps
