-- ===== src/Service/Manager.antt =====
-- server/internal/service/service.go: what the manager does to the services and to their hosts. The
-- calls of the daemon are written down in the order in which they are made.
pub mod Reconciling
use easy_deploy.Prelude.{
  ℕ, zero, suc, ◌+◌, Bool, true, false, not, ◌&&◌, ◌||◌, Option, none, some, List, [], ◌∷◌, ◌++◌,
  map, Text, codes, is_empty, if◌then◌else◌,
}
use easy_deploy.Prelude.Int.{ℤ, pos, int_eq, ltb_ℤ, leb_ℤ}
use easy_deploy.Prelude.Decimal.{atoi}
use easy_deploy.Effect.{Result, ok, err, Exec, pure, raise, attempt, ◌>>=◌, ◌>>◌}
use easy_deploy.Store.{Db, Service, Query, StoreError}
use easy_deploy.Store.Services.{
  create_service, get_service, list_services, set_service_replicas, update_service,
  set_service_subdomain, set_service_image, delete_service,
}
use easy_deploy.Docker.Spec.{DeploySpec}
use easy_deploy.Proxy.{Plane, Publish, RouteError}
use easy_deploy.Service.{replica_name}
use easy_deploy.Service.Replicas.{rounds}

-- A container that a service's label selects.
pub record Replica : Type 0 where
  pub id : Text
  -- the replica label; empty if there is none
  pub index_label : Text
  pub running : Bool

pub data Call : Type 0 where
  start : Text → Call
  deploy : DeploySpec → Call
  remove : Text → Call

-- What the daemon of one host answers: the containers of a service, and whether a deployment works.
-- The answers to a start and to a removal are not looked at.
pub record Host : Type 0 where
  pub list : Text → Option (List Replica)
  pub deploys : DeploySpec → Bool

pub record Fleet : Type 0 where
  pub plane : Plane
  pub calls : List Call

pub data FleetError : Type 0 where
  from_store : StoreError → FleetError
  from_docker : Text → FleetError
  from_route : RouteError → FleetError

abbrev pub Task : Type 0 → Type 0
Task A = Exec Fleet FleetError A

abbrev keep_db : {A : Type 0} → Fleet → Result StoreError A × Db → Result FleetError A × Fleet
keep_db w (ok a, db) = (ok a, record w { plane = record w.plane { db = db } })
keep_db w (err e, db) = (err (from_store e), record w { plane = record w.plane { db = db } })

abbrev pub stored : {A : Type 0} → Query A → Task A
stored q w = keep_db w (q w.plane.db)

abbrev keep_plane : {A : Type 0} → Fleet → Result RouteError A × Plane → Result FleetError A × Fleet
keep_plane w (ok a, p) = (ok a, record w { plane = p })
keep_plane w (err e, p) = (err (from_route e), record w { plane = p })

abbrev pub routed : {A : Type 0} → Publish A → Task A
routed f w = keep_plane w (f w.plane)

abbrev pub reached : {A : Type 0} → Option A → Task A
reached none w = (err (from_docker (codes "docker")), w)
reached (some a) w = (ok a, w)

abbrev pub call : Call → Task Unit
call c w = (ok tt, record w { calls = w.calls ++ c ∷ [] })

abbrev succeeded : Bool → Task Unit
succeeded true w = (ok tt, w)
succeeded false w = (err (from_docker (codes "deploy")), w)

unfoldable pub deploy_on : Host → DeploySpec → Task Unit
deploy_on h spec = do call (deploy spec); succeeded (h.deploys spec)

-- The map `byIndex`: an index is set again.
unfoldable pub put_index : ℤ → Text → List (ℤ × Text) → List (ℤ × Text)
put_index i id [] = (i, id) ∷ []
put_index i id ((j, d) ∷ m) = if int_eq j i then (i, id) ∷ m else (j, d) ∷ put_index i id m

unfoldable pub has_index : ℤ → List (ℤ × Text) → Bool
has_index i [] = false
has_index i ((j, d) ∷ m) = if int_eq j i then true else has_index i m

unfoldable pub drop_index : ℤ → List (ℤ × Text) → List (ℤ × Text)
drop_index i [] = []
drop_index i ((j, d) ∷ m) = if int_eq j i then drop_index i m else (j, d) ∷ drop_index i m

abbrev noted : Option ℤ → Text → List (ℤ × Text) → List (ℤ × Text)
noted none id m = m
noted (some i) id m = put_index i id m

abbrev started : Option ℤ → Replica → List Call
started none c = []
started (some i) c = if c.running then [] else start c.id ∷ []

-- The first loop of `reconcile`: the map, and the calls that start what does not run.
unfoldable pub by_index : List Replica → List (ℤ × Text) → List (ℤ × Text)
unfolding put_index
by_index [] m = m
by_index (c ∷ cs) m = by_index cs (noted (atoi c.index_label) c.id m)

unfoldable pub starts : List Replica → List Call
starts [] = []
starts (c ∷ cs) = started (atoi c.index_label) c ++ starts cs

abbrev pub call_all : List Call → Task Unit
call_all cs w = (ok tt, record w { calls = w.calls ++ cs })

abbrev pub container_ids : List (ℤ × Text) → List Text
container_ids m = map (λ (e : ℤ × Text). e.1) m

-- `spec_for` is `replicaSpec`; `client_for` is the endpoint manager's `ClientFor`; `sync` is the
-- registry's `Sync`; `order` is the order in which Go ranges over the leftovers.
module _ (spec_for : Service → ℕ → Query DeploySpec) (client_for : ℤ → Option Host)
    (sync : Publish Unit) (order : List Text → List Text) where
  -- The second loop of `reconcile`, from replica `i` on: what is left of the map.
  unfoldable pub ensure : Host → Service → ℕ → ℕ → List (ℤ × Text) → Task (List (ℤ × Text))
  unfolding has_index drop_index deploy_on
  ensure h svc i zero m = pure m
  ensure h svc i (suc n) m =
      let later = ensure h svc (i + 1) n (drop_index (pos i) m) in
      if has_index (pos i) m
      then later
      else do spec ← stored (spec_for svc i); deploy_on h spec; later

  unfoldable pub reconcile : Service → Task Unit
  unfolding by_index starts ensure
  reconcile svc = do
    h ← reached (client_for svc.endpoint_id)
    existing ← reached (h.list svc.name)
    call_all (starts existing)
    left ← ensure h svc 0 (rounds svc.replicas) (by_index existing [])
    call_all (map remove (order (container_ids left)))

  unfoldable pub create : Service → Task Service
  unfolding reconcile
  create svc = do saved ← stored (create_service svc); reconcile saved; routed sync; pure saved

  -- The loop that `Update` and `Redeploy` share: each replica is removed and deployed again.
  unfoldable pub roll : Host → Service → Text → ℕ → ℕ → Task Unit
  unfolding deploy_on
  roll h svc name i zero = pure tt
  roll h svc name i (suc n) =
      let later = roll h svc name (i + 1) n in
      (do
        call (remove (replica_name name i))
        spec ← stored (spec_for svc i)
        deploy_on h spec
        later)

  abbrev beyond : ℤ → Option ℤ → Bool
  beyond replicas none = false
  beyond replicas (some i) = leb_ℤ replicas i

  unfoldable pub shrink_calls : ℤ → List Replica → List Call
  shrink_calls replicas [] = []
  shrink_calls replicas (c ∷ cs) =
      let rest = shrink_calls replicas cs in
      if beyond replicas (atoi c.index_label) then remove c.id ∷ rest else rest

  -- A list that cannot be had is passed over.
  abbrev drop_beyond : ℤ → Option (List Replica) → Task Unit
  drop_beyond replicas none = pure tt
  drop_beyond replicas (some existing) = call_all (shrink_calls replicas existing)

  abbrev pub kept_identity : Service → Service → Service
  kept_identity cur input = record input {
    id = cur.id;
    name = cur.name;
    owner = cur.owner;
    webhook_token = cur.webhook_token;
    endpoint_id = cur.endpoint_id;
  }

  unfoldable pub update : Text → Service → Task Service
  unfolding roll shrink_calls
  update name input = do
    cur ← stored (get_service name)
    let svc = kept_identity cur input
    stored (update_service svc)
    h ← reached (client_for svc.endpoint_id)
    roll h svc name 0 (rounds svc.replicas)
    drop_beyond svc.replicas (h.list name)
    routed sync
    pure svc

  unfoldable pub set_subdomain : Text → Text → Task Unit
  set_subdomain name subdomain = do
    svc ← stored (get_service name)
    stored (set_service_subdomain svc.id subdomain)
    routed sync

  abbrev pub not_negative : ℤ → ℤ
  not_negative n = if ltb_ℤ n (pos 0) then pos 0 else n

  unfoldable pub scale : Text → ℤ → Task Unit
  unfolding reconcile
  scale name replicas = do
    svc ← stored (get_service name)
    stored (set_service_replicas svc.id (not_negative replicas))
    reconcile (record svc { replicas = not_negative replicas })
    routed sync

  abbrev with_image : Text → Service → Service
  with_image new_image svc = if is_empty new_image then svc else record svc { image = new_image }

  unfoldable pub redeploy : Text → Text → Task Unit
  unfolding roll
  redeploy name new_image = do
    cur ← stored (get_service name)
    let svc = with_image new_image cur
    stored (set_service_image svc.id svc.image)
    h ← reached (client_for svc.endpoint_id)
    roll h svc name 0 (rounds svc.replicas)
    routed sync

  unfoldable pub delete : Text → Task Unit
  delete name = do
    svc ← stored (get_service name)
    h ← reached (client_for svc.endpoint_id)
    reps ← reached (h.list name)
    call_all (map (λ (c : Replica). remove c.id) reps)
    stored (delete_service svc.id)
    routed sync

  unfoldable pub reconcile_all : List Service → Task Unit
  reconcile_all [] = pure tt
  reconcile_all (svc ∷ rest) = let others = reconcile_all rest in (reconcile svc >> others)

  unfoldable pub sync_all : Task Unit
  unfolding reconcile_all
  sync_all = do svcs ← stored (list_services []); reconcile_all svcs; routed sync
