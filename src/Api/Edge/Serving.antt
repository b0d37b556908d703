-- ===== src/Api/Edge/Serving.antt =====
-- A remote environment whose edge proxy was deployed.
use easy_deploy.Prelude.{
  ℕ, ◌≡◌, refl, sym, ap, subst, ◌∙◌, arith, Bool, true, false, Option, none, some, List, Text,
  is_empty, Bool-cases, inl, inr,
}
use easy_deploy.Prelude.Int.{ℤ, pos, int_eq, Fits64}
use easy_deploy.Effect.{Result, ok, err}
use easy_deploy.Xds.Cache.{Snapshot, Manager, node_for_endpoint, edge_prefix}
use easy_deploy.Xds.Bootstrap.{AddressError, edge_bootstrap_yaml}
use easy_deploy.Docker.Edge.{EdgeCall, EdgeHost, EdgeSpec, EdgeStatus, deploy_edge, edge_status}
use easy_deploy.Docker.Edge.Deploying.{Launched, deploy_edge-Launched}
use easy_deploy.Proxy.Described.{is_named}
use easy_deploy.Proxy.{Plane, Publish, ServiceUpstream, publish, on_env}
use easy_deploy.Proxy.Publishing.{Visits, answering_plane, described_now, publish-served}
use easy_deploy.Store.{Db, Query, answering}
use easy_deploy.Prelude.Prefix.{starts_with}
use easy_deploy.Prelude.Rows.{select}
use easy_deploy.Xds.{Upstream}
use easy_deploy.Xds.Cache.Updates.{served, resources}
use easy_deploy.Api.{Failure}
use easy_deploy.Api.Environments.{endpoint_id_param}
use easy_deploy.Api.Edge.{Edges, deploy_and_publish, deploy_to, handle_deploy_edge, spec_for}

module _ (client_for : ℤ → Option EdgeHost) (sync : Publish Unit) where
  deploy_and_publish-parts :
      (h : EdgeHost) (spec : EdgeSpec) (w : Edges) (st : EdgeStatus)
      → (deploy_and_publish client_for sync h spec w).0 ≡ ok st
      → ((deploy_edge h spec w.calls).0 ≡ ok tt)
        × ((sync w.plane).0 ≡ ok tt)
        × ((deploy_and_publish client_for sync h spec w).1
            ≡ record { plane = (sync w.plane).1; calls = (deploy_edge h spec w.calls).1 })
  unfolding deploy_and_publish edge_status
  deploy_and_publish-parts h spec w st e = ground arith

  -- What a deployment through the handler leaves.
  abbrev pub Deployed : Text → ℤ → Option ℤ → Edges → Edges → Type 0
  Deployed advertise_addr id body w after =
      (h : EdgeHost) × (yaml : Text) × (client_for id ≡ some h)
      × (edge_bootstrap_yaml (node_for_endpoint w.plane.xds.node_id id) advertise_addr ≡ ok yaml)
      × Launched h (spec_for client_for sync (node_for_endpoint w.plane.xds.node_id id) yaml body)
          after.calls
      × ((sync w.plane).0 ≡ ok tt)
      × (after.plane ≡ (sync w.plane).1)

  deploy_to-Deployed :
      (advertise_addr : Text) (id : ℤ) (body : Option ℤ) (w : Edges) (st : EdgeStatus)
      → (deploy_to client_for sync advertise_addr id body w).0 ≡ ok st
      → Deployed advertise_addr id body w (deploy_to client_for sync advertise_addr id body w).1
  unfolding deploy_to
  deploy_to-Deployed advertise_addr id body w st e = known _ _ refl refl
    where
      known :
          (o : Option EdgeHost) (y : Result AddressError Text)
          → client_for id ≡ o
          → edge_bootstrap_yaml (node_for_endpoint w.plane.xds.node_id id) advertise_addr ≡ y
          → Deployed advertise_addr id body w (deploy_to client_for sync advertise_addr id body w).1
      known o (err why) p q = absurd (ground arith)
      known none (ok yaml) p q = absurd (ground arith)
      known (some h) (ok yaml) p q =
          let node = node_for_endpoint w.plane.xds.node_id id in
          let spec = spec_for client_for sync node yaml body in
          let shape : deploy_to client_for sync advertise_addr id body w
              ≡ deploy_and_publish client_for sync h spec w =
            rw (q, p) refl in
          let (done, synced, left) =
            deploy_and_publish-parts h spec w st
              (sym (ap (λ (r : Result Failure EdgeStatus × Edges). r.0) shape) ∙ e) in
          let after = ap (λ (r : Result Failure EdgeStatus × Edges). r.1) shape ∙ left in
          (
            h,
            yaml,
            p,
            q,
            subst (Launched h spec) (sym (ap (λ (x : Edges). x.calls) after))
                (deploy_edge-Launched h spec w.calls done),
            synced,
            ap (λ (x : Edges). x.plane) after,
          )

  -- A deployment that the handler answers with a status is one of a remote environment, at an
  -- advertised address, and leaves what `Deployed` says.
  pub handle_deploy_edge-Deployed :
      (advertise_addr target : Text) (body : Option ℤ) (w : Edges) (st : EdgeStatus)
      → (handle_deploy_edge client_for sync advertise_addr target body w).0 ≡ ok st
      → (int_eq (endpoint_id_param target) (pos 0) ≡ false)
        × Deployed advertise_addr
            (endpoint_id_param target)
            body
            w
            (handle_deploy_edge client_for sync advertise_addr target body w).1
  unfolding handle_deploy_edge
  handle_deploy_edge-Deployed advertise_addr target body w st e =
      let id = endpoint_id_param target in
      elim (Bool-cases (int_eq id (pos 0))) [
        | inl here ↦ absurd (ground arith)
        | inr remote ↦ elim (Bool-cases (is_empty advertise_addr)) [
          | inl unset ↦ absurd (ground arith)
          | inr set ↦ (
            remote,
            rw (remote, set)
                (deploy_to-Deployed advertise_addr id body w st (rw (remote, set) at e)),
          )
        ]
      ]

module _ (client_for : ℤ → Option EdgeHost) (to_lower : ℕ → ℕ) (accepts : Text → Snapshot → Bool)
    (order : List ℤ → List ℤ) (q : Query (List ServiceUpstream)) (base_domain : Text)
    (services : List ServiceUpstream) (db : Db) (m : Manager)
    (read : q (answering db) ≡ (ok services, answering db)) (calls : List EdgeCall)
    (advertise_addr target : Text) (body : Option ℤ) where
  abbrev pub edges : Edges
  edges = record { plane = answering_plane db m; calls = calls }

  abbrev pub sync : Publish Unit
  sync = publish to_lower accepts order (some q) base_domain

  abbrev now : List Upstream
  now = described_now to_lower accepts order q base_domain services db m read

  abbrev pub deployed : Result Failure EdgeStatus × Edges
  deployed = handle_deploy_edge client_for sync advertise_addr target body edges

  -- When the handler answers with the status of an edge proxy, its environment is a remote one; the
  -- proxy was created with the configuration for the advertised address and started last; and the
  -- node that it calls itself is served exactly the upstreams described for that environment: one for
  -- each service with hosts there, then one for each route there whose subdomain no service with
  -- hosts has. The database answers and has the environment, the local node's name is not one for a
  -- remote, and ids fit `int64`.
  pub handle_deploy_edge-IsServed :
      Visits order
      → starts_with edge_prefix m.node_id ≡ false
      → ((i : ℤ) → is_named db.endpoints now i ≡ true → Fits64 i)
      → is_named db.endpoints now (endpoint_id_param target) ≡ true
      → (st : EdgeStatus) → deployed.0 ≡ ok st
      → (int_eq (endpoint_id_param target) (pos 0) ≡ false)
        × Deployed client_for sync advertise_addr (endpoint_id_param target) body edges deployed.1
        × (served (node_for_endpoint m.node_id (endpoint_id_param target)) deployed.1.plane.xds
            ≡ some (resources m.base_domain (select (on_env (endpoint_id_param target)) now)))
  handle_deploy_edge-IsServed visits apart fits there st e =
      let id = endpoint_id_param target in
      let (remote, left) =
        handle_deploy_edge-Deployed client_for sync advertise_addr target body edges st e in
      let (h, yaml, p, y, launched, synced, plane) = left in
      (
        remote,
        left,
        ap (λ (x : Plane). served (node_for_endpoint m.node_id id) x.xds) plane
            ∙ publish-served to_lower accepts order q base_domain services db m read visits apart
                fits synced id there,
      )
