-- ===== src/Docker/Edge/Deploying.antt =====
-- A deployment that ends well.
use easy_deploy.Prelude.{
  ◌≡◌, refl, sym, ap, subst, ◌∙◌, arith, ◌||◌, inl, inr, Bool-cases, if◌then◌else◌, Option, none,
  some, List, ◌∷◌, Text, codes, is_empty,
}
use easy_deploy.Effect.{Result, ok, pure, bind-IsOk, ◌>>=◌, ◌>>◌}
use easy_deploy.Docker.Edge.{
  EdgeHost, EdgeSpec, EdgeCall, EdgeContainer, create, copy_to, start, edge_container, settled_port,
  edge_container_port, launch, place, deploy_edge, copy_edge_bootstrap, ensure_edge_network, call,
  pull, remove, Task, edge_envoy_image, edge_container_name,
}

module _ (h : EdgeHost) where
  -- The latest calls: the container of the specification, whose port is the listener's, was created,
  -- given the configuration and started, in this order.
  abbrev pub Launched : EdgeSpec → List EdgeCall → Type 0
  Launched spec calls =
      (port : Text) × (id : Text) × (before : List EdgeCall) × (h.new_port (codes "tcp")
          edge_container_port
        ≡ some port)
      × (let container = edge_container spec.node_id (settled_port spec.host_port) port in
          (h.creates container ≡ some id)
          × (calls
              ≡ start id
                ∷ copy_to id (codes "/") (codes "bootstrap.yaml") spec.bootstrap_yaml
                ∷ create container
                ∷ before))

  launch-IsDone :
      (container : EdgeContainer) (yaml : Text) (calls : List EdgeCall)
      → (launch h container yaml calls).0 ≡ ok tt
      → (id : Text) × (h.creates container ≡ some id)
        × ((launch h container yaml calls).1
            ≡ start id
              ∷ copy_to id (codes "/") (codes "bootstrap.yaml") yaml
              ∷ create container
              ∷ calls)
  unfolding launch copy_edge_bootstrap
  launch-IsDone container yaml calls e = done (h.creates container) refl
    where
      done :
          (o : Option Text)
          → h.creates container ≡ o
          → (id : Text) × (h.creates container ≡ some id)
            × ((launch h container yaml calls).1
                ≡ start id
                  ∷ copy_to id (codes "/") (codes "bootstrap.yaml") yaml
                  ∷ create container
                  ∷ calls)
      done none q = absurd (ground arith)
      done (some id) q = (id, q, ground arith)

  placed-Launched :
      (spec : EdgeSpec) (calls : List EdgeCall) (o : Option Text)
      → h.new_port (codes "tcp") edge_container_port ≡ o
      → (place h spec calls).0 ≡ ok tt
      → Launched spec (place h spec calls).1
  unfolding place
  placed-Launched spec calls none q e = absurd (ground arith)
  placed-Launched spec calls (some port) q e =
      let container = edge_container spec.node_id (settled_port spec.host_port) port in
      let (id, made, shape) = launch-IsDone container spec.bootstrap_yaml calls (rw q at e) in
      (port, id, calls, q, (made, rw q shape))

  abbrev pulled : Task Unit
  pulled = if h.has_image then pure tt else call (pull edge_envoy_image)

  abbrev after_network : EdgeSpec → Unit {0} → Task Unit
  after_network spec u = do call (remove edge_container_name); pulled; place h spec

  after_network-Launched :
      (spec : EdgeSpec) (calls : List EdgeCall)
      → (after_network spec tt calls).0 ≡ ok tt
      → Launched spec (after_network spec tt calls).1
  unfolding place
  after_network-Launched spec calls e = elim (Bool-cases h.has_image) [
    | inl there ↦
        rw there (placed-Launched spec (remove edge_container_name ∷ calls) _ refl (rw there at e))
    | inr absent ↦ rw absent (
        placed-Launched spec (pull edge_envoy_image ∷ remove edge_container_name ∷ calls) _ refl
          (rw absent at e))
  ]

  -- A deployment that ends well created the edge container of the specification, gave it the
  -- configuration and started it, in this order, and did nothing after that.
  pub deploy_edge-Launched :
      (spec : EdgeSpec) (calls : List EdgeCall)
      → (deploy_edge h spec calls).0 ≡ ok tt
      → Launched spec (deploy_edge h spec calls).1
  unfolding deploy_edge
  deploy_edge-Launched spec calls e =
      elim (Bool-cases (is_empty spec.node_id || is_empty spec.bootstrap_yaml)) [
        | inl refused ↦ absurd (ground arith)
        | inr given ↦
            let steps = ensure_edge_network h >>= after_network spec in
            let ran : (steps calls).0 ≡ ok tt = rw given at e in
            let (u, made, shape) =
              bind-IsOk (ensure_edge_network h) (after_network spec) calls tt ran in
            rw given (
              subst (λ (r : Result Text Unit × List EdgeCall). Launched spec r.1) (sym shape)
                (after_network-Launched spec (ensure_edge_network h calls).1
                  (sym (ap (λ (r : Result Text Unit × List EdgeCall). r.0) shape) ∙ ran)))
      ]
