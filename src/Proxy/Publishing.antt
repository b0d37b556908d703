-- ===== src/Proxy/Publishing.antt =====
-- What the Envoy nodes are served after a publication.

use easy_deploy.Prelude.{
  ℕ, Bool, true, false, ◌≡◌, refl, sym, ap, ◌∙◌, arith, Option, some, List, [], ◌∷◌, Text, text_eq,
  text_eq_sound, text_eq_refl, if◌then◌else◌,
}
use easy_deploy.Prelude.Int.{ℤ, int_eq, int_eq_iff, Fits64}
use easy_deploy.Prelude.Prefix.{starts_with}
use easy_deploy.Prelude.Rows.{select, exists, order_by}
use easy_deploy.Effect.{ok}
use easy_deploy.Xds.{Upstream}
use easy_deploy.Xds.Cache.{
  Snapshot, Manager, update_node, build_snapshot, next_version, node_for_endpoint, edge_prefix,
}
use easy_deploy.Xds.Cache.Updates.{
  served, resources, served-update_node, update_node_settings, node_for_endpoint_injective,
}
use easy_deploy.Proxy.Described.{described, intended-described, is_named, exists-nodes}
use easy_deploy.Store.Routes.{list_routes}
use easy_deploy.Store.Endpoints.{list_endpoints}
use easy_deploy.Store.{Db, answering, statement, Query, Route, Endpoint}
use easy_deploy.Proxy.{ServiceUpstream, Plane, on_env, push_all, nodes, push, publish, intended}

abbrev pub is_id : ℤ → ℤ → Bool
is_id id i = int_eq i id

-- No other environment of the list has a node of that name.
abbrev HasOwnNode : Text → ℤ → List ℤ → Type 0
HasOwnNode node_id id ids =
    (i : ℤ)
    → exists (is_id i) ids ≡ true
    → text_eq (node_for_endpoint node_id i) (node_for_endpoint node_id id) ≡ true
    → i ≡ id

HasOwnNode-tail :
    (node_id : Text) (id i : ℤ) (ids : List ℤ)
    → HasOwnNode node_id id (i ∷ ids)
    → HasOwnNode node_id id ids
unfolding exists
HasOwnNode-tail node_id id i ids h j there = h j (ground arith)

served-push_all :
    (accepts : Text → Snapshot → Bool) (ups : List Upstream) (ids : List ℤ) (m : Manager) (id : ℤ)
    (n b : Text)
    → m.node_id ≡ n
    → m.base_domain ≡ b
    → HasOwnNode n id ids
    → (push_all accepts ups ids m).0 ≡ ok tt
    → served (node_for_endpoint n id) (push_all accepts ups ids m).1 ≡ (
        if exists (is_id id) ids
        then some (resources b (select (on_env id) ups))
        else served (node_for_endpoint n id) m)
unfolding push_all exists
served-push_all accepts ups [] m id n b hn hb own h = refl
served-push_all accepts ups (i ∷ ids) m id n b hn hb own h =
    let node = node_for_endpoint m.node_id i in
    let these = select (on_env i) ups in
    let m1 = (update_node accepts node these m).1 in
    let (kept_node, kept_base) = update_node_settings accepts node these m in
    ground (
      arith,
      hn,
      served-push_all accepts ups ids m1 id n b (kept_node ∙ hn) (kept_base ∙ hb)
          (HasOwnNode-tail n id i ids own),
      served-update_node accepts node (node_for_endpoint n id) these m,
      own i,
      text_eq_refl (node_for_endpoint n id),
      int_eq_iff i id,
    )

-- What is assumed of Go's `range` over a map: it visits the keys and nothing else.
abbrev pub Visits : (List ℤ → List ℤ) → Type 0
Visits order = (id : ℤ) (ids : List ℤ) → exists (is_id id) (order ids) ≡ exists (is_id id) ids

push_all-reaches :
    (accepts : Text → Snapshot → Bool) (ups : List Upstream) (ids : List ℤ) (m : Manager)
    → ((node : Text) (s : Snapshot) → accepts node s ≡ true)
    → (push_all accepts ups ids m).0 ≡ ok tt
unfolding push_all update_node
push_all-reaches accepts ups [] m all = refl
push_all-reaches accepts ups (i ∷ ids) m all =
    let node = node_for_endpoint m.node_id i in
    let these = select (on_env i) ups in
    let m1 = (update_node accepts node these m).1 in
    ground (
      arith,
      all node (build_snapshot (next_version m) these),
      push_all-reaches accepts ups ids m1 all,
    )

module _ (to_lower : ℕ → ℕ) (accepts : Text → Snapshot → Bool) (order : List ℤ → List ℤ)
    (source : Option (Query (List ServiceUpstream))) (base_domain : Text) (eps : List Endpoint)
    (services : List ServiceUpstream) (routes : List Route) (w : Plane) (visits : Visits order)
    (apart : starts_with edge_prefix w.xds.node_id ≡ false)
    (fits : (i : ℤ)
      → exists (is_id i) (nodes eps (intended to_lower base_domain eps services routes)) ≡ true
      → Fits64 i) where
  abbrev ups : List Upstream
  ups = intended to_lower base_domain eps services routes

  own_node :
      (id : ℤ)
      → exists (is_id id) (nodes eps ups) ≡ true
      → HasOwnNode w.xds.node_id id (order (nodes eps ups))
  own_node id there i visited same =
      node_for_endpoint_injective w.xds.node_id i id apart
        (fits i (sym (visits i (nodes eps ups)) ∙ visited)) (fits id there) (text_eq_sound _ _ same)

  push-served :
      (id : ℤ)
      → exists (is_id id) (nodes eps ups) ≡ true
      → (push to_lower accepts order source base_domain eps services routes w).0 ≡ ok tt
      → served
          (node_for_endpoint w.xds.node_id id)
          (push to_lower accepts order source base_domain eps services routes w).1.xds
        ≡ some (resources w.xds.base_domain (select (on_env id) ups))
  unfolding push
  push-served id there h =
      let ids = order (nodes eps ups) in
      ground (
        arith,
        served-push_all accepts ups ids w.xds id w.xds.node_id w.xds.base_domain refl refl
            (own_node id there),
        visits id (nodes eps ups),
      )

-- the plane with a database that answers
abbrev pub answering_plane : Db → Manager → Plane
answering_plane db m = record { db = answering db; xds = m }

module _ (to_lower : ℕ → ℕ) (accepts : Text → Snapshot → Bool) (order : List ℤ → List ℤ)
    (q : Query (List ServiceUpstream)) (base_domain : Text) (services : List ServiceUpstream)
    (db : Db) (m : Manager) (read : q (answering db) ≡ (ok services, answering db)) where
  abbrev upstreams_now : List Upstream
  upstreams_now =
      intended to_lower base_domain db.endpoints services
        (order_by (λ (r : Route). r.subdomain) db.routes)

  publish-push :
      publish to_lower accepts order (some q) base_domain (answering_plane db m)
      ≡ push to_lower accepts order
          (some q)
          base_domain
          db.endpoints
          services
          (order_by (λ (r : Route). r.subdomain) db.routes)
          (answering_plane db m)
  unfolding publish list_endpoints list_routes statement
  publish-push = rw read refl

  served_now :
      Visits order
      → starts_with edge_prefix m.node_id ≡ false
      → ((i : ℤ) → exists (is_id i) (nodes db.endpoints upstreams_now) ≡ true → Fits64 i)
      → (publish to_lower accepts order (some q) base_domain (answering_plane db m)).0 ≡ ok tt
      → (id : ℤ) → exists (is_id id) (nodes db.endpoints upstreams_now) ≡ true
      → served
          (node_for_endpoint m.node_id id)
          (publish to_lower accepts order (some q) base_domain (answering_plane db m)).1.xds
        ≡ some (resources m.base_domain (select (on_env id) upstreams_now))
  served_now visits apart fits h id there =
      let rows = order_by (λ (r : Route). r.subdomain) db.routes in
      rw publish-push (
        push-served to_lower accepts order (some q) base_domain db.endpoints services rows
          (answering_plane db m) visits apart fits id there (sym (ap (λ r. r.0) publish-push) ∙ h))

  -- The upstreams that the tables describe, with the routes in the order of their subdomains.
  abbrev pub described_now : List Upstream
  described_now =
      described to_lower base_domain db.endpoints services
        (order_by (λ (r : Route). r.subdomain) db.routes)

  now_described : upstreams_now ≡ described_now
  now_described =
      intended-described to_lower base_domain db.endpoints services
        (order_by (λ (r : Route). r.subdomain) db.routes)

  node_named :
      (id : ℤ)
      → exists (is_id id) (nodes db.endpoints upstreams_now)
        ≡ is_named db.endpoints described_now id
  node_named id = rw now_described (exists-nodes id db.endpoints described_now)

  -- A publication that ends well serves each environment that the database or an upstream names, and
  -- the local host, exactly the upstreams described for it: one for each service with hosts there,
  -- under its own name and the subdomain that it asks for, then one for each route there whose
  -- subdomain no service with hosts has, in the order of the subdomains. It does so in whatever
  -- order Go ranges over the environments. The database answers, the local node's name is not one
  -- for a remote, and ids fit `int64`.
  pub publish-served :
      Visits order
      → starts_with edge_prefix m.node_id ≡ false
      → ((i : ℤ) → is_named db.endpoints described_now i ≡ true → Fits64 i)
      → (publish to_lower accepts order (some q) base_domain (answering_plane db m)).0 ≡ ok tt
      → (id : ℤ) → is_named db.endpoints described_now id ≡ true
      → served
          (node_for_endpoint m.node_id id)
          (publish to_lower accepts order (some q) base_domain (answering_plane db m)).1.xds
        ≡ some (resources m.base_domain (select (on_env id) described_now))
  publish-served visits apart fits h id there =
      served_now visits apart (λ i named. fits i (sym (node_named i) ∙ named)) h id
        (node_named id ∙ there)
      ∙ ap (λ ups. some (resources m.base_domain (select (on_env id) ups))) now_described

  -- A publication ends well if go-control-plane accepts every snapshot and the database answers.
  pub publish-succeeds :
      ((node : Text) (s : Snapshot) → accepts node s ≡ true)
      → (publish to_lower accepts order (some q) base_domain (answering_plane db m)).0 ≡ ok tt
  unfolding push
  publish-succeeds all = rw publish-push (
      ground (
        arith,
        push_all-reaches accepts upstreams_now (order (nodes db.endpoints upstreams_now)) m all,
      ))
