-- ===== src/Xds/Cache.antt =====
-- server/internal/xds/xds.go: the snapshot that each Envoy node is served.
pub mod Updates
use easy_deploy.Prelude.{
  ℕ, Bool, true, false, ◌≡◌, refl, arith, Option, none, some, List, [], ◌∷◌, ◌++◌, map, Text, codes,
  text_eq, text_eq_iff, if◌then◌else◌,
}
use easy_deploy.Prelude.Int.{ℤ, pos, int_eq, ◌+ℤ◌, wrap64}
use easy_deploy.Prelude.Decimal.{itoa}
use easy_deploy.Effect.{Result, ok, err, Exec}
use easy_deploy.Xds.{
  Upstream, Cluster, RouteConfig, Listener, make_cluster, make_route_config, make_http_listener,
}

pub record Snapshot : Type 0 where
  pub version : Text
  pub clusters : List Cluster
  pub routes : RouteConfig
  pub listener : Listener

pub record Manager : Type 0 where
  pub node_id : Text
  pub base_domain : Text
  pub version : ℤ
  -- the snapshot cache, by node id
  pub cache : List (Text × Snapshot)

-- `now` is `time.Now().UnixMilli()`.
unfoldable pub new_manager : Text → Text → ℤ → Manager
new_manager node_id base_domain now = record {
  node_id = node_id;
  base_domain = base_domain;
  version = now;
  cache = [];
}

abbrev pub edge_prefix : Text
edge_prefix = codes "easydeploy-edge-"

unfoldable pub node_for_endpoint : Text → ℤ → Text
node_for_endpoint node_id id = if int_eq id (pos 0) then node_id else edge_prefix ++ itoa id

unfoldable pub snapshot_of : Text → List (Text × Snapshot) → Option Snapshot
snapshot_of node [] = none
snapshot_of node ((n, s) ∷ rest) = if text_eq n node then some s else snapshot_of node rest

unfoldable pub set_snapshot : Text → Snapshot → List (Text × Snapshot) → List (Text × Snapshot)
set_snapshot node s [] = (node, s) ∷ []
set_snapshot node s ((n, t) ∷ rest) =
    if text_eq n node then (node, s) ∷ rest else (n, t) ∷ set_snapshot node s rest

unfoldable pub build_snapshot : Manager → List Upstream → Snapshot
build_snapshot m ups = record {
  version = itoa m.version;
  clusters = map make_cluster ups;
  routes = make_route_config ups m.base_domain;
  listener = make_http_listener;
}

abbrev pub next_version : Manager → Manager
next_version m = record m { version = wrap64 (m.version +ℤ pos 1) }

-- `accepts` is what go-control-plane says of a snapshot for a node (`NewSnapshot`, `Consistent`,
-- `SetSnapshot`). The version is used up also when it refuses.
unfoldable pub update_node :
    (Text → Snapshot → Bool) → Text → List Upstream → Exec Manager Text Unit
unfolding set_snapshot build_snapshot
update_node accepts node ups m =
    let next = next_version m in
    let snap = build_snapshot next ups in
    if accepts node snap
    then (ok tt, record next { cache = set_snapshot node snap m.cache })
    else (err (codes "snapshot refused"), next)
