-- ===== src/Xds/Cache/Updates.antt =====
-- Which snapshot a node is served after an update, and that nodes have names of their own.
use mathlib.Core.Option
use easy_deploy.Prelude.{
  Bool, false, ◌≡◌, refl, sym, ◌∙◌, arith, Option, some, List, [], ◌∷◌, map, Text, text_eq,
  text_eq_iff, inl, inr, Bool-cases, if◌then◌else◌,
}
use easy_deploy.Prelude.Int.{ℤ, pos, int_eq, int_eq_iff, Fits64}
use easy_deploy.Prelude.Prefix.{starts_with, append_cancel, ne_of_prefix}
use easy_deploy.Prelude.Decimal.{itoa, itoa_injective}
use easy_deploy.Effect.{ok}
use easy_deploy.Xds.{Upstream, Cluster, RouteConfig, make_cluster, make_route_config}
use easy_deploy.Xds.Cache.{
  Snapshot, Manager, update_node, build_snapshot, next_version, edge_prefix, node_for_endpoint,
  snapshot_of, set_snapshot,
}

pub snapshot_of-set_snapshot :
    (node other : Text) (s : Snapshot) (cache : List (Text × Snapshot))
    → snapshot_of other (set_snapshot node s cache)
      ≡ (if text_eq node other then some s else snapshot_of other cache)
unfolding snapshot_of set_snapshot
snapshot_of-set_snapshot node other s [] = refl
snapshot_of-set_snapshot node other s ((n, t) ∷ rest) = ground (
  arith,
  snapshot_of-set_snapshot node other s rest,
  text_eq_iff n node,
  text_eq_iff n other,
  text_eq_iff node other,
)

-- Environments have nodes of different names, if the local node's name is not one for a remote.
pub node_for_endpoint_injective :
    (node_id : Text) (a b : ℤ)
    → starts_with edge_prefix node_id ≡ false
    → Fits64 a
    → Fits64 b
    → node_for_endpoint node_id a ≡ node_for_endpoint node_id b
    → a ≡ b
unfolding node_for_endpoint
node_for_endpoint_injective node_id a b local ha hb h = elim (Bool-cases (int_eq a (pos 0))) [
  | inl za ↦ elim (Bool-cases (int_eq b (pos 0))) [
    | inl zb ↦ (int_eq_iff a (pos 0)).0 za ∙ sym ((int_eq_iff b (pos 0)).0 zb)
    | inr nb ↦ absurd (ne_of_prefix edge_prefix node_id (itoa b) local (rw za at (rw nb at h)))
  ]
  | inr na ↦ elim (Bool-cases (int_eq b (pos 0))) [
    | inl zb ↦
        absurd (ne_of_prefix edge_prefix node_id (itoa a) local (sym (rw na at (rw zb at h))))
    | inr nb ↦
        itoa_injective a b ha hb
          (append_cancel edge_prefix (itoa a) (itoa b) (rw na at (rw nb at h)))
  ]
]

-- What a node is served, but for the version.
unfoldable pub served : Text → Manager → Option (List Cluster × RouteConfig)
served node m = Option.map (λ (s : Snapshot). (s.clusters, s.routes)) (snapshot_of node m.cache)

abbrev pub resources : Text → List Upstream → List Cluster × RouteConfig
resources base_domain ups = (map make_cluster ups, make_route_config ups base_domain)

-- An update that is accepted changes what its own node is served, and no other's.
pub served-update_node :
    (accepts : Text → Snapshot → Bool) (node other : Text) (ups : List Upstream) (m : Manager)
    → (update_node accepts node ups m).0 ≡ ok tt
    → served other (update_node accepts node ups m).1
      ≡ (if text_eq node other then some (resources m.base_domain ups) else served other m)
unfolding served update_node
served-update_node accepts node other ups m h =
    let snap = build_snapshot (next_version m) ups in
    ground (arith, snapshot_of-set_snapshot node other snap m.cache)

-- An update keeps the settings of the manager, whether or not it is accepted.
pub update_node_settings :
    (accepts : Text → Snapshot → Bool) (node : Text) (ups : List Upstream) (m : Manager)
    → ((update_node accepts node ups m).1.node_id ≡ m.node_id)
      × ((update_node accepts node ups m).1.base_domain ≡ m.base_domain)
unfolding update_node
update_node_settings accepts node ups m = ground arith
