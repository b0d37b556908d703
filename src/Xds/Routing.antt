-- ===== src/Xds/Routing.antt =====
-- The domains and the clusters of the configuration that `makeRouteConfig` builds.
use mathlib.Core.List.{append_assoc}
use easy_deploy.Prelude.{
  ◌≤◌, ◌≡◌, refl, true, false, List, [], ◌∷◌, ◌++◌, arith, Text, codes, text_eq, text_eq_refl, has,
  times, times_of_not_has, times-append, map,
}
use easy_deploy.Prelude.{All, All-append}
use easy_deploy.Xds.{
  direct_response, Cluster, make_cluster, Upstream, VirtualHost, to_cluster, claim, virtual_hosts,
  match_domains, cluster_name, default_host, make_route_config, make_cluster, Cluster,
}
use easy_deploy.Xds.Claims.{has-claim, claimed-claim, times-claim-le}

-- The domains of all virtual hosts, in order.
unfoldable pub all_domains : List VirtualHost → List Text
all_domains [] = []
all_domains (v ∷ vs) = v.domains ++ all_domains vs

has-all_domains-claimed :
    (d base_domain : Text) (claimed : List Text) (us : List Upstream)
    → has d claimed ≡ true
    → times d (all_domains (virtual_hosts claimed base_domain us)) ≡ 0
unfolding all_domains virtual_hosts times
has-all_domains-claimed d base_domain claimed [] h = refl
has-all_domains-claimed d base_domain claimed (u ∷ us) h =
    let ds = match_domains u base_domain in
    let vs = virtual_hosts (claim claimed ds).1 base_domain us in
    ground (
      arith,
      has-all_domains-claimed d base_domain (claim claimed ds).1 us,
      claimed-claim d claimed ds,
      has-claim d claimed ds,
      times_of_not_has d (claim claimed ds).0,
      times-append d (claim claimed ds).0 (all_domains vs),
    )

times-all_domains-le :
    (d base_domain : Text) (claimed : List Text) (us : List Upstream)
    → times d (all_domains (virtual_hosts claimed base_domain us)) ≤ 1
unfolding all_domains virtual_hosts times
times-all_domains-le d base_domain claimed [] = omega arith
times-all_domains-le d base_domain claimed (u ∷ us) =
    let ds = match_domains u base_domain in
    let vs = virtual_hosts (claim claimed ds).1 base_domain us in
    ground (
      arith,
      times-all_domains-le d base_domain (claim claimed ds).1 us,
      has-all_domains-claimed d base_domain (claim claimed ds).1 us,
      claimed-claim d claimed ds,
      has-claim d claimed ds,
      times-claim-le d claimed ds,
      times_of_not_has d (claim claimed ds).0,
      times-append d (claim claimed ds).0 (all_domains vs),
    )

all_domains-append :
    (vs ws : List VirtualHost) → all_domains (vs ++ ws) ≡ all_domains vs ++ all_domains ws
unfolding all_domains
all_domains-append [] ws = refl
all_domains-append (v ∷ vs) ws = simp (all_domains-append vs ws, append_assoc)

-- Envoy refuses a configuration in which two virtual hosts claim one domain: no domain but the
-- catch-all stands twice in the configuration, whatever the upstreams ask for.
pub make_route_config-Nodup :
    (ups : List Upstream) (base_domain d : Text)
    → text_eq (codes "*") d ≡ false
    → times d (all_domains (make_route_config ups base_domain).virtual_hosts) ≤ 1
unfolding make_route_config
make_route_config-Nodup ups base_domain d h =
    rw (all_domains-append (virtual_hosts [] base_domain ups) (default_host ∷ [])) (
      rw
        (times-append d (all_domains (virtual_hosts [] base_domain ups))
          (all_domains (default_host ∷ [])))
        (unfold all_domains times in ground (arith, times-all_domains-le d base_domain [] ups, h)))

-- The names of the clusters of a snapshot.
unfoldable pub cluster_names : List Cluster → List Text
cluster_names [] = []
cluster_names (c ∷ cs) = c.name ∷ cluster_names cs

abbrev pub IsServed : List Text → VirtualHost → Type 0
IsServed names v = elim v.action [
  | to_cluster c ↦ has c names ≡ true
  | direct_response status ↦ status ≡ 404
]

IsServed-cons :
    (name : Text) (names : List Text) (vs : List VirtualHost)
    → All (IsServed names) vs
    → All (IsServed (name ∷ names)) vs
unfolding has
IsServed-cons name names [] h = tt
IsServed-cons name names (v ∷ vs) h = (ground arith, IsServed-cons name names vs h.1)

virtual_hosts-IsServed :
    (base_domain : Text) (claimed : List Text) (us : List Upstream)
    → All (IsServed (cluster_names (map make_cluster us))) (virtual_hosts claimed base_domain us)
unfolding virtual_hosts cluster_names make_cluster has
virtual_hosts-IsServed base_domain claimed [] = tt
virtual_hosts-IsServed base_domain claimed (u ∷ us) =
    let taken = claim claimed (match_domains u base_domain) in
    let rest =
      IsServed-cons (cluster_name u) (cluster_names (map make_cluster us)) _
        (virtual_hosts-IsServed base_domain taken.1 us) in
    ground (arith, rest, text_eq_refl (cluster_name u))

-- A snapshot is consistent: each virtual host answers 404 itself or names a cluster that the
-- snapshot of the same upstreams holds.
pub make_route_config-IsServed :
    (ups : List Upstream) (base_domain : Text)
    → All
        (IsServed (cluster_names (map make_cluster ups)))
        (make_route_config ups base_domain).virtual_hosts
unfolding make_route_config
make_route_config-IsServed ups base_domain =
    All-append (IsServed (cluster_names (map make_cluster ups))) (virtual_hosts [] base_domain ups)
      (default_host ∷ []) (virtual_hosts-IsServed base_domain [] ups) (refl, tt)
