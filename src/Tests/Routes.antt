-- ===== src/Tests/Routes.antt =====
-- Two upstreams that ask for one domain, of server/internal/xds.
use easy_deploy.Prelude.{
  ◌≤◌, ◌≡◌, refl, some, List, [], ◌∷◌, codes, All, map, times, text_eq, has, arith,
}
use easy_deploy.Prelude.Int.{pos}
use easy_deploy.Xds.{Upstream, to_cluster, make_route_config, make_cluster, cluster_name}
use easy_deploy.Xds.Routing.{
  all_domains, cluster_names, IsServed, make_route_config-Nodup, make_route_config-IsServed,
}
use easy_deploy.Xds.Matching.{
  matching, host_of, requested, first_served, matching-make_route_config,
}

abbrev shop : Upstream
shop = record {
  key = codes "shop";
  subdomain = codes "shop";
  domains = codes "shop.test" ∷ [];
  hosts = codes "web-1" ∷ codes "web-2" ∷ [];
  port = 80;
  endpoint_id = pos 0;
}

abbrev rival : Upstream
rival = record {
  key = codes "rival";
  subdomain = codes "rival";
  domains = codes "shop.test" ∷ codes "rival.test" ∷ [];
  hosts = codes "web-3" ∷ [];
  port = 80;
  endpoint_id = pos 0;
}

abbrev both : List Upstream
both = shop ∷ rival ∷ []

make_route_config-Nodup_example :
    times (codes "shop.test") (all_domains (make_route_config both (codes "lvh.me")).virtual_hosts)
    ≤ 1
unfolding text_eq
make_route_config-Nodup_example =
    make_route_config-Nodup both (codes "lvh.me") (codes "shop.test") refl

matching-make_route_config_example :
    matching
      (host_of (codes "shop.test") (some (codes "8080")))
      (make_route_config both (codes "lvh.me")).virtual_hosts
    ≡ to_cluster (codes "cl_shop") ∷ []
unfolding first_served requested text_eq has cluster_name
matching-make_route_config_example =
    matching-make_route_config both (codes "lvh.me") (codes "shop.test") (some (codes "8080"))
      (ground arith, ground arith) (ground arith) (ground arith)

make_route_config-IsServed_example :
    All
      (IsServed (cluster_names (map make_cluster both)))
      (make_route_config both (codes "lvh.me")).virtual_hosts
make_route_config-IsServed_example = make_route_config-IsServed both (codes "lvh.me")
