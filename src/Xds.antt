-- ===== src/Xds.antt =====
-- server/internal/xds/xds.go: the translation of upstreams to Envoy resources.
pub mod Claims
pub mod Routing
pub mod Matching
pub mod Cache
pub mod Bootstrap
use easy_deploy.Prelude.{
  ℕ, suc, ◌+◌, Bool, true, false, Option, none, some, List, [], ◌∷◌, ◌++◌, map, Text, codes,
  text_eq, has, is_empty, if◌then◌else◌,
}
use easy_deploy.Prelude.Int.{ℤ, int_eq, pos}

pub record Upstream : Type 0 where
  pub key : Text
  pub subdomain : Text
  pub domains : List Text
  pub hosts : List Text
  pub port : ℕ
  pub endpoint_id : ℤ

unfoldable pub upstream_key : Upstream → Text
upstream_key u = if is_empty u.key then u.subdomain else u.key

unfoldable pub cluster_name : Upstream → Text
unfolding upstream_key
cluster_name u = codes "cl_" ++ upstream_key u

-- each Host value with its ":*" variant
unfoldable pub with_ports : List Text → List Text
with_ports [] = []
with_ports (d ∷ ds) = d ∷ (d ++ codes ":*") ∷ with_ports ds

unfoldable pub match_domains : Upstream → Text → List Text
unfolding with_ports
match_domains u base_domain = with_ports (
    if is_empty u.domains
    then (if is_empty u.subdomain
        then u.domains
        else (u.subdomain ++ codes "." ++ base_domain) ∷ [])
    else u.domains)

pub data Discovery : Type 0 where
  strict_dns : Discovery

pub data LbPolicy : Type 0 where
  round_robin : LbPolicy

pub record Cluster : Type 0 where
  pub name : Text
  pub connect_timeout_sec : ℕ
  pub discovery : Discovery
  pub lb_policy : LbPolicy
  pub load_assignment : Text
  pub endpoints : List (Text × ℕ)

unfoldable pub make_cluster : Upstream → Cluster
unfolding cluster_name
make_cluster u = record {
  name = cluster_name u;
  connect_timeout_sec = 5;
  discovery = strict_dns;
  lb_policy = round_robin;
  load_assignment = cluster_name u;
  endpoints = map (λ host. (host, u.port)) u.hosts;
}

pub data Action : Type 0 where
  to_cluster : Text → Action
  direct_response : ℕ → Action

pub record VirtualHost : Type 0 where
  pub name : Text
  pub domains : List Text
  pub prefix : Text
  pub action : Action

-- The inner loop of `makeRouteConfig`: the domains that were free, and the `claimed` map after it.
unfoldable pub claim : List Text → List Text → List Text × List Text
claim claimed [] = ([], claimed)
claim claimed (d ∷ ds) =
    let seen = has d claimed in
    let rest = claim (if seen then claimed else d ∷ claimed) ds in
    if seen then rest else (d ∷ rest.0, rest.1)

abbrev pub host_for : Upstream → List Text → VirtualHost
host_for u domains = record {
  name = codes "vh_" ++ upstream_key u;
  domains = domains;
  prefix = codes "/";
  action = to_cluster (cluster_name u);
}

-- The outer loop: an upstream with no free domain gets no virtual host.
unfoldable pub virtual_hosts : List Text → Text → List Upstream → List VirtualHost
virtual_hosts claimed base_domain [] = []
virtual_hosts claimed base_domain (u ∷ us) =
    let taken = claim claimed (match_domains u base_domain) in
    let rest = virtual_hosts taken.1 base_domain us in
    if is_empty taken.0 then rest else host_for u taken.0 ∷ rest

abbrev pub default_host : VirtualHost
default_host = record {
  name = codes "vh_default";
  domains = codes "*" ∷ [];
  prefix = codes "/";
  action = direct_response 404;
}

pub record RouteConfig : Type 0 where
  pub name : Text
  pub virtual_hosts : List VirtualHost

unfoldable pub make_route_config : List Upstream → Text → RouteConfig
make_route_config ups base_domain = record {
  name = codes "easydeploy-routes";
  virtual_hosts = virtual_hosts [] base_domain ups ++ default_host ∷ [];
}

pub record Listener : Type 0 where
  pub name : Text
  pub address : Text × ℕ
  pub route_config_name : Text
  pub stat_prefix : Text
  pub xds_cluster : Text

unfoldable pub make_http_listener : Listener
make_http_listener = record {
  name = codes "easydeploy-listener";
  address = (codes "0.0.0.0", 10000);
  route_config_name = codes "easydeploy-routes";
  stat_prefix = codes "easydeploy_http";
  xds_cluster = codes "easydeploy_xds";
}
