-- ===== src/Tests/Edges.antt =====
-- The edge proxy of the remote environment of Tests/Publishing.
use easy_deploy.Prelude.{
  ◌≡◌, refl, true, false, Option, none, some, [], ◌∷◌, ◌++◌, codes, text_eq, has,
}
use easy_deploy.Prelude.Int.{ℤ, pos, int_eq}
use easy_deploy.Prelude.Rows.{exists, select, order_by}
use easy_deploy.Prelude.Prefix.{starts_with}
use easy_deploy.Prelude.Decimal.{parse_int, atoi}
use easy_deploy.Prelude.Trim.{trim_space}
use easy_deploy.Xds.Cache.{node_for_endpoint, update_node}
use easy_deploy.Xds.Cache.Updates.{served, resources}
use easy_deploy.Xds.Bootstrap.{bootstrap, edge_bootstrap_yaml}
use easy_deploy.Docker.Edge.{EdgeHost, EdgeStatus, removed, found}
use easy_deploy.Store.Endpoints.{list_endpoints}
use easy_deploy.Store.Routes.{list_routes}
use easy_deploy.Proxy.{
  publish, push_all, on_env, to_uint32, nodes, service_upstreams, route_upstreams,
  claimed_subdomains, service_upstream, route_upstream,
}
use easy_deploy.Proxy.Described.{described, service_described, route_described}
use easy_deploy.Api.Environments.{endpoint_id_param}
use easy_deploy.Api.Edge.{handle_deploy_edge}
use easy_deploy.Api.Edge.Serving.{Deployed, edges, deployed, handle_deploy_edge-IsServed}
use easy_deploy.Tests.Publishing.{
  lower, shop, with_routes, one_service, control, accept_all, as_listed, named_fit, served_here,
}

abbrev edge_host : EdgeHost
edge_host = record {
  has_network = true;
  network_error = none;
  has_image = true;
  new_port = λ proto port. some (port ++ codes "/tcp");
  creates = λ container. some (codes "e1");
  copies = true;
  starts = true;
  inspect = λ calls. found (some true) (codes "80" ∷ []);
  removes = removed;
}

abbrev any_host : ℤ → Option EdgeHost
any_host id = some edge_host

abbrev up : EdgeStatus
up = record {
  present = true;
  running = true;
  host_port = pos 80;
  image = codes "envoyproxy/envoy:v1.31-latest";
}

handle_deploy_edge-IsServed_example :
    (int_eq (endpoint_id_param (codes "1")) (pos 0) ≡ false)
    × Deployed any_host
        (publish lower accept_all as_listed (some one_service) (codes "lvh.me"))
        (codes "10.0.0.1:18000")
        (endpoint_id_param (codes "1"))
        none
        (edges any_host lower accept_all as_listed one_service
          (codes "lvh.me")
          (shop ∷ [])
          with_routes
          control
          refl
          []
          (codes "10.0.0.1:18000")
          (codes "1")
          none)
        (deployed any_host lower accept_all as_listed one_service
          (codes "lvh.me")
          (shop ∷ [])
          with_routes
          control
          refl
          []
          (codes "10.0.0.1:18000")
          (codes "1")
          none).1
    × (served
          (node_for_endpoint (codes "local-envoy") (endpoint_id_param (codes "1")))
          (deployed any_host lower accept_all as_listed one_service
            (codes "lvh.me")
            (shop ∷ [])
            with_routes
            control
            refl
            []
            (codes "10.0.0.1:18000")
            (codes "1")
            none).1.plane.xds
        ≡ some (
            resources
              (codes "lvh.me")
              (select (on_env (endpoint_id_param (codes "1"))) served_here)))
unfolding nodes service_upstreams route_upstreams has claimed_subdomains service_upstream
    route_upstream starts_with exists order_by described service_described route_described select
    to_uint32 text_eq handle_deploy_edge edge_bootstrap_yaml publish parse_int trim_space atoi
    node_for_endpoint bootstrap list_endpoints list_routes push_all update_node
handle_deploy_edge-IsServed_example =
    handle_deploy_edge-IsServed any_host lower accept_all as_listed one_service (codes "lvh.me")
      (shop ∷ []) with_routes control refl [] (codes "10.0.0.1:18000") (codes "1") none
      (λ id ids. refl) refl named_fit refl up refl
