-- ===== src/Tests/Publishing.antt =====
-- Publishing on the small instance: one service on the local host, a route, one remote environment.
use easy_deploy.Prelude.{
  ℕ, ◌≡◌, refl, Bool, true, some, List, [], ◌∷◌, Text, codes, arith, text_eq, ◌&&◌, leb,
  if◌then◌else◌, ◌+◌,
}
use easy_deploy.Prelude.Int.{ℤ, pos, Fits64}
use easy_deploy.Prelude.Rows.{exists, select, order_by, count}
use easy_deploy.Prelude.Prefix.{starts_with}
use easy_deploy.Prelude.Distinct.{Distinct}
use easy_deploy.Effect.{ok, pure}
use easy_deploy.Store.{Db, Endpoint, Route, Query}
use easy_deploy.Xds.Cache.{Manager, Snapshot, node_for_endpoint}
use easy_deploy.Xds.Cache.Updates.{served, resources}
use easy_deploy.Proxy.{to_uint32, ServiceUpstream, publish, on_env, all_upstreams}
use easy_deploy.Proxy.Described.{described, service_described, route_described, is_named}
use easy_deploy.Xds.{Upstream}
use easy_deploy.Proxy.Slug.{slug}
use easy_deploy.Proxy.Slug.Labels.{is_label, is_label-slug}
use easy_deploy.Proxy.Upstreams.{key_of, all_upstreams-Distinct}
use easy_deploy.Proxy.Publishing.{answering_plane, publish-served, publish-succeeds}
use easy_deploy.Tests.{sample}

-- lowers the letters of ASCII
abbrev pub lower : ℕ → ℕ
lower c = if leb b'A' c && leb c b'Z' then c + 32 else c

abbrev pub shop : ServiceUpstream
shop = record {
  service = codes "shop";
  subdomain = codes "buy";
  hosts = codes "shop-0" ∷ [];
  port = 80;
  endpoint_id = pos 0;
}

abbrev pub blog : Route
blog = record {
  id = pos 1;
  subdomain = codes "blog";
  container_id = codes "c7";
  target_host = codes "blog";
  target_port = pos 8080;
  endpoint_id = pos 0;
}

abbrev pub berlin : Endpoint
berlin = record {
  id = pos 1;
  name = codes "Berlin";
  host = codes "tcp://10.0.0.2";
  tls_ca_enc = [];
  tls_cert_enc = [];
  tls_key_enc = [];
}

abbrev pub with_routes : Db
with_routes = record sample { routes = blog ∷ []; endpoints = berlin ∷ [] }

abbrev pub one_service : Query (List ServiceUpstream)
one_service = pure (shop ∷ [])

abbrev pub control : Manager
control = record {
  node_id = codes "local-envoy";
  base_domain = codes "lvh.me";
  version = pos 5;
  cache = [];
}

abbrev pub accept_all : Text → Snapshot → Bool
accept_all node s = true

abbrev pub as_listed : List ℤ → List ℤ
as_listed ids = ids

is_label-slug_example : is_label (slug lower (codes "My  Server #2")) ≡ true
is_label-slug_example = is_label-slug lower (codes "My  Server #2")

all_upstreams-Distinct_example : Distinct key_of (
    select
      (on_env (pos 0))
      (all_upstreams ((pos 0, codes "local") ∷ []) (codes "lvh.me") (shop ∷ []) (blog ∷ [])))
unfolding count
all_upstreams-Distinct_example =
    all_upstreams-Distinct ((pos 0, codes "local") ∷ []) (codes "lvh.me") (pos 0) (shop ∷ [])
      (blog ∷ []) (refl, tt) (refl, tt)

publish-succeeds_here :
    (publish lower accept_all as_listed
      (some one_service)
      (codes "lvh.me")
      (answering_plane with_routes control)).0
    ≡ ok tt
publish-succeeds_here =
    publish-succeeds lower accept_all as_listed one_service (codes "lvh.me") (shop ∷ []) with_routes
      control refl (λ node s. refl)

-- The route and the service, as they are described.
abbrev pub served_here : List Upstream
served_here =
    record {
      key = codes "svc-local-shop";
      subdomain = codes "buy";
      domains = codes "shop.local.lvh.me" ∷ codes "buy.lvh.me" ∷ [];
      hosts = codes "shop-0" ∷ [];
      port = 80;
      endpoint_id = pos 0;
    }
    ∷ record {
      key = codes "rt-blog";
      subdomain = codes "blog";
      domains = codes "blog.lvh.me" ∷ [];
      hosts = codes "blog" ∷ [];
      port = 8080;
      endpoint_id = pos 0;
    }
    ∷ []

pub named_fit : (i : ℤ) → is_named (berlin ∷ []) served_here i ≡ true → Fits64 i
unfolding exists
named_fit i h = ground arith

publish-served_example :
    served
      (node_for_endpoint (codes "local-envoy") (pos 0))
      (publish lower accept_all as_listed
        (some one_service)
        (codes "lvh.me")
        (answering_plane with_routes control)).1.xds
    ≡ some (resources (codes "lvh.me") served_here)
unfolding starts_with exists order_by described service_described route_described text_eq select
    to_uint32
publish-served_example =
    publish-served lower accept_all as_listed one_service (codes "lvh.me") (shop ∷ []) with_routes
      control refl (λ id ids. refl) refl named_fit publish-succeeds_here (pos 0) refl
