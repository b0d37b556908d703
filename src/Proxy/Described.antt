-- ===== src/Proxy/Described.antt =====
-- server/internal/proxy/registry.go: what `publish` is to serve, described from the tables without its
-- loops and its maps.
use easy_deploy.Prelude.{
  ℕ, Bool, true, not, ◌&&◌, ◌||◌, ◌≡◌, refl, ◌∙◌, arith, List, [], ◌∷◌, ◌++◌, map, Text, codes,
  text_eq, has, is_empty, if◌then◌else◌,
}
use easy_deploy.Prelude.Int.{ℤ, pos, int_eq, int_eq_iff}
use easy_deploy.Prelude.Rows.{select, exists}
use easy_deploy.Store.{Route, Endpoint}
use easy_deploy.Xds.{Upstream}
use easy_deploy.Proxy.Slug.{slug}
use easy_deploy.Proxy.{
  ServiceUpstream, to_uint32, slug_at, server_name, server_slugs, service_upstream,
  service_upstreams, claimed_subdomains, route_upstream, route_upstreams, all_upstreams, intended,
  on_env, with_key, endpoint_keys, upstream_keys, nodes,
}

-- A service with hosts is routed to.
abbrev has_hosts : ServiceUpstream → Bool
has_hosts s = not (is_empty s.hosts)

abbrev takes : Text → ServiceUpstream → Bool
takes sub s = has_hosts s && (not (is_empty s.subdomain) && text_eq s.subdomain sub)

-- No service with hosts has taken the subdomain of the route.
abbrev is_free : List ServiceUpstream → Route → Bool
is_free services r = not (exists (takes r.subdomain) services)

unfoldable pub route_described : Text → Route → Upstream
route_described base_domain r = record {
  key = codes "rt-" ++ r.subdomain;
  subdomain = r.subdomain;
  domains = (r.subdomain ++ codes "." ++ base_domain) ∷ [];
  hosts = r.target_host ∷ [];
  port = to_uint32 r.target_port;
  endpoint_id = r.endpoint_id;
}

module _ (to_lower : ℕ → ℕ) (base_domain : Text) (eps : List Endpoint) where
  -- The slug of the last environment in the list with that id.
  unfoldable pub last_slug : ℤ → List Endpoint → Text → Text
  last_slug id [] acc = acc
  last_slug id (e ∷ es) acc = last_slug id es (if int_eq e.id id then slug to_lower e.name else acc)

  -- How an environment is called in host names: by its slug, and `local` if it is not in the table.
  unfoldable pub place : ℤ → Text
  unfolding last_slug
  place id =
      let s = last_slug id eps (if int_eq (pos 0) id then codes "local" else []) in
      if is_empty s then codes "local" else s

  unfoldable pub service_described : ServiceUpstream → Upstream
  unfolding place
  service_described s = record {
    key = codes "svc-" ++ place s.endpoint_id ++ codes "-" ++ s.service;
    subdomain = s.subdomain;
    domains =
        (s.service ++ codes "." ++ (place s.endpoint_id ++ codes "." ++ base_domain))
        ∷ (if is_empty s.subdomain then [] else (s.subdomain ++ codes "." ++ base_domain) ∷ []);
    hosts = s.hosts;
    port = s.port;
    endpoint_id = s.endpoint_id;
  }

  -- Each service with hosts, under its own name and the subdomain that it asks for; then each route
  -- whose subdomain no such service has.
  unfoldable pub described : List ServiceUpstream → List Route → List Upstream
  unfolding service_described route_described
  described services routes =
      map service_described (select has_hosts services)
      ++ map (route_described base_domain) (select (is_free services) routes)

  slug_at-last_slug :
      (id : ℤ) (es : List Endpoint) (slugs : List (ℤ × Text))
      → slug_at id (server_slugs to_lower es slugs) ≡ last_slug id es (slug_at id slugs)
  unfolding slug_at server_slugs last_slug
  slug_at-last_slug id [] slugs = refl
  slug_at-last_slug id (e ∷ es) slugs =
      slug_at-last_slug id es ((e.id, slug to_lower e.name) ∷ slugs)

  abbrev slugs_here : List (ℤ × Text)
  slugs_here = server_slugs to_lower eps ((pos 0, codes "local") ∷ [])

  server_name-place : (id : ℤ) → server_name slugs_here id ≡ place id
  unfolding server_name place slug_at
  server_name-place id = rw (slug_at-last_slug id eps ((pos 0, codes "local") ∷ [])) refl

  service_upstreams-described :
      (services : List ServiceUpstream)
      → service_upstreams slugs_here base_domain services
        ≡ map service_described (select has_hosts services)
  unfolding service_upstreams service_upstream service_described select
  service_upstreams-described [] = refl
  service_upstreams-described (s ∷ rest) =
      ground (arith, service_upstreams-described rest, server_name-place s.endpoint_id)

has-claimed_subdomains :
    (sub : Text) (services : List ServiceUpstream)
    → has sub (claimed_subdomains services) ≡ exists (takes sub) services
unfolding has claimed_subdomains exists
has-claimed_subdomains sub [] = refl
has-claimed_subdomains sub (s ∷ rest) = ground (arith, has-claimed_subdomains sub rest)

route_upstreams-described :
    (base_domain : Text) (services : List ServiceUpstream) (routes : List Route)
    → route_upstreams (claimed_subdomains services) base_domain routes
      ≡ map (route_described base_domain) (select (is_free services) routes)
unfolding route_upstreams route_upstream route_described select
route_upstreams-described base_domain services [] = refl
route_upstreams-described base_domain services (r ∷ rest) = ground (
  arith,
  route_upstreams-described base_domain services rest,
  has-claimed_subdomains r.subdomain services,
)

-- The loops of `publish` compute what is described.
pub intended-described :
    (to_lower : ℕ → ℕ) (base_domain : Text) (eps : List Endpoint) (services : List ServiceUpstream)
    (routes : List Route)
    → intended to_lower base_domain eps services routes
      ≡ described to_lower base_domain eps services routes
unfolding intended all_upstreams described
intended-described to_lower base_domain eps services routes =
    rw
      (
        service_upstreams-described to_lower base_domain eps services,
        route_upstreams-described base_domain services routes,
      )
      refl

abbrev is_id : ℤ → ℤ → Bool
is_id id i = int_eq i id

-- The local host, a row of the table, or the environment of an upstream.
abbrev pub is_named : List Endpoint → List Upstream → ℤ → Bool
is_named eps ups id =
    int_eq (pos 0) id || (exists (λ (e : Endpoint). int_eq e.id id) eps || exists (on_env id) ups)

exists_same :
    (id k : ℤ) (ids : List ℤ)
    → exists (λ i. int_eq i k) ids ≡ true
    → int_eq k id ≡ true
    → exists (is_id id) ids ≡ true
unfolding exists
exists_same id k [] h e = cc
exists_same id k (i ∷ ids) h e =
    ground (arith, exists_same id k ids, int_eq_iff i k, int_eq_iff k id, int_eq_iff i id)

exists-with_key :
    (id k : ℤ) (ids : List ℤ)
    → exists (is_id id) (with_key k ids) ≡ (int_eq k id || exists (is_id id) ids)
unfolding exists
exists-with_key id k ids = ground (arith, exists_same id k ids)

exists-endpoint_keys :
    (id : ℤ) (eps : List Endpoint) (ids : List ℤ)
    → exists (is_id id) (endpoint_keys eps ids)
      ≡ (exists (is_id id) ids || exists (λ (e : Endpoint). int_eq e.id id) eps)
unfolding endpoint_keys exists
exists-endpoint_keys id [] ids = ground arith
exists-endpoint_keys id (e ∷ es) ids =
    exists-endpoint_keys id es (with_key e.id ids) ∙ ground (arith, exists-with_key id e.id ids)

exists-upstream_keys :
    (id : ℤ) (ups : List Upstream) (ids : List ℤ)
    → exists (is_id id) (upstream_keys ups ids) ≡ (exists (is_id id) ids || exists (on_env id) ups)
unfolding upstream_keys exists
exists-upstream_keys id [] ids = ground arith
exists-upstream_keys id (u ∷ us) ids =
    exists-upstream_keys id us (with_key u.endpoint_id ids)
    ∙ ground (arith, exists-with_key id u.endpoint_id ids)

-- The nodes of a publication are those of the environments that are named.
pub exists-nodes :
    (id : ℤ) (eps : List Endpoint) (ups : List Upstream)
    → exists (λ i. int_eq i id) (nodes eps ups) ≡ is_named eps ups id
unfolding nodes exists
exists-nodes id eps ups =
    exists-upstream_keys id ups (endpoint_keys eps (pos 0 ∷ []))
    ∙ ground (arith, exists-endpoint_keys id eps (pos 0 ∷ []))
