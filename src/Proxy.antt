-- ===== src/Proxy.antt =====
-- server/internal/proxy/registry.go: which hosts are routed to which containers. A change of the
-- routes recomputes the upstreams of every environment and pushes a snapshot to each Envoy node.
pub mod Slug
pub mod Described
pub mod Upstreams
pub mod Publishing
use easy_deploy.Prelude.{
  ℕ, Bool, true, false, not, ◌&&◌, ◌||◌, Option, none, some, List, [], ◌∷◌, ◌++◌, Text, codes, has,
  text_eq, is_empty, ◌^◌, ◌%◌, ◌+◌, ◌-◌, if◌then◌else◌,
}
use easy_deploy.Prelude.Int.{ℤ, pos, int_eq, leb_ℤ, pos_part, neg_part}
use easy_deploy.Prelude.Rows.{select, exists}
use easy_deploy.Effect.{Result, ok, err, Exec, pure, raise, ◌>>=◌, ◌>>◌}
use easy_deploy.Store.{Db, StoreError, Query, Route, Endpoint}
use easy_deploy.Store.Routes.{list_routes, upsert_route, delete_route}
use easy_deploy.Store.Endpoints.{list_endpoints, get_endpoint}
use easy_deploy.Xds.{Upstream}
use easy_deploy.Xds.Cache.{Manager, Snapshot, update_node, node_for_endpoint}
use easy_deploy.Proxy.Slug.{slug}

pub record ServiceUpstream : Type 0 where
  pub service : Text
  pub subdomain : Text
  pub hosts : List Text
  pub port : ℕ
  pub endpoint_id : ℤ

-- `uint32(n)` of an `int`
unfoldable pub to_uint32 : ℤ → ℕ
to_uint32 n = (pos_part n + (2 ^ 32 - neg_part n % 2 ^ 32)) % 2 ^ 32

pub data RouteError : Type 0 where
  from_store : StoreError → RouteError
  from_xds : Text → RouteError
  invalid : Text → RouteError

-- What the registry changes: the routes in the database, and what the nodes are served.
pub record Plane : Type 0 where
  pub db : Db
  pub xds : Manager

abbrev pub Publish : Type 0 → Type 0
Publish A = Exec Plane RouteError A

abbrev keep_db : {A : Type 0} → Plane → Result StoreError A × Db → Result RouteError A × Plane
keep_db w (ok a, db) = (ok a, record w { db = db })
keep_db w (err e, db) = (err (from_store e), record w { db = db })

abbrev pub on_db : {A : Type 0} → Query A → Publish A
on_db q w = keep_db w (q w.db)

abbrev keep_xds : {A : Type 0} → Plane → Result Text A × Manager → Result RouteError A × Plane
keep_xds w (ok a, m) = (ok a, record w { xds = m })
keep_xds w (err e, m) = (err (from_xds e), record w { xds = m })

abbrev pub on_xds : {A : Type 0} → Exec Manager Text A → Publish A
on_xds f w = keep_xds w (f w.xds)

-- `New`: the base domain has a default.
unfoldable pub settled_domain : Text → Text
settled_domain base_domain = if is_empty base_domain then codes "localhost" else base_domain

unfoldable pub dotted : Text → Text → Text
dotted label base_domain = label ++ codes "." ++ base_domain

unfoldable pub auto_host : Text → Text → Text → Text
unfolding dotted
auto_host service server base_domain = dotted service (dotted server base_domain)

-- the map `serverSlug`; the latest entry stands first
unfoldable pub slug_at : ℤ → List (ℤ × Text) → Text
slug_at id [] = []
slug_at id ((i, s) ∷ rest) = if int_eq i id then s else slug_at id rest

unfoldable pub server_name : List (ℤ × Text) → ℤ → Text
unfolding slug_at
server_name slugs id = let s = slug_at id slugs in if is_empty s then codes "local" else s

unfoldable pub service_upstream : List (ℤ × Text) → Text → ServiceUpstream → Upstream
unfolding auto_host dotted
service_upstream slugs base_domain u =
    let server = server_name slugs u.endpoint_id in
    record {
      key = codes "svc-" ++ server ++ codes "-" ++ u.service;
      subdomain = u.subdomain;
      domains =
          auto_host u.service server base_domain
          ∷ (if is_empty u.subdomain then [] else dotted u.subdomain base_domain ∷ []);
      hosts = u.hosts;
      port = u.port;
      endpoint_id = u.endpoint_id;
    }

-- The first loop of `publish`: a service without hosts is left out.
unfoldable pub service_upstreams : List (ℤ × Text) → Text → List ServiceUpstream → List Upstream
service_upstreams slugs base_domain [] = []
service_upstreams slugs base_domain (u ∷ us) =
    let rest = service_upstreams slugs base_domain us in
    if is_empty u.hosts then rest else service_upstream slugs base_domain u ∷ rest

-- `svcSubs`
unfoldable pub claimed_subdomains : List ServiceUpstream → List Text
claimed_subdomains [] = []
claimed_subdomains (u ∷ us) =
    let rest = claimed_subdomains us in
    if is_empty u.hosts || is_empty u.subdomain then rest else u.subdomain ∷ rest

unfoldable pub route_upstream : Text → Route → Upstream
unfolding dotted
route_upstream base_domain rt = record {
  key = codes "rt-" ++ rt.subdomain;
  subdomain = rt.subdomain;
  domains = dotted rt.subdomain base_domain ∷ [];
  hosts = rt.target_host ∷ [];
  port = to_uint32 rt.target_port;
  endpoint_id = rt.endpoint_id;
}

-- The second loop: a service owns the subdomains that it claims.
unfoldable pub route_upstreams : List Text → Text → List Route → List Upstream
route_upstreams claimed base_domain [] = []
route_upstreams claimed base_domain (rt ∷ rts) =
    let rest = route_upstreams claimed base_domain rts in
    if has rt.subdomain claimed then rest else route_upstream base_domain rt ∷ rest

unfoldable pub all_upstreams :
    List (ℤ × Text) → Text → List ServiceUpstream → List Route → List Upstream
all_upstreams slugs base_domain services routes =
    service_upstreams slugs base_domain services
    ++ route_upstreams (claimed_subdomains services) base_domain routes

-- `byEnv[id]`
abbrev pub on_env : ℤ → Upstream → Bool
on_env id u = int_eq u.endpoint_id id

-- The keys of a Go `map[int64]bool` that had `id` set.
abbrev pub with_key : ℤ → List ℤ → List ℤ
with_key id ids = if exists (λ i. int_eq i id) ids then ids else id ∷ ids

unfoldable pub endpoint_keys : List Endpoint → List ℤ → List ℤ
endpoint_keys [] ids = ids
endpoint_keys (e ∷ es) ids = endpoint_keys es (with_key e.id ids)

unfoldable pub upstream_keys : List Upstream → List ℤ → List ℤ
upstream_keys [] ids = ids
upstream_keys (u ∷ us) ids = upstream_keys us (with_key u.endpoint_id ids)

unfoldable pub nodes : List Endpoint → List Upstream → List ℤ
unfolding endpoint_keys upstream_keys
nodes eps ups = upstream_keys ups (endpoint_keys eps (pos 0 ∷ []))

-- One update for each node; the first that fails ends it.
unfoldable pub push_all : (Text → Snapshot → Bool) → List Upstream → List ℤ → Exec Manager Text Unit
push_all accepts ups [] m = (ok tt, m)
push_all accepts ups (id ∷ ids) m =
    (update_node accepts (node_for_endpoint m.node_id id) (select (on_env id) ups)
        >> push_all accepts ups ids)
      m

abbrev named_server : (ℕ → ℕ) → Result StoreError Endpoint × Db → Text × Db
named_server to_lower (ok e, db) = (slug to_lower e.name, db)
named_server to_lower (err e, db) = (codes "local", db)

-- `to_lower` is `unicode.ToLower`.
module _ (to_lower : ℕ → ℕ) where
  unfoldable pub server_slugs : List Endpoint → List (ℤ × Text) → List (ℤ × Text)
  server_slugs [] slugs = slugs
  server_slugs (e ∷ es) slugs = server_slugs es ((e.id, slug to_lower e.name) ∷ slugs)

  -- `ServiceDomains`: a host that cannot be read counts as the local one.
  unfoldable pub service_domains : Text → Text → Text → ℤ → Db → List Text × Db
  unfolding auto_host dotted
  service_domains base_domain service subdomain endpoint_id db =
      let (server, after) =
        if int_eq endpoint_id (pos 0)
        then (codes "local", db)
        else named_server to_lower (get_endpoint endpoint_id db) in
      (
        auto_host service server base_domain
            ∷ (if is_empty subdomain then [] else dotted subdomain base_domain ∷ []),
        after,
      )

  -- The upstreams that the tables and the services stand for.
  unfoldable pub intended : Text → List Endpoint → List ServiceUpstream → List Route → List Upstream
  unfolding server_slugs all_upstreams
  intended base_domain eps services routes =
      all_upstreams (server_slugs eps ((pos 0, codes "local") ∷ [])) base_domain services routes

-- `to_lower` as above; `accepts` is go-control-plane's answer; `order` is the order in
-- which Go ranges over a map with the keys; `source` is the service manager, once it is attached.
module _ (to_lower : ℕ → ℕ) (accepts : Text → Snapshot → Bool) (order : List ℤ → List ℤ)
    (source : Option (Query (List ServiceUpstream))) (base_domain : Text) where
  abbrev pub sourced : Option (Query (List ServiceUpstream)) → Publish (List ServiceUpstream)
  sourced none = pure []
  sourced (some q) = on_db q

  -- the part of `publish` that needs no more reads
  unfoldable pub push : List Endpoint → List ServiceUpstream → List Route → Publish Unit
  unfolding intended
  push eps services routes =
      let ups = intended to_lower base_domain eps services routes in
      on_xds (push_all accepts ups (order (nodes eps ups)))

  unfoldable pub publish : Publish Unit
  unfolding push
  publish = do
    eps ← on_db list_endpoints
    services ← sourced source
    routes ← on_db list_routes
    push eps services routes

  unfoldable pub upsert : Route → Publish Route
  unfolding publish
  upsert route =
      if is_empty route.subdomain
      then raise (invalid (codes "subdomain is required"))
      else if leb_ℤ route.target_port (pos 0)
      then raise (invalid (codes "target port must be positive"))
      else do saved ← on_db (upsert_route route); publish; pure saved

  unfoldable pub remove : Text → Publish Unit
  unfolding publish
  remove subdomain = do on_db (delete_route subdomain); publish
