-- ===== src/Proxy/Upstreams.antt =====
-- The upstreams of one environment have keys of their own, so Envoy gets no two clusters of one name.
use easy_deploy.Prelude.{◌≡◌, refl, arith, List, [], ◌∷◌, ◌++◌, Text, codes, text_eq, text_eq_iff}
use easy_deploy.Prelude.Int.{ℤ, int_eq_iff}
use easy_deploy.Prelude.Rows.{select, count, select-append}
use easy_deploy.Prelude.Distinct.{Distinct, Distinct-append, Apart, holds}
use easy_deploy.Store.{Route}
use easy_deploy.Xds.{Upstream}
use easy_deploy.Prelude.Prefix.{append_cancel}
use easy_deploy.Proxy.{
  ServiceUpstream, server_name, service_upstream, service_upstreams, route_upstream,
  route_upstreams, all_upstreams, claimed_subdomains, on_env,
}

abbrev pub key_of : Upstream → Text
key_of u = u.key

abbrev pub name_of : ServiceUpstream → Text
name_of s = s.service

abbrev pub subdomain_of : Route → Text
subdomain_of r = r.subdomain

module _ (slugs : List (ℤ × Text)) (base_domain : Text) (id : ℤ) where
  abbrev service_key : Text → Text
  service_key name = codes "svc-" ++ server_name slugs id ++ codes "-" ++ name

  abbrev services_here : List ServiceUpstream → List Upstream
  services_here us = select (on_env id) (service_upstreams slugs base_domain us)

  abbrev routes_here : List Text → List Route → List Upstream
  routes_here claimed rts = select (on_env id) (route_upstreams claimed base_domain rts)

  count-services_here :
      (name : Text) (us : List ServiceUpstream)
      → count (holds name_of name) us ≡ 0
      → count (holds key_of (service_key name)) (services_here us) ≡ 0
  unfolding service_upstreams service_upstream select count
  count-services_here name [] h = refl
  count-services_here name (u ∷ us) h = ground (
    arith,
    count-services_here name us,
    text_eq_iff (service_key u.service) (service_key name),
    append_cancel (codes "svc-" ++ server_name slugs id ++ codes "-") u.service name,
    text_eq_iff u.service name,
    int_eq_iff u.endpoint_id id,
  )

  Distinct-services_here :
      (us : List ServiceUpstream) → Distinct name_of us → Distinct key_of (services_here us)
  unfolding service_upstreams service_upstream select
  Distinct-services_here [] h = tt
  Distinct-services_here (u ∷ us) h = ground (
    arith,
    Distinct-services_here us,
    count-services_here u.service us,
    int_eq_iff u.endpoint_id id,
  )

  count-routes_here :
      (claimed : List Text) (sub : Text) (rts : List Route)
      → count (holds subdomain_of sub) rts ≡ 0
      → count (holds key_of (codes "rt-" ++ sub)) (routes_here claimed rts) ≡ 0
  unfolding route_upstreams route_upstream select count
  count-routes_here claimed sub [] h = refl
  count-routes_here claimed sub (r ∷ rs) h = ground (
    arith,
    count-routes_here claimed sub rs,
    text_eq_iff (codes "rt-" ++ r.subdomain) (codes "rt-" ++ sub),
    append_cancel (codes "rt-") r.subdomain sub,
    text_eq_iff r.subdomain sub,
  )

  Distinct-routes_here :
      (claimed : List Text) (rts : List Route)
      → Distinct subdomain_of rts
      → Distinct key_of (routes_here claimed rts)
  unfolding route_upstreams route_upstream select
  Distinct-routes_here claimed [] h = tt
  Distinct-routes_here claimed (r ∷ rs) h =
      ground (arith, Distinct-routes_here claimed rs, count-routes_here claimed r.subdomain rs)

  no_service_key :
      (claimed : List Text) (s : Text) (rts : List Route)
      → count (holds key_of (codes "svc-" ++ s)) (routes_here claimed rts) ≡ 0
  unfolding route_upstreams route_upstream select count text_eq
  no_service_key claimed s [] = refl
  no_service_key claimed s (r ∷ rs) = ground (arith, no_service_key claimed s rs)

  Apart-services_here :
      (claimed : List Text) (us : List ServiceUpstream) (rts : List Route)
      → Apart key_of (services_here us) (routes_here claimed rts)
  unfolding service_upstreams service_upstream select
  Apart-services_here claimed [] rts = tt
  Apart-services_here claimed (u ∷ us) rts = ground (
    arith,
    Apart-services_here claimed us rts,
    no_service_key claimed (server_name slugs u.endpoint_id ++ codes "-" ++ u.service) rts,
  )

  -- If services have names of their own and routes subdomains of their own, the upstreams of an
  -- environment have keys of their own.
  pub all_upstreams-Distinct :
      (services : List ServiceUpstream) (routes : List Route)
      → Distinct name_of services
      → Distinct subdomain_of routes
      → Distinct key_of (select (on_env id) (all_upstreams slugs base_domain services routes))
  unfolding all_upstreams
  all_upstreams-Distinct services routes hs hr =
      let claimed = claimed_subdomains services in
      rw
        (select-append (on_env id) (service_upstreams slugs base_domain services)
          (route_upstreams claimed base_domain routes))
        (Distinct-append key_of (services_here services) (routes_here claimed routes)
          (Distinct-services_here services hs) (Distinct-routes_here claimed routes hr)
          (Apart-services_here claimed services routes))
