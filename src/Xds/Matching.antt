-- ===== src/Xds/Matching.antt =====
-- Which virtual hosts of the configuration that `makeRouteConfig` builds match a Host value, with or
-- without a port.
use easy_deploy.Prelude.{
  ◌==◌, ◌≡◌, refl, ◌∙◌, Bool, true, false, not, ◌&&◌, ◌||◌, Option, none, some, List, [], ◌∷◌, ◌++◌,
  arith, Text, codes, text_eq, has, is_empty, if◌then◌else◌, All, text_eq_refl,
}
use easy_deploy.Prelude.Split.{Lacks}
use easy_deploy.Xds.{
  Upstream, VirtualHost, Action, to_cluster, claim, virtual_hosts, match_domains, with_ports,
  cluster_name, default_host, make_route_config,
}
use easy_deploy.Xds.Claims.{has-claim, claimed-claim}

-- A domain that ends in a star matches every Host value that goes on where the star stands.
unfoldable pub goes_on : Text → Text → Bool
goes_on [] host = false
goes_on (c ∷ []) host = c == b'*' && not (is_empty host)
goes_on (c ∷ e ∷ p) [] = false
goes_on (c ∷ e ∷ p) (x ∷ host) = c == x && goes_on (e ∷ p) host

-- Envoy's test of a domain, for domains with no star in front.
unfoldable pub matches : Text → Text → Bool
unfolding goes_on
matches host domain = text_eq domain host || goes_on domain host

unfoldable pub any_matches : Text → List Text → Bool
any_matches host [] = false
any_matches host (d ∷ ds) = if matches host d then true else any_matches host ds

-- The actions of the virtual hosts, other than the catch-all, that match.
unfoldable pub matching : Text → List VirtualHost → List Action
matching host [] = []
matching host (v ∷ vs) =
    if any_matches host v.domains && not (has (codes "*") v.domains)
    then v.action ∷ matching host vs
    else matching host vs

-- The domains that an upstream asks for: its own, or else its subdomain of the base domain.
unfoldable pub requested : Upstream → Text → List Text
requested u base_domain =
    if is_empty u.domains
    then (if is_empty u.subdomain then [] else (u.subdomain ++ codes "." ++ base_domain) ∷ [])
    else u.domains

-- What serves the domain: the cluster of the first upstream that asks for it.
unfoldable pub first_served : Text → Text → List Upstream → List Action
first_served d base_domain [] = []
first_served d base_domain (u ∷ us) =
    if has d (requested u base_domain)
    then to_cluster (cluster_name u) ∷ []
    else first_served d base_domain us

-- A name without colon and star.
abbrev pub IsPlain : Text → Type 0
IsPlain d = Lacks b':' d × Lacks b'*' d

abbrev pub ArePlain : Text → List Upstream → Type 0
ArePlain base_domain = All (λ u. All IsPlain (requested u base_domain))

-- The Host value `d`, with an explicit port if there is one.
abbrev pub host_of : Text → Option Text → Text
host_of d none = d
host_of d (some port) = d ++ (b':' ∷ port)

abbrev pub IsPort : Option Text → Type 0
IsPort none = Unit
IsPort (some port) = Lacks b'*' port × (is_empty port ≡ false)

-- The domain of the configuration that matches it.
abbrev key_of : Text → Option Text → Text
key_of d none = d
key_of d (some port) = d ++ codes ":*"

-- The text `x:*` goes on as `d:port` only for one and the same name.
goes_on-port :
    (x d port : Text)
    → Lacks b':' x
    → Lacks b':' d
    → is_empty port ≡ false
    → goes_on (x ++ codes ":*") (d ++ (b':' ∷ port)) ≡ text_eq x d
unfolding goes_on text_eq
goes_on-port [] [] port hx hd h = rw h refl
goes_on-port [] (e ∷ d) port hx hd h = ground arith
goes_on-port (c ∷ []) [] port hx hd h = ground arith
goes_on-port (c ∷ []) (e ∷ d) port hx hd h = ground (arith, goes_on-port [] d port hx.1 hd.1 h)
goes_on-port (c ∷ a ∷ x) [] port hx hd h = ground arith
goes_on-port (c ∷ a ∷ x) (e ∷ d) port hx hd h =
    ground (arith, goes_on-port (a ∷ x) d port hx.1 hd.1 h)

goes_on-no_star : (x host : Text) → Lacks b'*' x → goes_on x host ≡ false
unfolding goes_on
goes_on-no_star [] host h = refl
goes_on-no_star (c ∷ []) host h = ground arith
goes_on-no_star (c ∷ e ∷ x) [] h = refl
goes_on-no_star (c ∷ e ∷ x) (y ∷ host) h = ground (arith, goes_on-no_star (e ∷ x) host h.1)

goes_on-no_port : (x d : Text) → Lacks b':' d → goes_on (x ++ codes ":*") d ≡ false
unfolding goes_on
goes_on-no_port [] [] h = refl
goes_on-no_port [] (e ∷ d) h = ground arith
goes_on-no_port (c ∷ []) [] h = refl
goes_on-no_port (c ∷ []) (e ∷ d) h = ground (arith, goes_on-no_port [] d h.1)
goes_on-no_port (c ∷ a ∷ x) [] h = refl
goes_on-no_port (c ∷ a ∷ x) (e ∷ d) h = ground (arith, goes_on-no_port (a ∷ x) d h.1)

text_eq-port : (x d port : Text) → Lacks b':' x → text_eq x (d ++ (b':' ∷ port)) ≡ false
unfolding text_eq
text_eq-port [] [] port h = refl
text_eq-port [] (e ∷ d) port h = refl
text_eq-port (c ∷ x) [] port h = ground arith
text_eq-port (c ∷ x) (e ∷ d) port h = ground (arith, text_eq-port x d port h.1)

text_eq-ports :
    (x d s t : Text)
    → Lacks b':' x
    → Lacks b':' d
    → text_eq (x ++ (b':' ∷ s)) (d ++ (b':' ∷ t)) ≡ (text_eq x d && text_eq s t)
unfolding text_eq
text_eq-ports [] [] s t hx hd = ground arith
text_eq-ports [] (e ∷ d) s t hx hd = ground arith
text_eq-ports (c ∷ x) [] s t hx hd = ground arith
text_eq-ports (c ∷ x) (e ∷ d) s t hx hd = ground (arith, text_eq-ports x d s t hx.1 hd.1)

not_star : (port : Text) → Lacks b'*' port → text_eq (codes "*") port ≡ false
unfolding text_eq
not_star [] h = refl
not_star (c ∷ port) h = ground arith

abbrev Agrees : Text → Option Text → Text → Type 0
Agrees d port x = matches (host_of d port) x ≡ text_eq x (key_of d port)

text_eq-with_port : (x d : Text) → Lacks b':' d → text_eq (x ++ codes ":*") d ≡ false
unfolding text_eq
text_eq-with_port [] [] h = refl
text_eq-with_port [] (e ∷ d) h = ground arith
text_eq-with_port (c ∷ x) [] h = refl
text_eq-with_port (c ∷ x) (e ∷ d) h = ground (arith, text_eq-with_port x d h.1)

module _ (d : Text) (plain : IsPlain d) where
  plain-Agrees : (port : Option Text) → IsPort port → (x : Text) → IsPlain x → Agrees d port x
  unfolding matches
  plain-Agrees none h x p = ground (arith, goes_on-no_star x d p.1)
  plain-Agrees (some port) h x p = ground (
    arith,
    goes_on-no_star x (d ++ (b':' ∷ port)) p.1,
    text_eq-port x d port p.0,
    text_eq-port x d (codes "*") p.0,
  )

  ported-Agrees :
      (port : Option Text) → IsPort port → (x : Text) → IsPlain x → Agrees d port (x ++ codes ":*")
  unfolding matches
  ported-Agrees none h x p = ground (arith, goes_on-no_port x d plain.0)
  ported-Agrees (some port) h x p = ground (
    arith,
    goes_on-port x d port p.0 plain.0 h.1,
    text_eq-ports x d (codes "*") port p.0 plain.0,
    text_eq-ports x d (codes "*") (codes "*") p.0 plain.0,
    not_star port h.0,
    text_eq_refl (codes "*"),
  )

  has-with_ports :
      (port : Option Text) (ds : List Text)
      → All IsPlain ds
      → has (key_of d port) (with_ports ds) ≡ has d ds
  unfolding has with_ports
  has-with_ports port [] h = refl
  has-with_ports none (x ∷ ds) h =
      ground (arith, has-with_ports none ds h.1, text_eq-with_port x d plain.0)
  has-with_ports (some port) (x ∷ ds) h = ground (
    arith,
    has-with_ports (some port) ds h.1,
    text_eq-port x d (codes "*") h.0.0,
    text_eq-ports x d (codes "*") (codes "*") h.0.0 plain.0,
    text_eq_refl (codes "*"),
  )

  -- The domains that an upstream is given agree with the key.
  All-with_ports :
      (port : Option Text)
      → IsPort port
      → (ds : List Text) → All IsPlain ds
      → All (Agrees d port) (with_ports ds)
  unfolding with_ports
  All-with_ports port p [] h = tt
  All-with_ports port p (x ∷ ds) h =
      (plain-Agrees port p x h.0, (ported-Agrees port p x h.0, All-with_ports port p ds h.1))

star_eq : (x : Text) → Lacks b'*' x → text_eq x (codes "*") ≡ false
unfolding text_eq
star_eq [] h = refl
star_eq (c ∷ x) h = ground arith

star_eq-with_port : (x : Text) → Lacks b'*' x → text_eq (x ++ codes ":*") (codes "*") ≡ false
unfolding text_eq
star_eq-with_port [] h = refl
star_eq-with_port (c ∷ x) h = ground arith

has_star-with_ports : (ds : List Text) → All IsPlain ds → has (codes "*") (with_ports ds) ≡ false
unfolding has with_ports
has_star-with_ports [] h = refl
has_star-with_ports (x ∷ ds) h =
    ground (arith, has_star-with_ports ds h.1, star_eq x h.0.1, star_eq-with_port x h.0.1)

match_domains-requested :
    (u : Upstream) (base_domain : Text)
    → match_domains u base_domain ≡ with_ports (requested u base_domain)
unfolding match_domains requested
match_domains-requested u base_domain = ground arith

any_matches-claim :
    (d : Text) (port : Option Text) (claimed ds : List Text)
    → All (Agrees d port) ds
    → any_matches (host_of d port) (claim claimed ds).0 ≡ has (key_of d port) (claim claimed ds).0
unfolding any_matches has claim
any_matches-claim d port claimed [] h = refl
any_matches-claim d port claimed (x ∷ ds) h = ground (
  arith,
  h.0,
  any_matches-claim d port claimed ds h.1,
  any_matches-claim d port (x ∷ claimed) ds h.1,
)

module _ (base_domain d : Text) (port : Option Text) (plain : IsPlain d)
    (is_port : IsPort port) where
  matching-virtual_hosts :
      (claimed : List Text) (us : List Upstream)
      → ArePlain base_domain us
      → matching (host_of d port) (virtual_hosts claimed base_domain us)
        ≡ (if has (key_of d port) claimed then [] else first_served d base_domain us)
  unfolding matching virtual_hosts first_served has
  matching-virtual_hosts claimed [] h = ground arith
  matching-virtual_hosts claimed (u ∷ us) h =
      let key = key_of d port in
      let ds = requested u base_domain in
      let taken = claim claimed (with_ports ds) in
      rw (match_domains-requested u base_domain) (
        ground (
          arith,
          matching-virtual_hosts taken.1 us h.1,
          claimed-claim key claimed (with_ports ds),
          has-claim key claimed (with_ports ds),
          has-claim (codes "*") claimed (with_ports ds),
          has_star-with_ports ds h.0,
          has-with_ports d plain port ds h.0,
          any_matches-claim d port claimed (with_ports ds)
              (All-with_ports d plain port is_port ds h.0),
        ))

matching-default :
    (host : Text) (vs : List VirtualHost)
    → matching host (vs ++ default_host ∷ []) ≡ matching host vs
unfolding matching has text_eq
matching-default host [] = ground arith
matching-default host (v ∷ vs) = ground (arith, matching-default host vs)

-- A Host value, a name with or without a port, is matched by one virtual host, besides the catch-all,
-- if an upstream asks for the name, and by none otherwise; that one names the cluster of the first
-- upstream, in the order given, that asks for it, be it as its domain or by its subdomain. The
-- name and the domains that upstreams ask for have no colon and no star, and the port is a text
-- that is not empty and has no star.
pub matching-make_route_config :
    (ups : List Upstream) (base_domain d : Text) (port : Option Text)
    → IsPlain d
    → IsPort port
    → ArePlain base_domain ups
    → matching (host_of d port) (make_route_config ups base_domain).virtual_hosts
      ≡ first_served d base_domain ups
unfolding make_route_config has
matching-make_route_config ups base_domain d port plain is_port all_plain =
    matching-default (host_of d port) (virtual_hosts [] base_domain ups)
    ∙ matching-virtual_hosts base_domain d port plain is_port [] ups all_plain
