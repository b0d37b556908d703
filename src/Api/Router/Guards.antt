-- ===== src/Api/Router/Guards.antt =====
-- Who gets past the middleware of a route.
use easy_deploy.Prelude.{
  ◌≡◌, refl, sym, ap, ◌∙◌, subst, arith, ℕ, zero, suc, ◌≤◌, Bool, true, false, not, ◌&&◌, ◌||◌,
  Option, none, some, List, [], ◌∷◌, Text, codes, if◌then◌else◌, is_empty, Bool-cases, Option-cases,
  inl, inr,
}
use easy_deploy.Prelude.Int.{ℤ}
use easy_deploy.Prelude.Prefix.{starts_with}
use easy_deploy.Effect.{Result, ok, err}
use easy_deploy.Store.{Db, answering, statement}
use easy_deploy.Store.Grants.{user_has_endpoint}
use easy_deploy.Auth.{Jwt, verify, token_of, authenticate, require_admin}
use easy_deploy.Api.{Principal, is_admin, Failure, Handler}
use easy_deploy.Api.Access.{endpoint_id, require_endpoint_access}
use easy_deploy.Api.Router.{
  Method, get, Gate, unguarded, signed_in, container_owner, volume_owner, network_owner,
  registry_owner, admins_only, Entry, route_table, Request, Inspectors, session, serve,
}

-- Who may use a path, as the comments in `Routes` say. Of the two that speak of networks and volumes
-- this takes the one at their group, which lets members use them; an earlier one keeps them for
-- administrators.
pub data Audience : Type 0 where
  anyone users admins : Audience

abbrev is_get : Method → Bool
is_get get = true
is_get m = false

abbrev under : Text → List Text → Bool
under path [] = false
under path (p ∷ ps) = if starts_with p path then true else under path ps

abbrev public_paths : List Text
public_paths = codes "/health" ∷ codes "/auth/login" ∷ codes "/hooks/" ∷ []

-- User management, and the infrastructure that is shared.
abbrev admin_paths : List Text
admin_paths =
    codes "/users"
    ∷ codes "/images"
    ∷ codes "/routes"
    ∷ codes "/public-ip"
    ∷ codes "/tunnels"
    ∷ codes "/requests/{id}/review"
    ∷ codes "/endpoints/{id}/edge"
    ∷ []

-- Environments are listed for every user, and managed by administrators.
unfoldable pub audience : Entry → Audience
unfolding starts_with
audience e =
    if under e.pattern public_paths
    then anyone
    else if under e.pattern admin_paths
        || (starts_with (codes "/endpoints") e.pattern && not (is_get e.method))
    then admins
    else users

-- Whether the caller belongs to the audience; `none` is a caller without a valid token.
abbrev pub belongs : Audience → Option Principal → Bool
belongs anyone who = true
belongs users none = false
belongs users (some p) = true
belongs admins none = false
belongs admins (some p) = is_admin p

abbrev pub at : ℕ → List Entry → Option Entry
at i [] = none
at zero (e ∷ es) = some e
at (suc i) (e ∷ es) = at i es

-- The gate keeps out whoever does not belong to the audience.
abbrev keeps : Audience → Gate → Bool
keeps anyone g = true
keeps users unguarded = false
keeps users g = true
keeps admins admins_only = true
keeps admins g = false

abbrev all_keep : List Entry → Bool
all_keep [] = true
all_keep (e ∷ es) = keeps (audience e) e.gate && all_keep es

table_keeps : all_keep route_table ≡ true
unfolding audience route_table
table_keeps = refl

some_eq : (d e : Entry) → some d ≡ some e → d ≡ e
some_eq d e h = cc

entry_keeps :
    (i : ℕ) (es : List Entry) (e : Entry)
    → all_keep es ≡ true
    → at i es ≡ some e
    → keeps (audience e) e.gate ≡ true
entry_keeps i [] e h there = cc
entry_keeps zero (d ∷ es) e h there =
    subst (λ x. keeps (audience x) x.gate ≡ true) (some_eq d e there) (ground arith)
entry_keeps (suc i) (d ∷ es) e h there = entry_keeps i es e (ground arith) there

keeps_users : (g : Gate) → keeps admins g ≡ true → keeps users g ≡ true
keeps_users admins_only h = refl
keeps_users _ h = cc

-- An error response that left every table as it was.
abbrev pub IsRefused : {A : Type 0} → Db → Result Failure A × Db → Type 0
IsRefused db (ok a, after) = ⊥
IsRefused db (err f, after) = (answering after ≡ answering db) × (401 ≤ f.status)

module _ (jwt : Jwt) (secret : Text) (now : ℤ) (hosts : Inspectors) {A : Type 0} (req : Request)
    (next : Principal → Handler A) (db : Db) where
  abbrev pub caller_of : Option Principal
  caller_of = verify jwt secret now (token_of req.authorization req.token_query)

  session-no_token :
      (g : Gate) → caller_of ≡ none → IsRefused db (session jwt secret now hosts g req next db)
  unfolding session authenticate
  session-no_token g absent = ground arith

  belongs-some : (p : Principal) → caller_of ≡ some p → belongs users caller_of ≡ false → ⊥
  belongs-some p there b = cc (ap (belongs users) there)

  plain_of :
      (p : Principal) → caller_of ≡ some p → belongs admins caller_of ≡ false → is_admin p ≡ false
  plain_of p there b = sym (ap (belongs admins) there) ∙ b

  admin_area-IsRefused :
      (p : Principal) (id : ℤ)
      → is_admin p ≡ false
      → IsRefused db (require_endpoint_access p id (require_admin p (next p)) db)
  unfolding require_endpoint_access require_admin user_has_endpoint statement
  admin_area-IsRefused p id plain = rw plain (ground arith)

  session-member :
      (p : Principal)
      → caller_of ≡ some p
      → is_admin p ≡ false
      → IsRefused db (session jwt secret now hosts admins_only req next db)
  unfolding session authenticate
  session-member p member plain =
      elim (Bool-cases (is_empty (token_of req.authorization req.token_query))) [
        | inl missing ↦ rw missing (ground arith)
        | inr there ↦ rw there (
            rw member
              (admin_area-IsRefused p (endpoint_id req.endpoint_header req.endpoint_query) plain))
      ]

  outsider-IsRefused :
      (g : Gate)
      → caller_of ≡ none
      → keeps users g ≡ true
      → IsRefused db (serve jwt secret now hosts g req next db)
  unfolding serve
  outsider-IsRefused unguarded absent h = cc
  outsider-IsRefused signed_in absent h = session-no_token signed_in absent
  outsider-IsRefused container_owner absent h = session-no_token container_owner absent
  outsider-IsRefused volume_owner absent h = session-no_token volume_owner absent
  outsider-IsRefused network_owner absent h = session-no_token network_owner absent
  outsider-IsRefused registry_owner absent h = session-no_token registry_owner absent
  outsider-IsRefused admins_only absent h = session-no_token admins_only absent

  member-IsRefused :
      (g : Gate) (p : Principal)
      → caller_of ≡ some p
      → is_admin p ≡ false
      → keeps admins g ≡ true
      → IsRefused db (serve jwt secret now hosts g req next db)
  unfolding serve
  member-IsRefused admins_only p member plain h = session-member p member plain
  member-IsRefused _ p member plain h = cc

  kept_out :
      (a : Audience) (g : Gate)
      → keeps a g ≡ true
      → belongs a caller_of ≡ false
      → IsRefused db (serve jwt secret now hosts g req next db)
  kept_out anyone g k b = cc
  kept_out users g k b = elim (Option-cases caller_of) [
    | inl absent ↦ outsider-IsRefused g absent k
    | inr (p, there) ↦ absurd (belongs-some p there b)
  ]
  kept_out admins g k b = elim (Option-cases caller_of) [
    | inl absent ↦ outsider-IsRefused g absent (keeps_users g k)
    | inr (p, there) ↦ member-IsRefused g p there (plain_of p there b) k
  ]

  -- A request for a route of the table whose caller is not of its audience never reaches its handler:
  -- the answer is an error, and no table changes, whether or not the database answers. Health, login
  -- and webhooks are for anybody; accounts, images, routes, tunnels, the review of requests and the
  -- management of environments are for administrators; all else, networks and volumes included, is
  -- for users with a valid token.
  pub serve-IsRefused :
      (i : ℕ) (e : Entry)
      → at i route_table ≡ some e
      → belongs (audience e) caller_of ≡ false
      → IsRefused db (serve jwt secret now hosts e.gate req next db)
  serve-IsRefused i e there outside =
      kept_out (audience e) e.gate (entry_keeps i route_table e table_keeps there) outside
