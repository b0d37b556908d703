-- ===== src/Tests/Sessions.antt =====
-- Ann's sign-in, the routes that are closed to her, and a tunnel.
use easy_deploy.Prelude.{
  ◌≡◌, refl, arith, Bool, true, false, ◌&&◌, none, some, [], ◌∷◌, Text, codes, text_eq, text_eq_iff,
  if◌then◌else◌, All,
}
use easy_deploy.Prelude.Int.{pos, ◌+ℤ◌, int_eq, int_eq_iff}
use easy_deploy.Prelude.Rows.{first, exists}
use easy_deploy.Prelude.Trim.{is_space}
use easy_deploy.Effect.{Exec, pure}
use easy_deploy.Store.{Db, User, Tunnel, statement}
use easy_deploy.Store.Users.{get_user_by_username}
use easy_deploy.Api.{Failure, Principal}
use easy_deploy.Auth.{Jwt, Claims, login, authenticate, claims_of, verify, bearer}
use easy_deploy.Auth.Sessions.{with_bearer, caller, authenticate-login}
use easy_deploy.Api.Router.{Entry, post, admins_only, Request, Inspectors, serve, route_table}
use easy_deploy.Api.Router.Guards.{IsRefused, audience, serve-IsRefused}
use easy_deploy.Tunnel.{check_start, listen, listener_at, register, stop}
use easy_deploy.Tunnel.System.{
  System, here, later, begin, open_remote, finish, initial, remove_one, with_listener,
}
use easy_deploy.Tunnel.Tracking.{IsTracked, Reach-IsTracked, halt-lost}
use easy_deploy.Tests.{ann, sample}

abbrev anns : Claims
anns = claims_of ann (pos 100)

-- A signer that knows one set of claims only.
abbrev jwt : Jwt
jwt = record {
  sign = λ secret c.
      if text_eq c.subject anns.subject
        && (int_eq c.user_id anns.user_id
            && (text_eq c.role anns.role
                && (int_eq c.issued_at anns.issued_at && int_eq c.expires_at anns.expires_at)))
      then some (codes "tok")
      else none;
  parse = λ secret now t. some anns;
}

only_anns : (c : Claims) (t : Text) → jwt.sign [] c ≡ some t → some anns ≡ some c
only_anns c t h = ground (
  arith,
  text_eq_iff c.subject anns.subject,
  text_eq_iff c.role anns.role,
  int_eq_iff c.user_id anns.user_id,
  int_eq_iff c.issued_at anns.issued_at,
  int_eq_iff c.expires_at anns.expires_at,
)

abbrev greet : Principal → Exec Db Failure Text
greet p = pure p.username

abbrev always : Text → Text → Bool
always hash password = true

authenticate-login_example :
    (first (λ (u : User). text_eq u.username (codes "ann")) sample.users ≡ some ann)
    × (always ann.password_hash (codes "pw") ≡ true)
    × (authenticate jwt [] (pos 200) (with_bearer (codes "tok")) [] greet ≡ greet (caller ann))
unfolding login get_user_by_username statement first text_eq is_space ◌+ℤ◌
authenticate-login_example =
    authenticate-login jwt [] always (pos 100) (codes "ann") (codes "pw") sample (codes "tok") ann
      refl (pos 200) [] greet (λ c t signed in_time. only_anns c t signed) refl
      (refl, (refl, (refl, tt))) refl

abbrev create_user_entry : Entry
create_user_entry = record {
  method = post;
  pattern = codes "/users";
  handler = codes "handleCreateUser";
  gate = admins_only;
}

abbrev by_ann : Request
by_ann = record {
  authorization = with_bearer (codes "tok");
  token_query = [];
  endpoint_header = [];
  endpoint_query = [];
  target = [];
}

abbrev no_hosts : Inspectors
no_hosts = record { containers = none; volumes = none; networks = none }

serve-IsRefused_example :
    IsRefused sample (serve jwt [] (pos 200) no_hosts create_user_entry.gate by_ann greet sample)
unfolding route_table audience verify bearer text_eq
serve-IsRefused_example =
    serve-IsRefused jwt [] (pos 200) no_hosts by_ann greet sample 53 create_user_entry refl refl

abbrev vm : Tunnel
vm = record {
  id = pos 1;
  kind = codes "ssh";
  name = codes "vm";
  ssh_host = codes "h";
  ssh_port = pos 22;
  ssh_user = codes "u";
  remote_port = pos 80;
  local_port = pos 10000;
  enabled = false;
}

-- The start of the tunnel, from its check to its registration.
abbrev up : System
up = record {
  tunnels = register (pos 1) 0 (listen initial.tunnels).1;
  pending =
      remove_one (pos 1) (some 0)
        (with_listener (pos 1) 0 (record { id = pos 1; listener = none } ∷ []));
}

Reach-IsTracked_example : All (IsTracked up.tunnels.running up.pending) up.tunnels.opened
unfolding check_start exists text_eq listen with_listener
Reach-IsTracked_example = Reach-IsTracked up (
    later (later (later here (begin vm refl refl)) (open_remote (pos 1) refl))
      (finish (pos 1) 0 refl))

-- The listener is open, and the tunnel not yet in the map.
abbrev nearly_up : System
nearly_up = record {
  tunnels = (listen initial.tunnels).1;
  pending = with_listener (pos 1) 0 (record { id = pos 1; listener = none } ∷ []);
}

halt-lost_example :
    (stop (pos 1) nearly_up.tunnels ≡ nearly_up.tunnels)
    × (listener_at (pos 1) (register (pos 1) 0 (stop (pos 1) nearly_up.tunnels)).running ≡ some 0)
unfolding check_start exists text_eq listen with_listener
halt-lost_example =
    halt-lost nearly_up (pos 1) 0
      (later (later here (begin vm refl refl)) (open_remote (pos 1) refl)) refl
