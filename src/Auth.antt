-- ===== src/Auth.antt =====
-- server/internal/auth/auth.go: sign-in, session tokens and the middleware that reads them. JWT and
-- bcrypt are parameters; times are in seconds.
pub mod Sessions
use mathlib.Core.Option
use easy_deploy.Prelude.{
  ℕ, ◌+◌, Bool, true, false, not, ◌&&◌, leb, Option, none, some, List, [], ◌∷◌, map, Text, codes,
  text_eq, is_empty, if◌then◌else◌,
}
use easy_deploy.Prelude.Int.{ℤ, pos, ◌+ℤ◌}
use easy_deploy.Prelude.Split.{cut}
use easy_deploy.Prelude.Trim.{trim_space}
use easy_deploy.Effect.{Result, ok, err, Exec, pure, raise, ◌>>=◌, ◌>>◌}
use easy_deploy.Store.{Db, User, StoreError}
use easy_deploy.Store.Users.{get_user_by_username}
use easy_deploy.Api.{Principal, is_admin, Failure, failure, refused, refuse_if}

pub record Claims : Type 0 where
  pub subject : Text
  pub user_id : ℤ
  pub role : Text
  pub issued_at : ℤ
  pub expires_at : ℤ

-- `SignedString` with HS256, and `ParseWithClaims` at a time, for tokens whose method is HMAC; a token
-- of another method is refused.
pub record Jwt : Type 0 where
  pub sign : Text → Claims → Option Text
  pub parse : Text → ℤ → Text → Option Claims

-- `New`: without a configured secret a random one is taken, if there is one.
unfoldable pub settled_secret : Text → Option Text → Option Text
settled_secret given random = if is_empty given then random else some given

abbrev pub ttl : ℤ
ttl = pos 86400

abbrev pub claims_of : User → ℤ → Claims
claims_of user now = record {
  subject = user.username;
  user_id = user.id;
  role = user.role;
  issued_at = now;
  expires_at = now +ℤ ttl;
}

abbrev pub principal_of : Claims → Principal
principal_of c = record { user_id = c.user_id; username = c.subject; role = c.role }

abbrev invalid_credentials : Text
invalid_credentials = codes "invalid credentials"

module _ (jwt : Jwt) (secret : Text) where
  abbrev signed : User → Option Text → Exec Db Text (Text × User)
  signed user none = raise (codes "sign")
  signed user (some token) = pure (token, user)

  -- `matches hash password` is bcrypt's comparison.
  abbrev checked : (Text → Text → Bool) → Text → ℤ → User → Exec Db Text (Text × User)
  checked matches password now user =
      if matches user.password_hash password
      then signed user (jwt.sign secret (claims_of user now))
      else raise invalid_credentials

  abbrev known :
      Result StoreError User → (User → Exec Db Text (Text × User)) → Exec Db Text (Text × User)
  known (err e) next = raise invalid_credentials
  known (ok user) next = next user

  -- The same answer for an unknown name and for a wrong password.
  unfoldable pub login : (Text → Text → Bool) → ℤ → Text → Text → Exec Db Text (Text × User)
  login matches now username password db =
      let (found, after) = get_user_by_username username db in
      known found (checked matches password now) after

  unfoldable pub verify : ℤ → Text → Option Principal
  verify now token = Option.map principal_of (jwt.parse secret now token)

lower_ascii : ℕ → ℕ
lower_ascii c = if leb b'A' c && leb c b'Z' then c + 32 else c

abbrev bearer_of : Option (Text × Text) → Text
bearer_of none = []
bearer_of (some (scheme, token)) =
    if text_eq (map lower_ascii scheme) (codes "bearer") then trim_space token else []

-- The letters of `Bearer` have no other case than those of ASCII.
unfoldable pub bearer : Text → Text
unfolding lower_ascii cut
bearer header = bearer_of (cut b' ' header)

abbrev pub token_of : Text → Text → Text
token_of header query = if is_empty (bearer header) then query else bearer header

module _ (jwt : Jwt) (secret : Text) {S A : Type 0} where
  abbrev pub admitted : Option Principal → (Principal → Exec S Failure A) → Exec S Failure A
  admitted none next = raise (failure 401 (refused (codes "invalid token")))
  admitted (some p) next = next p

  -- `Middleware`: the token is in the header, else in the query.
  unfoldable pub authenticate : ℤ → Text → Text → (Principal → Exec S Failure A) → Exec S Failure A
  authenticate now header query next =
      if is_empty (token_of header query)
      then raise (failure 401 (refused (codes "missing token")))
      else admitted (verify jwt secret now (token_of header query)) next

unfoldable pub require_admin : {S A : Type 0} → Principal → Exec S Failure A → Exec S Failure A
require_admin p next = do
  refuse_if (not (is_admin p)) (failure 403 (refused (codes "admin role required")))
  next
