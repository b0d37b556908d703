-- ===== src/Auth/Sessions.antt =====
-- A token that a sign-in gave, at the middleware.
use mathlib.Core.Option
use easy_deploy.Prelude.{
  ◌≡◌, arith, ap, Bool, true, false, some, ◌++◌, Text, codes, is_empty, All, text_eq,
}
use easy_deploy.Prelude.Int.{ℤ, ltb_ℤ, ◌+ℤ◌}
use easy_deploy.Prelude.Trim.{trim_space, is_space, trim_none}
use easy_deploy.Prelude.Rows.{first}
use easy_deploy.Effect.{Exec, ok}
use easy_deploy.Store.{Db, User, statement}
use easy_deploy.Store.Users.{get_user_by_username}
use easy_deploy.Api.{Principal, Failure}
use easy_deploy.Auth.{
  Jwt, verify, admitted, principal_of, Claims, claims_of, ttl, login, bearer, authenticate,
}

abbrev pub with_bearer : Text → Text
with_bearer token = codes "Bearer " ++ token

-- The caller that a row of the accounts stands for.
abbrev pub caller : User → Principal
caller user = record { user_id = user.id; username = user.username; role = user.role }

bearer_lem :
    (token : Text) → All (λ c. is_space c ≡ false) token → bearer (with_bearer token) ≡ token
unfolding bearer trim_space text_eq
bearer_lem token plain = trim_none is_space token plain

module _ (jwt : Jwt) (secret : Text) (matches : Text → Text → Bool) (now : ℤ)
    (username password : Text) (db : Db) (token : Text) (user : User)
    (signed_in : (login jwt secret matches now username password db).0 ≡ ok (token, user)) where
  login-issued :
      (first (λ (u : User). text_eq u.username username) db.users ≡ some user)
      × (matches user.password_hash password ≡ true)
      × (jwt.sign secret (claims_of user now) ≡ some token)
  unfolding login get_user_by_username statement
  login-issued = ground arith

  -- The token of a sign-in is that of an account with the name and the password. Until it expires, a
  -- request that carries it reaches its handler as that account, with the role that the account had
  -- at the sign-in, whatever the state then is. JWT reads back what it signed, and a token is not
  -- empty and has no white space.
  pub authenticate-login :
      {S A : Type 0} (later : ℤ) (query : Text) (next : Principal → Exec S Failure A)
      → ((c : Claims) (t : Text)
          → jwt.sign secret c ≡ some t
          → ltb_ℤ later c.expires_at ≡ true
          → jwt.parse secret later t ≡ some c)
      → is_empty token ≡ false
      → All (λ c. is_space c ≡ false) token
      → ltb_ℤ later (now +ℤ ttl) ≡ true
      → (first (λ (u : User). text_eq u.username username) db.users ≡ some user)
        × (matches user.password_hash password ≡ true)
        × (authenticate jwt secret later (with_bearer token) query next ≡ next (caller user))
  unfolding authenticate verify
  authenticate-login later query next reads some_token plain in_time =
      let issued = login-issued in
      (
        issued.0,
        issued.1,
        rw (bearer_lem token plain) (
            rw some_token (
              rw some_token (
                ap (λ r. admitted jwt secret (Option.map principal_of r) next)
                  (reads (claims_of user now) token issued.2 in_time)))),
      )
