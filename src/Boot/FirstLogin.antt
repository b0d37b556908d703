-- ===== src/Boot/FirstLogin.antt =====
-- The first start on an empty database, and the sign-in after it.
use easy_deploy.Prelude.{
  ℕ, ◌≡◌, refl, ◌∙◌, arith, Bool, true, Option, none, some, [], ◌∷◌, Text, codes, text_eq,
  text_eq_complete,
}
use easy_deploy.Prelude.Int.{ℤ, pos}
use easy_deploy.Effect.{ok}
use easy_deploy.Config.{Environment, Config, load}
use easy_deploy.Store.{Db, User, Service, statement, answering, role_admin}
use easy_deploy.Store.Users.{count_users, create_user, get_user_by_username}
use easy_deploy.Api.Users.{bootstrap_admin}
use easy_deploy.Auth.{Jwt, Claims, claims_of, login}
use easy_deploy.Boot.{
  Outside, Server, run, reconciled, fleet_of, registry_box, sync_routes, sync_services,
}
use easy_deploy.Secret as Secret
use easy_deploy.Prelude.Rows.{count, exists, first}
use easy_deploy.Proxy.{Plane, settled_domain}
use easy_deploy.Service.Manager.{Fleet}
use easy_deploy.Service.Replicas.{replica_spec}
use easy_deploy.Boot.Accounts.{
  Keeps, fleet_users, publish-Keeps, replica_spec-Keeps, routed-Keeps, sync_all-Keeps,
}

-- The account that an empty database is given.
abbrev pub first_admin : Text → Db → User
first_admin hashed db = record {
  id = pos db.next_user;
  username = codes "admin";
  password_hash = hashed;
  role = role_admin;
  cpu_quota_milli = pos 0;
  mem_quota_mb = pos 0;
  disk_quota_mb = pos 0;
}

bootstrap_admin-first :
    (hash : Text → Option Text) (password : Text) (db : Db)
    → db.users ≡ []
    → (bootstrap_admin hash password db).0 ≡ ok tt
    → (hashed : Text) × (hash password ≡ some hashed)
      × ((bootstrap_admin hash password db).1.users ≡ first_admin hashed db ∷ [])
unfolding bootstrap_admin count_users create_user statement count exists
bootstrap_admin-first hash password db fresh done = hashes (hash password) refl
  where
    hashes :
        (o : Option Text)
        → hash password ≡ o
        → (hashed : Text) × (hash password ≡ some hashed)
          × ((bootstrap_admin hash password db).1.users ≡ first_admin hashed db ∷ [])
    hashes none q = absurd (ground arith)
    hashes (some hashed) q = (hashed, q, ground arith)

module _ (o : Outside) where
  spec-Keeps :
      (box : Secret.Box) (svc : Service) (i : ℕ)
      → Keeps
          (λ (d : Db). d.users)
          (replica_spec (registry_box o box) o.decode_env o.decode_advanced o.no_advanced svc i)
  spec-Keeps box =
      replica_spec-Keeps (registry_box o box) o.decode_env o.decode_advanced o.no_advanced

  sync_routes-Keeps : (cfg : Config) → Keeps (λ (p : Plane). p.db.users) (sync_routes o cfg)
  sync_routes-Keeps cfg =
      publish-Keeps o.to_lower o.accepts o.env_order (settled_domain cfg.base_domain)

  reconciled-users :
      (cfg : Config) (box : Secret.Box) (w : Fleet)
      → fleet_users (reconciled o cfg box w) ≡ fleet_users w
  unfolding reconciled
  reconciled-users cfg box w =
      let services = (sync_services o cfg box w).1 in
      routed-Keeps (sync_routes o cfg) (sync_routes-Keeps cfg) services
      ∙ sync_all-Keeps
          (replica_spec (registry_box o box) o.decode_env o.decode_advanced o.no_advanced)
          o.client_for (sync_routes o cfg) o.id_order (spec-Keeps box) (sync_routes-Keeps cfg) w

  -- What a start that ends well did to the accounts.
  run-users :
      (environment : Environment) (db : Db) (server : Server)
      → (run o environment db).0 ≡ ok server
      → let boot = bootstrap_admin o.hash (load environment).admin_password db in
        (boot.0 ≡ ok tt) × ((run o environment db).1.users ≡ boot.1.users)
  unfolding run
  run-users environment db server h = ground (
    arith,
    reconciled-users (load environment) server.box (
        fleet_of o (load environment)
          (bootstrap_admin o.hash (load environment).admin_password db).1),
  )

login-only :
    (jwt : Jwt) (secret : Text) (matches : Text → Text → Bool) (now : ℤ) (password token : Text)
    (db : Db) (user : User)
    → db.users ≡ user ∷ []
    → user.username ≡ codes "admin"
    → matches user.password_hash password ≡ true
    → jwt.sign secret (claims_of user now) ≡ some token
    → login jwt secret matches now (codes "admin") password (answering db)
      ≡ (ok (token, user), answering db)
unfolding login get_user_by_username statement first
login-only jwt secret matches now password token db user only named good signed =
    let known : text_eq user.username (codes "admin") ≡ true =
      text_eq_complete user.username (codes "admin") named in
    rw only (rw known (rw good (rw signed refl)))

module _ (o : Outside) (jwt : Jwt) (matches : Text → Text → Bool) where
  -- After the first start, on a database without accounts, whatever else fails in the two
  -- synchronisations: the only account is an administrator's, named `admin`, and the password of
  -- EASYDEPLOY_ADMIN_PASSWORD signs in to it, with a token under the server's secret. bcrypt accepts a
  -- password for the hash that it made of it, JWT signs, and the database answers the sign-in.
  pub run-login :
      (environment : Environment) (db : Db) (server : Server) (now : ℤ) (tokens : Claims → Text)
      → db.users ≡ []
      → (run o environment db).0 ≡ ok server
      → ((password hashed : Text) → o.hash password ≡ some hashed → matches hashed password ≡ true)
      → ((c : Claims) → jwt.sign server.jwt_secret c ≡ some (tokens c))
      → (hashed : Text) × ((run o environment db).1.users ≡ first_admin hashed db ∷ [])
        × (login jwt server.jwt_secret matches now
              (codes "admin")
              (load environment).admin_password
              (answering (run o environment db).1)
            ≡ (
              ok (tokens (claims_of (first_admin hashed db) now), first_admin hashed db),
              answering (run o environment db).1,
            ))
  run-login environment db server now tokens fresh started accepts signs =
      let password = (load environment).admin_password in
      let (booted, kept) = run-users o environment db server started in
      let (hashed, made, there) = bootstrap_admin-first o.hash password db fresh booted in
      let admin = first_admin hashed db in
      (
        hashed,
        kept ∙ there,
        login-only jwt server.jwt_secret matches now password (tokens (claims_of admin now))
            (run o environment db).1 admin (kept ∙ there) refl (accepts password hashed made)
            (signs (claims_of admin now)),
      )
