-- ===== src/Boot.antt =====
-- server/cmd/easydeploy/main.go: how the server starts. What the operating system, PostgreSQL, bcrypt and
-- the daemons answer are parameters; the listeners themselves and the shutdown are left out.
pub mod Accounts
pub mod FirstLogin
use easy_deploy.Prelude.{ℕ, Bool, Option, none, some, List, [], Text, codes, if◌then◌else◌}
use easy_deploy.Prelude.Int.{ℤ}
use easy_deploy.Effect.{Result, ok, err, Exec, pure, raise, lift, attempt, or_fail, ◌>>=◌, ◌>>◌}
use easy_deploy.Config.{Config, Environment, load, validate}
use easy_deploy.Secret as Secret
use easy_deploy.Store.{Db}
use easy_deploy.Docker.Remote.{Sdk, Connection, new_local}
use easy_deploy.Docker.Spec.{AdvancedSpec}
use easy_deploy.Xds.Cache.{Snapshot, new_manager}
use easy_deploy.Proxy.{Publish, publish, settled_domain}
use easy_deploy.Registry.{Box}
use easy_deploy.Registry.Web.Credentials.{box_of}
use easy_deploy.Service.Replicas.{replica_spec, upstreams}
use easy_deploy.Service.Manager as Services
use easy_deploy.Service.Manager.{Fleet, Host, routed, sync_all}
use easy_deploy.Auth.{settled_secret}
use easy_deploy.Api.{Failure}
use easy_deploy.Api.Users.{bootstrap_admin}

pub data BootError : Type 0 where
  -- the variable that is missing
  required : Text → BootError
  no_database no_docker no_jwt_secret no_listener : BootError
  bad_master_key : Secret.SecretError → BootError
  no_admin : Failure → BootError

-- What the start calls. `opens` is whether `store.Open` connects and migrates, `listens` whether the
-- xDS address can be listened on; `random_secret` are the bytes of `auth.New`; the others are as in
-- the modules that use them.
pub record Outside : Type 0 where
  pub opens : Text → Bool
  pub listens : Text → Bool
  pub sdk : Sdk
  pub ciphers : Secret.Ciphers
  pub nonces : Text → Text
  pub encode : Text → Text → Text → Text
  pub hash : Text → Option Text
  pub random_secret : Option Text
  pub now : ℤ
  pub to_lower : ℕ → ℕ
  pub accepts : Text → Snapshot → Bool
  pub env_order : List ℤ → List ℤ
  pub id_order : List Text → List Text
  pub decode_env : Text → List Text
  pub decode_advanced : Text → AdvancedSpec
  pub no_advanced : AdvancedSpec
  pub client_for : ℤ → Option Host

-- What the two listeners serve from.
pub record Server : Type 0 where
  pub config : Config
  pub docker : Connection
  pub box : Secret.Box
  pub jwt_secret : Text
  pub fleet : Fleet

abbrev pub Boot : Type 0 → Type 0
Boot A = Exec Db BootError A

abbrev relabelled : {E A : Type 0} → (E → BootError) → Result E A → Result BootError A
relabelled f (ok a) = ok a
relabelled f (err e) = err (f e)

abbrev some_or : {A : Type 0} → BootError → Option A → Result BootError A
some_or e none = err e
some_or e (some a) = ok a

abbrev unless : BootError → Bool → Result BootError Unit
unless e worked = if worked then ok tt else err e

module _ (o : Outside) where
  -- The services as `New` puts them together: with a base domain that is not empty.
  abbrev pub sync_routes : Config → Publish Unit
  sync_routes cfg =
      publish o.to_lower o.accepts o.env_order (some upstreams) (settled_domain cfg.base_domain)

  abbrev pub registry_box : Secret.Box → Box
  registry_box box = box_of o.ciphers box o.nonces o.encode

  abbrev pub sync_services : Config → Secret.Box → Services.Task Unit
  sync_services cfg box =
      sync_all (replica_spec (registry_box box) o.decode_env o.decode_advanced o.no_advanced)
        o.client_for (sync_routes cfg) o.id_order

  -- The two synchronisations: an error of either is only a warning.
  unfoldable pub reconciled : Config → Secret.Box → Fleet → Fleet
  reconciled cfg box w =
      let services = attempt {F = BootError} (sync_services cfg box) w in
      (attempt {F = BootError} (routed (sync_routes cfg)) services.1).1

  abbrev pub fleet_of : Config → Db → Fleet
  fleet_of cfg db = record {
    plane = record { db = db; xds = new_manager cfg.envoy_node_id cfg.base_domain o.now };
    calls = [];
  }

  abbrev settle : Config → Connection → Secret.Box → Text → Boot Server
  settle cfg docker box jwt_secret db =
      let w = reconciled cfg box (fleet_of cfg db) in
      (
        ok (record {
          config = cfg;
          docker = docker;
          box = box;
          jwt_secret = jwt_secret;
          fleet = w;
        }),
        w.plane.db,
      )

  unfoldable pub run : Environment → Boot Server
  unfolding reconciled
  run environment = do
    let cfg = load environment
    lift (relabelled required (validate cfg))
    lift (unless no_database (o.opens cfg.database_url))
    docker ← lift (some_or no_docker (new_local o.sdk cfg.docker_host))
    box ← lift (relabelled bad_master_key (Secret.new o.ciphers cfg.secret_key))
    or_fail no_admin (bootstrap_admin o.hash cfg.admin_password)
    jwt_secret ← lift (some_or no_jwt_secret (settled_secret cfg.jwt_secret o.random_secret))
    server ← settle cfg docker box jwt_secret
    lift (unless no_listener (o.listens cfg.xds_addr))
    pure server
