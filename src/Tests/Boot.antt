-- ===== src/Tests/Boot.antt =====
-- A first start, and what is stored under its master key.
use easy_deploy.Prelude.{
  ◌≡◌, refl, arith, Bool, true, false, none, some, List, [], ◌∷◌, ◌++◌, Text, codes, is_empty,
  text_eq, text_eq_complete, if◌then◌else◌,
}
use easy_deploy.Prelude.Int.{pos}
use easy_deploy.Prelude.Decimal.{itoa_ℕ}
use easy_deploy.Prelude.Rows.{count, exists}
use easy_deploy.Prelude.Trim.{is_space}
use easy_deploy.Prelude.Prefix.{starts_with}
use easy_deploy.Effect.{ok}
use easy_deploy.Config.{Environment, load, validate}
use easy_deploy.Secret as Secret
use easy_deploy.Secret.{Ciphers, decrypt, encrypt, bad_base64}
use easy_deploy.Secret.Sealing.{Reads}
use easy_deploy.Store.{Db, Registry, Endpoint, answering, statement}
use easy_deploy.Store.Users.{count_users, create_user}
use easy_deploy.Store.Registries.{insert_registry}
use easy_deploy.Docker.Remote.{
  Sdk, Connection, local, plain, mutual_tls, new_local, new_remote, with_tls, opened,
}
use easy_deploy.Docker.Remote.Verified.{client_of, client_of-IsVerified, client_of-downgrades}
use easy_deploy.Endpoint.{built}
use easy_deploy.Registry as Images
use easy_deploy.Registry.{normalize_host}
use easy_deploy.Registry.Web.{HttpRequest, creds_for}
use easy_deploy.Registry.Web.Credentials.{box_of, creds_for-create}
use easy_deploy.Xds.Bootstrap.{edge_bootstrap_yaml}
use easy_deploy.Xds.Bootstrap.Address.{
  join_host_port, Holds, node_lines, dialled_lines, edge_bootstrap_yaml-join_host_port,
}
use easy_deploy.Auth.{Jwt, Claims, claims_of, login, settled_secret}
use easy_deploy.Api.Users.{bootstrap_admin}
use easy_deploy.Boot.{Outside, Server, run, reconciled, fleet_of}
use easy_deploy.Boot.FirstLogin.{first_admin, run-login}
use easy_deploy.Tests.{sample}
use easy_deploy.Tests.Hosts as Hosts

-- Ciphers that hide nothing, but read back what they wrote.
abbrev clear : Ciphers
clear = record {
  sum256 = λ s. s;
  takes = λ key. true;
  nonce_size = 1;
  seal = λ key nonce plaintext. plaintext;
  opened = λ key nonce body. some body;
  encode = λ raw. raw;
  decode = λ s. some s;
}

clear-Reads : Reads clear
clear-Reads = record {
  opens = λ key nonce text. refl;
  decodes = λ raw. refl;
  decodes_empty = refl;
  some_nonce = omega arith;
}

abbrev key_box : Secret.Box
key_box = record { key = codes "k" }

abbrev seven : Text → Text
seven t = 7 ∷ []

abbrev willing : Sdk
willing = record {
  key_pair = λ cert key. true;
  certs_from_pem = λ ca. true;
  helper_host = λ host flags. some host;
  new_client = λ c. true;
}

abbrev here : Connection
here = record { host = []; transport = local }

abbrev empty_row : Endpoint
empty_row = record {
  id = pos 1;
  name = codes "berlin";
  host = codes "tcp://10.0.0.2:2376";
  tls_ca_enc = [];
  tls_cert_enc = codes "sealed";
  tls_key_enc = [];
}

abbrev berlin_client : Connection
berlin_client = record {
  host = codes "tcp://10.0.0.2:2376";
  transport = mutual_tls (record {
    certificate = (codes "cert", codes "key");
    root_cas = codes "ca";
    min_version = codes "1.2";
  });
}

client_of-IsVerified_example :
    (is_empty (codes "ca") ≡ false)
    × (willing.certs_from_pem (codes "ca") ≡ true)
    × (berlin_client ≡ record {
      host = codes "tcp://10.0.0.2:2376";
      transport = mutual_tls (record {
        certificate = (codes "cert", codes "key");
        root_cas = codes "ca";
        min_version = codes "1.2";
      });
    })
unfolding built new_remote with_tls encrypt decrypt starts_with
client_of-IsVerified_example =
    client_of-IsVerified willing clear key_box clear-Reads seven (λ t. refl) here (pos 1)
      (codes "berlin") (codes "tcp://10.0.0.2:2376") (codes "ca") (codes "cert") (codes "key")
      empty_row berlin_client refl refl refl refl

-- A box that can decode nothing that is stored.
abbrev forgetful : Ciphers
forgetful = record clear { decode = λ s. none }

client_of-downgrades_example :
    client_of willing forgetful key_box seven here empty_row
    ≡ opened willing (record { host = codes "tcp://10.0.0.2:2376"; transport = plain })
unfolding decrypt starts_with
client_of-downgrades_example =
    client_of-downgrades willing forgetful key_box seven here empty_row bad_base64 refl refl refl
      refl

edge_bootstrap_yaml-join_host_port_example :
    (yaml : Text) × (edge_bootstrap_yaml
        (codes "easydeploy-edge-1")
        (join_host_port (codes "fd00::2") (itoa_ℕ 18000))
      ≡ ok yaml)
    × Holds (node_lines (codes "easydeploy-edge-1")) yaml
    × Holds (dialled_lines (codes "fd00::2") 18000) yaml
unfolding is_space
edge_bootstrap_yaml-join_host_port_example =
    edge_bootstrap_yaml-join_host_port (codes "easydeploy-edge-1") (codes "fd00::2") 18000 refl
      (ground arith) (ground arith) (ground arith) (omega arith) (omega arith)

-- What a creation on the small instance gives.
abbrev new_row : Registry
new_row = record {
  id = pos 1;
  name = codes "hub";
  url = codes "docker.io";
  username = codes "ann";
  password_enc = 7 ∷ codes "pw";
  owner = codes "ann";
}

abbrev with_hub : Db
with_hub = record (answering sample) { registries = new_row ∷ []; next_registry = 2 }

abbrev token : Text → Text → Text → Text
token user password url = user ++ password

creds_for-create_example :
    (new_row.username ≡ codes "ann")
    × (new_row.owner ≡ codes "ann")
    × ((sent : List HttpRequest)
        → creds_for
            (box_of clear key_box seven token)
            new_row.id
            (record { db = with_hub; sent = sent })
          ≡ (ok (new_row, codes "pw"), record { db = with_hub; sent = sent }))
unfolding Images.create insert_registry statement normalize_host encrypt exists starts_with
creds_for-create_example =
    creds_for-create clear clear-Reads key_box seven token (λ t. refl) (codes "hub")
      (codes "docker.io/") (codes "ann") (codes "pw") (codes "ann") sample with_hub new_row refl
      refl

abbrev environment : Environment
environment name =
    if text_eq name (codes "EASYDEPLOY_ADMIN_PASSWORD")
    then some (codes "secret")
    else if text_eq name (codes "EASYDEPLOY_SECRET_KEY")
    then some (codes "k")
    else none

-- bcrypt and JWT as texts
abbrev hashed : Text → Text
hashed password = codes "#" ++ password

abbrev matches : Text → Text → Bool
matches hash password = text_eq hash (hashed password)

abbrev signed : Claims → Text
signed c = codes "token-" ++ c.subject

abbrev jwt : Jwt
jwt = record { sign = λ secret c. some (signed c); parse = λ secret now t. none }

abbrev machine : Outside
machine = record {
  opens = λ url. true;
  listens = λ addr. true;
  sdk = willing;
  ciphers = clear;
  nonces = seven;
  encode = token;
  hash = λ password. some (hashed password);
  random_secret = some (codes "r");
  now = pos 5;
  to_lower = λ c. c;
  accepts = λ node s. true;
  env_order = λ ids. ids;
  id_order = λ ids. ids;
  decode_env = λ t. [];
  decode_advanced = λ t. Hosts.plain;
  no_advanced = Hosts.plain;
  client_for = λ id. none;
}

abbrev nobody_yet : Db
nobody_yet = record sample { users = [] }

abbrev first_run : Db
first_run = (bootstrap_admin machine.hash (codes "secret") nobody_yet).1

abbrev server : Server
server = record {
  config = load environment;
  docker = here;
  box = key_box;
  jwt_secret = codes "r";
  fleet =
      reconciled machine (load environment) key_box (fleet_of machine (load environment) first_run);
}

started : (run machine environment nobody_yet).0 ≡ ok server
unfolding run load validate text_eq new_local Secret.new bootstrap_admin count_users create_user
    statement count exists settled_secret
started = refl

run-login_example :
    (hash : Text) × ((run machine environment nobody_yet).1.users
      ≡ first_admin hash nobody_yet ∷ [])
    × (login jwt server.jwt_secret matches
          (pos 9)
          (codes "admin")
          (load environment).admin_password
          (answering (run machine environment nobody_yet).1)
        ≡ (
          ok (
            signed (claims_of (first_admin hash nobody_yet) (pos 9)),
            first_admin hash nobody_yet,
          ),
          answering (run machine environment nobody_yet).1,
        ))
run-login_example =
    run-login machine jwt matches environment nobody_yet server (pos 9) signed refl started
      (λ password hash made. text_eq_complete hash (hashed password) (cc made)) (λ c. refl)
