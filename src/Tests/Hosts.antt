-- ===== src/Tests/Hosts.antt =====
-- The containers, the endpoints and the registries on small inputs.
use easy_deploy.Prelude.{
  ◌≡◌, refl, false, Option, none, some, List, [], ◌∷◌, ◌++◌, Text, codes, arith, text_eq,
}
use easy_deploy.Prelude.Int.{ℤ, pos, ◌+ℤ◌}
use easy_deploy.Prelude.Decimal.{atoi, itoa}
use easy_deploy.Prelude.Trim.{trim_space}
use easy_deploy.Prelude.Rows.{first}
use easy_deploy.Effect.{ok}
use easy_deploy.Store.{Registry, Endpoint}
use easy_deploy.Docker.{label_of, label_owner, label_managed, set_label, Labels}
use easy_deploy.Docker.Spec.{PortMap, DeploySpec, AdvancedSpec, Config, HostConfig, deploy_config}
use easy_deploy.Docker.Spec.Labelling.{has_label, deploy_config-disowned}
use easy_deploy.Registry.{Box}
use easy_deploy.Service.Ports.{offset_host_ports}
use easy_deploy.Service.Ports.Collisions.{port_at, offset_host_ports-collides}
use easy_deploy.Endpoint.{
  Hosts, client_for, create, update, remove, change, remember, client_at, build_client, built,
}
use easy_deploy.Endpoint.Caching.{IsFresh, current, operations-IsFresh, remember-stale}
use easy_deploy.Tests.{sample}

abbrev box : Box
box = record {
  encrypt = λ t. some t;
  decrypt = λ t. some t;
  encode = λ user password url. user ++ password;
}

abbrev hub : Registry
hub = record {
  id = pos 1;
  name = codes "hub";
  url = codes "docker.io";
  username = codes "ann";
  password_enc = codes "secret";
  owner = codes "ann";
}

abbrev published : Text → Text → PortMap
published host_port container_port = record {
  host_ip = [];
  host_port = host_port;
  container_port = container_port;
  proto = codes "tcp";
}

abbrev two_ports : List PortMap
two_ports = published (codes "80") (codes "80") ∷ published (codes "81") (codes "443") ∷ []

offset_host_ports-collides_example :
    (mine : PortMap) × (other : PortMap) × (port_at 0 (offset_host_ports two_ports (pos 1))
      ≡ some mine)
    × (port_at 1 (offset_host_ports two_ports (pos 0)) ≡ some other)
    × (mine.host_ip ≡ other.host_ip)
    × (mine.proto ≡ other.proto)
    × (atoi mine.host_port ≡ atoi (trim_space other.host_port))
unfolding atoi trim_space ◌+ℤ◌
offset_host_ports-collides_example =
    offset_host_ports-collides two_ports 0 1 (published (codes "80") (codes "80"))
      (published (codes "81") (codes "443")) (pos 80) refl refl (refl, refl) refl refl (omega arith)

abbrev pub plain : AdvancedSpec
plain = record {
  ports = [];
  mounts = [];
  command = [];
  entrypoint = [];
  working_dir = [];
  user = [];
  hostname = [];
  labels = [];
  extra_hosts = [];
  restart_policy = [];
  restart_retries = pos 0;
  cap_add = [];
  cap_drop = [];
  privileged = false;
  readonly_rootfs = false;
  init = false;
  dns = [];
  devices = [];
  sysctls = [];
  tmpfs = [];
  pids_limit = pos 0;
  memory_swap_mb = pos 0;
  cpu_shares = pos 0;
  stop_signal = [];
  stop_timeout_sec = pos 0;
  log_driver = [];
  log_opts = [];
  health = none;
}

abbrev pub web : DeploySpec
web = record {
  name = codes "web-0";
  image = codes "nginx";
  env = [];
  subdomain = [];
  container_port = pos 80;
  publish = [];
  network = [];
  registry_auth = [];
  owner = codes "ann";
  nano_cpus = pos 500;
  memory_bytes = pos 900;
  extra_labels = [];
  advanced = plain;
}

abbrev escaped : DeploySpec
escaped = record web { advanced = record plain { labels = (label_owner, codes "bob") ∷ [] } }

abbrev port_of : Text → Text → Option Text
port_of proto port = some (port ++ codes "/" ++ proto)

abbrev config_with : Labels → Config
config_with labels = record {
  image = codes "nginx";
  env = [];
  labels = labels;
  exposed_ports = codes "80/tcp" ∷ [];
  cmd = [];
  entrypoint = [];
  working_dir = [];
  user = [];
  hostname = [];
  stop_signal = [];
  stop_timeout = none;
  healthcheck = none;
}

abbrev host_config : HostConfig
host_config = record {
  port_bindings = [];
  mounts = [];
  restart_policy = (codes "unless-stopped", pos 0);
  cap_add = [];
  cap_drop = [];
  privileged = false;
  readonly_rootfs = false;
  init = none;
  dns = [];
  extra_hosts = [];
  sysctls = [];
  tmpfs = [];
  devices = [];
  nano_cpus = pos 500;
  memory = pos 900;
  pids_limit = none;
  memory_swap = pos 0;
  cpu_shares = pos 0;
  log_config = none;
}

abbrev labels_of : Text → Labels
labels_of owner = (label_managed, codes "true") ∷ (label_owner, owner) ∷ []

deploy_config-disowned_example : label_of label_owner (labels_of (codes "bob")) ≡ codes "bob"
unfolding deploy_config itoa text_eq set_label has_label
deploy_config-disowned_example =
    deploy_config-disowned port_of escaped (config_with (labels_of (codes "bob"))) host_config refl
      (codes "bob") [] refl refl

abbrev dial : Text → Option (Text × Text × Text) → Option Text
dial host tls = some host

abbrev sealed : Text → Text
sealed t = t

abbrev berlin : Endpoint
berlin = record {
  id = pos 1;
  name = codes "Berlin";
  host = codes "tcp://a";
  tls_ca_enc = [];
  tls_cert_enc = [];
  tls_key_enc = [];
}

abbrev moved : Endpoint
moved = record berlin { host = codes "tcp://b" }

abbrev hosts : Hosts Text
hosts = record { db = record sample { endpoints = berlin ∷ [] }; clients = [] }

operations-IsFresh_example :
    ((id : ℤ) → IsFresh dial sealed sealed [] (pos 1) (client_for dial sealed sealed [] id hosts).1)
    × ((name host ca cert key : Text)
        → IsFresh dial sealed sealed []
            (pos 1)
            (create dial sealed sealed [] name host ca cert key hosts).1)
    × ((id : ℤ) (name host ca cert key : Text)
        → IsFresh dial sealed sealed []
            (pos 1)
            (update dial sealed sealed [] id name host ca cert key hosts).1)
    × ((id : ℤ) → IsFresh dial sealed sealed [] (pos 1) (remove dial sealed sealed [] id hosts).1)
unfolding client_at
operations-IsFresh_example =
    operations-IsFresh dial sealed sealed [] (pos 1) hosts (λ c there. cc there)

remember-stale_example :
    let between = (build_client dial sealed sealed [] (pos 1) hosts).1 in
    let changed = (change dial sealed sealed [] (pos 1) moved between).1 in
    let after = (remember dial sealed sealed [] (pos 1) (codes "tcp://a") changed).1 in
    ((build_client dial sealed sealed [] (pos 1) hosts).0 ≡ ok (codes "tcp://a"))
    × (current dial sealed sealed [] (pos 1) after.db ≡ some (codes "tcp://b"))
    × ((client_for dial sealed sealed [] (pos 1) after).0 ≡ ok (codes "tcp://a"))
unfolding first built
remember-stale_example =
    remember-stale dial sealed sealed [] (pos 1) (codes "tcp://a") berlin moved hosts refl refl refl
      refl refl
