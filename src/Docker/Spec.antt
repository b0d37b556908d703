-- ===== src/Docker/Spec.antt =====
-- server/internal/docker/spec.go and client.go: the container that a deployment asks the daemon for.
pub mod Labelling
use easy_deploy.Prelude.{
  ℕ, ◌^◌, Bool, true, false, not, ◌&&◌, ◌||◌, Option, none, some, List, [], ◌∷◌, ◌++◌, map, Text,
  codes, text_eq, is_empty, ◌==◌, if◌then◌else◌,
}
use easy_deploy.Prelude.Int.{ℤ, pos, ltb_ℤ, ◌*ℤ◌, wrap64}
use easy_deploy.Prelude.Decimal.{itoa}
pub use easy_deploy.Docker.Options.{
  PortMap, VolumeMount, HealthCheck, AdvancedSpec, DeploySpec, HealthConfig, Config, MountType,
  Mount, DeviceMapping, Binding, HostConfig, bind, volume, tmpfs,
}
use easy_deploy.Docker.{Labels, set_label, label_managed, label_subdomain, label_owner}

unfoldable pub or_string : Text → Text → Text
or_string cur next = if is_empty next then cur else next

abbrev or_list : List Text → List Text → List Text
or_list cur next = if is_empty next then cur else next

abbrev or_labels : Labels → Labels → Labels
or_labels cur next = if is_empty next then cur else next

abbrev pub is_positive : ℤ → Bool
is_positive n = ltb_ℤ (pos 0) n

-- The loop of `splitColon`: the parts of the text, where `cur` was read of the first.
unfoldable pub split_from : Text → Text → List Text
split_from cur [] = cur ∷ []
split_from cur (c ∷ s) =
    let next = cur ∷ split_from [] s in
    let more = split_from (cur ++ c ∷ []) s in if c == b':' then next else more

unfoldable pub split_colon : Text → List Text
unfolding split_from
split_colon s = split_from [] s

abbrev pub default_perms : Text
default_perms = codes "rwm"

abbrev device : Text → Text → Text → DeviceMapping
device host cont perms = record {
  path_on_host = host;
  path_in_container = cont;
  cgroup_permissions = perms;
}

unfoldable device_of : Text → List Text → DeviceMapping
device_of spec (h ∷ []) = device h h default_perms
device_of spec (h ∷ c ∷ []) = device h c default_perms
device_of spec (h ∷ c ∷ p ∷ []) = device h c p
device_of spec parts = device spec spec default_perms

unfoldable pub parse_device : Text → DeviceMapping
unfolding split_colon device_of
parse_device spec = device_of spec (split_colon spec)

-- `for k, v := range m { labels[k] = v }`
unfoldable pub set_labels : Labels → Labels → Labels
set_labels [] labels = labels
set_labels ((k, v) ∷ rest) labels = set_labels rest (set_label k v labels)

abbrev seconds : ℤ → ℤ
seconds n = wrap64 (n *ℤ pos 1_000_000_000)

abbrev health_config : HealthCheck → HealthConfig
health_config h = record {
  test = h.test;
  interval = seconds h.interval_sec;
  timeout = seconds h.timeout_sec;
  retries = h.retries;
  start_period = seconds h.start_sec;
}

abbrev or_health : Option HealthConfig → Option HealthCheck → Option HealthConfig
or_health cur none = cur
or_health cur (some h) = if is_empty h.test then cur else some (health_config h)

-- The first part of `applyAdvanced`: the container's own settings.
unfoldable pub apply_config : AdvancedSpec → Config → Config
unfolding or_string set_labels
apply_config s cfg = record cfg {
  cmd = or_list cfg.cmd s.command;
  entrypoint = or_list cfg.entrypoint s.entrypoint;
  working_dir = or_string cfg.working_dir s.working_dir;
  user = or_string cfg.user s.user;
  hostname = or_string cfg.hostname s.hostname;
  stop_signal = or_string cfg.stop_signal s.stop_signal;
  labels = set_labels s.labels cfg.labels;
  stop_timeout =
      if is_positive s.stop_timeout_sec then some s.stop_timeout_sec else cfg.stop_timeout;
  healthcheck = or_health cfg.healthcheck s.health;
}

abbrev mount_type : Text → MountType
mount_type t =
    if text_eq t (codes "volume") then volume else if text_eq t (codes "tmpfs") then tmpfs else bind

unfoldable pub mounts_of : List VolumeMount → List Mount
mounts_of [] = []
mounts_of (m ∷ ms) =
    let rest = mounts_of ms in
    if is_empty m.target
    then rest
    else record {
      kind = mount_type m.kind;
      source = m.source;
      target = m.target;
      read_only = m.read_only;
    }
      ∷ rest

-- The last part: the host's settings, after the ports.
unfoldable pub apply_host : AdvancedSpec → HostConfig → HostConfig
unfolding mounts_of parse_device
apply_host s h = record h {
  mounts = h.mounts ++ mounts_of s.mounts;
  restart_policy =
      if is_empty s.restart_policy then h.restart_policy else (s.restart_policy, s.restart_retries);
  cap_add = or_list h.cap_add s.cap_add;
  cap_drop = or_list h.cap_drop s.cap_drop;
  privileged = h.privileged || s.privileged;
  readonly_rootfs = h.readonly_rootfs || s.readonly_rootfs;
  init = if s.init then some true else h.init;
  dns = or_list h.dns s.dns;
  extra_hosts = or_list h.extra_hosts s.extra_hosts;
  sysctls = or_labels h.sysctls s.sysctls;
  tmpfs = or_labels h.tmpfs s.tmpfs;
  devices = h.devices ++ map parse_device s.devices;
  pids_limit = if is_positive s.pids_limit then some s.pids_limit else h.pids_limit;
  memory_swap =
      if is_positive s.memory_swap_mb
      then wrap64 (s.memory_swap_mb *ℤ pos (2 ^ 20))
      else h.memory_swap;
  cpu_shares = if is_positive s.cpu_shares then s.cpu_shares else h.cpu_shares;
  log_config = if is_empty s.log_driver then h.log_config else some (s.log_driver, s.log_opts);
}

abbrev or_else : Text → Text → Text
or_else t default = if is_empty t then default else t

abbrev pub all_addresses : Text
all_addresses = codes "0.0.0.0"

-- the text before the first slash, and the one after it, if there is one
unfoldable pub cut_slash : Text → Text × Option Text
cut_slash [] = ([], none)
cut_slash (c ∷ s) =
    let rest = cut_slash s in if c == b'/' then ([], some s) else (c ∷ rest.0, rest.1)

abbrev protocol : Option Text → Text
protocol none = codes "tcp"
protocol (some p) = p

unfoldable pub own_labels : DeploySpec → Labels
own_labels spec =
    let managed : Labels = (label_managed, codes "true") ∷ [] in
    let routed =
      if is_empty spec.subdomain
      then managed
      else set_label label_subdomain spec.subdomain managed in
    if is_empty spec.owner then routed else set_label label_owner spec.owner routed

-- `new_port proto port` is go-connections' `nat.NewPort`, which refuses what is no port.
module _ (new_port : Text → Text → Option Text) where
  abbrev add_port : Binding → Option (List Binding) → Option (List Binding)
  add_port b none = none
  add_port b (some bs) = some (b ∷ bs)

  abbrev bound : Text → Text → Option Text → Option (List Binding) → Option (List Binding)
  bound host_ip host_port none rest = none
  bound host_ip host_port (some port) rest = add_port (port, host_ip, host_port) rest

  -- The ports of the advanced options, or nothing at the first that is refused.
  unfoldable pub extra_ports : List PortMap → Option (List Binding)
  extra_ports [] = some []
  extra_ports (p ∷ ps) =
      let rest = extra_ports ps in
      if is_empty p.container_port
      then rest
      else bound (or_else p.host_ip all_addresses) p.host_port
          (new_port (or_else p.proto (codes "tcp")) p.container_port) rest

  -- The ports of `Publish`, from the host's port to the container's.
  unfoldable pub published_ports : Labels → Option (List Binding)
  unfolding cut_slash
  published_ports [] = some []
  published_ports ((host_port, target) ∷ rest) =
      let cut = cut_slash target in
      bound all_addresses host_port (new_port (protocol cut.1) cut.0) (published_ports rest)

  abbrev served_port : ℤ → Option (List Text)
  served_port n =
      if is_positive n
      then elim (new_port (codes "tcp") (itoa n)) [ none ↦ none | some p ↦ some (p ∷ []) ]
      else some []

  -- `buildPorts`: the exposed ports and the bindings.
  unfoldable pub build_ports : DeploySpec → Option (List Text × List Binding)
  unfolding published_ports
  build_ports spec = elim (served_port spec.container_port) [
    | none ↦ none
    | some own ↦ elim (published_ports spec.publish) [
      | none ↦ none
      | some bs ↦ some (own ++ map (λ (b : Binding). b.0) bs, bs)
    ]
  ]

  unfoldable pub apply_advanced : AdvancedSpec → Config × HostConfig → Option (Config × HostConfig)
  unfolding apply_config apply_host extra_ports
  apply_advanced s (cfg, host) = elim (extra_ports s.ports) [
    | none ↦ none
    | some bs ↦ some (
      record (apply_config s cfg) {
        exposed_ports = cfg.exposed_ports ++ map (λ (b : Binding). b.0) bs;
      },
      record (apply_host s host) { port_bindings = host.port_bindings ++ bs },
    )
  ]

  -- The labels that EasyDeploy sets, before the advanced options.
  unfoldable pub base_labels : DeploySpec → Labels
  unfolding set_labels own_labels
  base_labels spec = set_labels spec.extra_labels (own_labels spec)

  abbrev base_config : DeploySpec → List Text → Config
  base_config spec exposed = record {
    image = spec.image;
    env = spec.env;
    labels = base_labels spec;
    exposed_ports = exposed;
    cmd = [];
    entrypoint = [];
    working_dir = [];
    user = [];
    hostname = [];
    stop_signal = [];
    stop_timeout = none;
    healthcheck = none;
  }

  abbrev base_host : DeploySpec → List Binding → HostConfig
  base_host spec bindings = record {
    port_bindings = bindings;
    mounts = [];
    restart_policy = (codes "unless-stopped", pos 0);
    cap_add = [];
    cap_drop = [];
    privileged = false;
    readonly_rootfs = false;
    init = none;
    dns = [];
    extra_hosts = [];
    sysctls = [];
    tmpfs = [];
    devices = [];
    nano_cpus = spec.nano_cpus;
    memory = spec.memory_bytes;
    pids_limit = none;
    memory_swap = pos 0;
    cpu_shares = pos 0;
    log_config = none;
  }

  -- The configuration that `Deploy` creates the container with; none where a port is refused.
  unfoldable pub deploy_config : DeploySpec → Option (Config × HostConfig)
  unfolding base_labels build_ports apply_advanced
  deploy_config spec = elim (build_ports spec) [
    | none ↦ none
    | some (exposed, bindings) ↦
        apply_advanced spec.advanced (base_config spec exposed, base_host spec bindings)
  ]
