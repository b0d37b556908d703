-- ===== src/Docker/Options.antt =====
-- server/internal/docker/spec.go and client.go: what a deployment asks for, and the fields of
-- Docker's configuration that the code sets.
use easy_deploy.Prelude.{Bool, Option, List, Text}
use easy_deploy.Prelude.Int.{ℤ}
use easy_deploy.Docker.{Labels}

pub record PortMap : Type 0 where
  pub host_ip : Text
  pub host_port : Text
  pub container_port : Text
  pub proto : Text

pub record VolumeMount : Type 0 where
  pub kind : Text
  pub source : Text
  pub target : Text
  pub read_only : Bool

pub record HealthCheck : Type 0 where
  pub test : List Text
  pub interval_sec : ℤ
  pub timeout_sec : ℤ
  pub retries : ℤ
  pub start_sec : ℤ

pub record AdvancedSpec : Type 0 where
  pub ports : List PortMap
  pub mounts : List VolumeMount
  pub command : List Text
  pub entrypoint : List Text
  pub working_dir : Text
  pub user : Text
  pub hostname : Text
  pub labels : Labels
  pub extra_hosts : List Text
  pub restart_policy : Text
  pub restart_retries : ℤ
  pub cap_add : List Text
  pub cap_drop : List Text
  pub privileged : Bool
  pub readonly_rootfs : Bool
  pub init : Bool
  pub dns : List Text
  pub devices : List Text
  pub sysctls : Labels
  pub tmpfs : Labels
  pub pids_limit : ℤ
  pub memory_swap_mb : ℤ
  pub cpu_shares : ℤ
  pub stop_signal : Text
  pub stop_timeout_sec : ℤ
  pub log_driver : Text
  pub log_opts : Labels
  pub health : Option HealthCheck

pub record DeploySpec : Type 0 where
  pub name : Text
  pub image : Text
  pub env : List Text
  pub subdomain : Text
  pub container_port : ℤ
  pub publish : Labels
  pub network : Text
  pub registry_auth : Text
  pub owner : Text
  pub nano_cpus : ℤ
  pub memory_bytes : ℤ
  pub extra_labels : Labels
  pub advanced : AdvancedSpec

-- What is handed to the daemon: the fields of Docker's configuration that the code sets.
pub record HealthConfig : Type 0 where
  pub test : List Text
  pub interval : ℤ
  pub timeout : ℤ
  pub retries : ℤ
  pub start_period : ℤ

pub record Config : Type 0 where
  pub image : Text
  pub env : List Text
  pub labels : Labels
  pub exposed_ports : List Text
  pub cmd : List Text
  pub entrypoint : List Text
  pub working_dir : Text
  pub user : Text
  pub hostname : Text
  pub stop_signal : Text
  pub stop_timeout : Option ℤ
  pub healthcheck : Option HealthConfig

pub data MountType : Type 0 where
  bind volume tmpfs : MountType

pub record Mount : Type 0 where
  pub kind : MountType
  pub source : Text
  pub target : Text
  pub read_only : Bool

pub record DeviceMapping : Type 0 where
  pub path_on_host : Text
  pub path_in_container : Text
  pub cgroup_permissions : Text

-- a published port: the container's port, the host's address and port
abbrev pub Binding : Type 0
Binding = Text × Text × Text

pub record HostConfig : Type 0 where
  pub port_bindings : List Binding
  pub mounts : List Mount
  pub restart_policy : Text × ℤ
  pub cap_add : List Text
  pub cap_drop : List Text
  pub privileged : Bool
  pub readonly_rootfs : Bool
  pub init : Option Bool
  pub dns : List Text
  pub extra_hosts : List Text
  pub sysctls : Labels
  pub tmpfs : Labels
  pub devices : List DeviceMapping
  pub nano_cpus : ℤ
  pub memory : ℤ
  pub pids_limit : Option ℤ
  pub memory_swap : ℤ
  pub cpu_shares : ℤ
  pub log_config : Option (Text × Labels)
