-- ===== src/Api/Quota.antt =====
-- server/internal/api: the quotas that deploys, services and volumes are held to.
pub mod Limits
use easy_deploy.Prelude.{
  ℕ, ◌^◌, Bool, true, false, not, ◌&&◌, ◌||◌, Option, none, some, List, [], Text, codes, text_eq,
  is_empty, if◌then◌else◌,
}
use easy_deploy.Prelude.Int.{ℤ, pos, int_eq, ltb_ℤ, leb_ℤ, ◌+ℤ◌, ◌-ℤ◌, ◌*ℤ◌, wrap64, quot}
use easy_deploy.Effect.{Result, ok, err, Exec, pure, or_fail, ◌>>=◌, ◌>>◌}
use easy_deploy.Store.{Db, Query, User, Grant}
use easy_deploy.Store.Users.{get_user_by_id, is_admin_row}
use easy_deploy.Store.Grants.{get_user_endpoint_quota}
use easy_deploy.Store.Volumes.{owner_disk_usage_mb}
use easy_deploy.Docker.{ContainerInfo}
use easy_deploy.Docker.Usage.{Daemon, owner_usage, owner_usage_excluding_service}
use easy_deploy.Api.{Principal, is_admin, Reason, from_store, from_docker, refused}

abbrev pub nano_per_milli_cpu : ℕ
nano_per_milli_cpu = 1_000_000

abbrev pub bytes_per_mb : ℕ
bytes_per_mb = 2 ^ 20

-- These functions return a Go error; their callers turn it into a response.
abbrev pub Check : Type 0 → Type 0
Check A = Exec Db Reason A

abbrev pub stored : {A : Type 0} → Query A → Check A
stored = or_fail from_store

abbrev pub reject_if : Bool → Text → Check Unit
reject_if true why db = (err (refused why), db)
reject_if false why db = (ok tt, db)

abbrev pub answered : {A : Type 0} → Option A → Check A
answered none db = (err (from_docker (codes "docker")), db)
answered (some a) db = (ok a, db)

abbrev pub no_access : Text
no_access = codes "no access to this environment"

abbrev pub cpu_and_mem : Option Grant → Check (ℤ × ℤ)
cpu_and_mem none db = (err (refused no_access), db)
cpu_and_mem (some g) db = (ok (g.cpu_quota_milli, g.mem_quota_mb), db)

-- The CPU and memory quota on the environment: the base quota locally, else that of the grant.
unfoldable pub env_quota : User → ℤ → Check (ℤ × ℤ)
env_quota user env =
    if int_eq env (pos 0)
    then pure (user.cpu_quota_milli, user.mem_quota_mb)
    else (stored (get_user_endpoint_quota user.id env) >>= cpu_and_mem)

-- The last test, on what is in use (nano-cores, bytes) and what is asked for (millicores, MB).
unfoldable pub exceeds : ℤ × ℤ → ℤ × ℤ → ℤ → ℤ → Bool
exceeds (quota_cpu, quota_mem) (used_nano, used_mem) cpu_milli mem_mb =
    ltb_ℤ quota_cpu (wrap64 (quot used_nano nano_per_milli_cpu +ℤ cpu_milli))
    || ltb_ℤ quota_mem (wrap64 (quot used_mem bytes_per_mb +ℤ mem_mb))

-- The checks for a member, once the user is read.
unfoldable pub member_service_quota : User → ℤ → Option Daemon → ℤ → ℤ → ℤ → Text → Check Text
member_service_quota user env client replicas cpu_milli mem_mb exclude_service = do
  quota ← env_quota user env
  reject_if (leb_ℤ quota.0 (pos 0) || leb_ℤ quota.1 (pos 0))
      (codes "no resource quota granted yet on this environment")
  reject_if (leb_ℤ cpu_milli (pos 0) || leb_ℤ mem_mb (pos 0))
      (codes "cpu (millicores) and memory (MB) per replica are required")
  cli ← answered client
  used ← answered (owner_usage_excluding_service cli user.username exclude_service)
  reject_if (exceeds quota used (wrap64 (replicas *ℤ cpu_milli)) (wrap64 (replicas *ℤ mem_mb)))
      (codes "exceeds quota")
  pure user.username

-- handlers_services.go. `client` is the daemon of the request's environment.
unfoldable pub enforce_service_quota : Principal → ℤ → Option Daemon → ℤ → ℤ → ℤ → Text → Check Text
enforce_service_quota p env client replicas cpu_milli mem_mb exclude_service = do
  user ← stored (get_user_by_id p.user_id)
  if is_admin_row user
      then pure user.username
      else member_service_quota user env client replicas cpu_milli mem_mb exclude_service

-- the limits of one container, if it can be inspected
abbrev pub own_limits : Option ContainerInfo → ℤ × ℤ
own_limits none = (pos 0, pos 0)
own_limits (some info) = elim info.limits [ none ↦ (pos 0, pos 0) | some l ↦ l ]

abbrev pub at_least_zero : ℤ → ℤ
at_least_zero n = if ltb_ℤ n (pos 0) then pos 0 else n

pub record Resources : Type 0 where
  pub owner : Text
  pub nano_cpus : ℤ
  pub mem_bytes : ℤ

abbrev pub resources_for : User → ℤ → ℤ → Resources
resources_for user cpu_milli mem_mb = record {
  owner = user.username;
  nano_cpus = wrap64 (cpu_milli *ℤ pos nano_per_milli_cpu);
  mem_bytes = wrap64 (mem_mb *ℤ pos bytes_per_mb);
}

-- What the owner uses without the container that is being replaced.
unfoldable pub usage_without : Daemon → Text → ℤ × ℤ → ℤ × ℤ
usage_without d exclude_id (used_nano, used_mem) =
    if is_empty exclude_id then (at_least_zero used_nano, at_least_zero used_mem) else (
      at_least_zero (wrap64 (used_nano -ℤ (own_limits (d.inspect exclude_id)).0)),
      at_least_zero (wrap64 (used_mem -ℤ (own_limits (d.inspect exclude_id)).1)),
    )

-- handlers_users.go. `local` is the daemon of the local host, whatever the request's environment.
unfoldable pub resolve_resources : Principal → Daemon → Text → ℤ → ℤ → Check Resources
resolve_resources p local exclude_id cpu_milli mem_mb = do
  user ← stored (get_user_by_id p.user_id)
  if is_admin_row user then pure (resources_for user cpu_milli mem_mb) else do
    reject_if (leb_ℤ user.cpu_quota_milli (pos 0) || leb_ℤ user.mem_quota_mb (pos 0))
        (codes "no resource quota granted yet")
    reject_if (leb_ℤ cpu_milli (pos 0) || leb_ℤ mem_mb (pos 0))
        (codes "cpu (millicores) and memory (MB) are required")
    total ← answered (owner_usage local user.username)
    let used = usage_without local exclude_id total
    reject_if (exceeds (user.cpu_quota_milli, user.mem_quota_mb) used cpu_milli mem_mb)
        (codes "exceeds quota")
    pure (resources_for user cpu_milli mem_mb)

abbrev pub disk_of : Option Grant → Check ℤ
disk_of none db = (err (refused no_access), db)
disk_of (some g) db = (ok g.disk_quota_mb, db)

unfoldable pub disk_quota : User → ℤ → Check ℤ
disk_quota user env =
    if int_eq env (pos 0)
    then pure user.disk_quota_mb
    else (stored (get_user_endpoint_quota user.id env) >>= disk_of)

-- handlers_manage.go
unfoldable pub enforce_volume_quota : Principal → ℤ → ℤ → Text → Check Text
unfolding disk_quota
enforce_volume_quota p env size_mb exclude_name = if is_admin p then pure p.username else do
  user ← stored (get_user_by_id p.user_id)
  quota ← disk_quota user env
  reject_if (leb_ℤ quota (pos 0)) (codes "no storage quota granted yet on this environment")
  reject_if (leb_ℤ size_mb (pos 0)) (codes "volume size (MB) is required")
  used ← stored (owner_disk_usage_mb env user.username exclude_name)
  reject_if (ltb_ℤ quota (wrap64 (used +ℤ size_mb))) (codes "exceeds storage quota")
  pure user.username
