-- ===== src/Api/Account.antt =====
-- server/internal/api/handlers_users.go: what the signed-in user sees of quota and usage.
use easy_deploy.Prelude.{◌≡◌, Option, none, some, [], arith, Text, if◌then◌else◌}
use easy_deploy.Prelude.Int.{ℤ, pos, int_eq, quot}
use easy_deploy.Prelude.Rows.{first}
use easy_deploy.Effect.{Result, ok, err, pure, attempt, ◌>>=◌}
use easy_deploy.Store.{answering, Db, User, StoreError, statement}
use easy_deploy.Store.Users.{get_user_by_id}
use easy_deploy.Store.Grants.{get_user_endpoint_quota}
use easy_deploy.Store.Volumes.{owner_disk_usage_mb}
use easy_deploy.Docker.Usage.{Daemon, owner_usage}
use easy_deploy.Api.{Principal, Failure, Handler, or_status}
use easy_deploy.Api.Quota.{nano_per_milli_cpu, bytes_per_mb}
use easy_deploy.Api.Quota.Limits.{quota_on}
use easy_deploy.Api.Reviews.{Amounts, user_amounts, grant_amounts}

pub record Profile : Type 0 where
  pub username : Text
  pub role : Text
  pub quota : Amounts
  pub cpu_used_milli : ℤ
  pub mem_used_mb : ℤ
  pub disk_used_mb : ℤ

-- the base quota locally, else that of the grant; a missing grant or a failed read shows nothing
unfoldable pub shown_quota : User → ℤ → Handler Amounts
shown_quota user env =
    if int_eq env (pos 0)
    then pure (user_amounts (ok user))
    else (do g ← attempt (get_user_endpoint_quota user.id env); pure (grant_amounts g))

abbrev pub or_nothing : Option (ℤ × ℤ) → ℤ × ℤ
or_nothing none = (pos 0, pos 0)
or_nothing (some used) = used

-- Live usage on the host; nothing where the host or its list cannot be had.
abbrev pub live_usage : Option Daemon → Text → ℤ × ℤ
live_usage none owner = (pos 0, pos 0)
live_usage (some d) owner = or_nothing (owner_usage d owner)

abbrev pub or_zero : Result StoreError ℤ → ℤ
or_zero (ok n) = n
or_zero (err e) = pos 0

unfoldable pub handle_me : Principal → ℤ → Option Daemon → Handler Profile
unfolding shown_quota
handle_me p env client = do
  user ← or_status 401 (get_user_by_id p.user_id)
  quota ← shown_quota user env
  let used = live_usage client user.username
  disk ← attempt (owner_disk_usage_mb env user.username [])
  pure (record {
    username = user.username;
    role = user.role;
    quota = quota;
    cpu_used_milli = quot used.0 nano_per_milli_cpu;
    mem_used_mb = quot used.1 bytes_per_mb;
    disk_used_mb = or_zero disk;
  })

-- The CPU and memory quota of an answer, where none stands for no grant.
abbrev pub IsShown : Option (ℤ × ℤ) → Result Failure Profile → Type 0
IsShown none (ok profile) = (profile.quota.cpu_milli ≡ pos 0) × (profile.quota.mem_mb ≡ pos 0)
IsShown (some (cpu, mem)) (ok profile) =
    (profile.quota.cpu_milli ≡ cpu) × (profile.quota.mem_mb ≡ mem)
IsShown quota (err f) = ⊥

-- When the database answers and has the user, the quota that is shown for an environment is the one
-- that services there are checked against, and zero where the user has no grant.
pub handle_me-IsShown :
    (p : Principal) (user : User) (env : ℤ) (client : Option Daemon) (db : Db)
    → first (λ (u : User). int_eq u.id p.user_id) db.users ≡ some user
    → IsShown (quota_on user env db.grants) (handle_me p env client (answering db)).0
unfolding handle_me get_user_by_id get_user_endpoint_quota owner_disk_usage_mb statement
handle_me-IsShown p user env client db known = rw known (ground arith)
