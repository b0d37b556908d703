-- ===== src/Api/Quota/Limits.antt =====
-- What a passed quota check guarantees.
use mathlib.Core.Option
use easy_deploy.Prelude.{
  Option-cases, inl, inr, ◌≡◌, ◌↔◌, true, false, Option, none, some, List, arith, Text,
  if◌then◌else◌,
}
use easy_deploy.Prelude.Int.{
  ℤ, pos, int_eq, ◌≤ℤ◌, ltb_ℤ, ◌+ℤ◌, ◌*ℤ◌, quot, wrap64, Fits64, wrap64-Fits64,
}
use easy_deploy.Prelude.Rows.{first}
use easy_deploy.Effect.{ok, err}
use easy_deploy.Store.{answering, Db, User, Grant, statement}
use easy_deploy.Store.Users.{get_user_by_id, is_admin_row}
use easy_deploy.Store.Grants.{get_user_endpoint_quota, is_grant}
use easy_deploy.Docker.Usage.{Daemon, owner_usage_excluding_service}
use easy_deploy.Api.{Principal, refused}
use easy_deploy.Api.Quota.{
  no_access, enforce_service_quota, member_service_quota, exceeds, env_quota, nano_per_milli_cpu,
  bytes_per_mb,
}

abbrev pub IsPositive : ℤ → Type 0
IsPositive n = ltb_ℤ (pos 0) n ≡ true

-- The quota that the check uses for a member on an environment.
abbrev pub quota_on : User → ℤ → List Grant → Option (ℤ × ℤ)
quota_on user env grants =
    if int_eq env (pos 0)
    then some (user.cpu_quota_milli, user.mem_quota_mb)
    else Option.map (λ (g : Grant). (g.cpu_quota_milli, g.mem_quota_mb))
        (first (is_grant user.id env) grants)

-- What the member uses on the host, in millicores and MB, with `n` replicas more.
abbrev pub cpu_with : ℤ × ℤ → ℤ → ℤ → ℤ
cpu_with used n cpu_milli = quot used.0 nano_per_milli_cpu +ℤ n *ℤ cpu_milli

abbrev pub mem_with : ℤ × ℤ → ℤ → ℤ → ℤ
mem_with used n mem_mb = quot used.1 bytes_per_mb +ℤ n *ℤ mem_mb

pub record IsWithin (quota used : ℤ × ℤ) (replicas cpu_milli mem_mb : ℤ) : Type 0 where
  pub cpu_granted : IsPositive quota.0
  pub mem_granted : IsPositive quota.1
  pub cpu_given : IsPositive cpu_milli
  pub mem_given : IsPositive mem_mb
  pub cpu_room : cpu_with used replicas cpu_milli ≤ℤ quota.0
  pub mem_room : mem_with used replicas mem_mb ≤ℤ quota.1

-- No sum or product leaves the range of `int64`.
pub record NoOverflow (used : ℤ × ℤ) (replicas cpu_milli mem_mb : ℤ) : Type 0 where
  pub cpu_product : Fits64 (replicas *ℤ cpu_milli)
  pub mem_product : Fits64 (replicas *ℤ mem_mb)
  pub cpu_sum : Fits64 (cpu_with used replicas cpu_milli)
  pub mem_sum : Fits64 (mem_with used replicas mem_mb)

exceeds_iff :
    (quota used : ℤ × ℤ) (replicas cpu_milli mem_mb : ℤ)
    → NoOverflow used replicas cpu_milli mem_mb
    → (exceeds quota used (wrap64 (replicas *ℤ cpu_milli)) (wrap64 (replicas *ℤ mem_mb)) ≡ false)
      ↔ ((cpu_with used replicas cpu_milli ≤ℤ quota.0) × (mem_with used replicas mem_mb ≤ℤ quota.1))
unfolding exceeds
exceeds_iff quota used replicas cpu_milli mem_mb v =
    rw (wrap64-Fits64 (replicas *ℤ cpu_milli) v.cpu_product) (
      rw (wrap64-Fits64 (replicas *ℤ mem_mb) v.mem_product) (
        rw (wrap64-Fits64 (cpu_with used replicas cpu_milli) v.cpu_sum)
          (rw (wrap64-Fits64 (mem_with used replicas mem_mb) v.mem_sum) (ground arith))))

-- A quota that is there and has room.
abbrev pub Admits : Option (ℤ × ℤ) → ℤ × ℤ → ℤ → ℤ → ℤ → Type 0
Admits none used replicas cpu_milli mem_mb = ⊥
Admits (some quota) used replicas cpu_milli mem_mb = IsWithin quota used replicas cpu_milli mem_mb

env_quota-answering :
    (user : User) (env : ℤ) (db : Db)
    → env_quota user env (answering db) ≡ (
      elim (quota_on user env db.grants) [ none ↦ err (refused no_access) | some q ↦ ok q ],
      answering db,
    )
unfolding env_quota get_user_endpoint_quota statement
env_quota-answering user env db = ground arith

module _ (p : Principal) (user : User) (env replicas cpu_milli mem_mb : ℤ) (exclude_service : Text)
    (d : Daemon) (used : ℤ × ℤ) (db : Db)
    (read : first (λ (u : User). int_eq u.id p.user_id) db.users ≡ some user)
    (member : is_admin_row user ≡ false)
    (usage : owner_usage_excluding_service d user.username exclude_service ≡ some used)
    (v : NoOverflow used replicas cpu_milli mem_mb) where
  member_service_quota_iff :
      ((member_service_quota user env
          (some d)
          replicas
          cpu_milli
          mem_mb
          exclude_service
          (answering db)).0
        ≡ ok user.username)
      ↔ Admits (quota_on user env db.grants) used replicas cpu_milli mem_mb
  unfolding member_service_quota
  member_service_quota_iff =
      rw (env_quota-answering user env db) (elim (Option-cases (quota_on user env db.grants)) [
        | inl none_there ↦ rw none_there (ground arith)
        | inr (quota, there) ↦
            rw there (ground (arith, exceeds_iff quota used replicas cpu_milli mem_mb v))
      ])

  -- When the database and the daemon answer, the service of a member passes the check exactly when
  -- quota and requested limits are positive and what runs on the host together with the new
  -- replicas fits the quota there; a remote host without a grant has none. No sum or product may
  -- leave the range of `int64`.
  pub enforce_service_quota_iff :
      ((enforce_service_quota p env
          (some d)
          replicas
          cpu_milli
          mem_mb
          exclude_service
          (answering db)).0
        ≡ ok user.username)
      ↔ Admits (quota_on user env db.grants) used replicas cpu_milli mem_mb
  unfolding enforce_service_quota get_user_by_id statement
  enforce_service_quota_iff = rw read (rw member member_service_quota_iff)
