-- ===== src/Api/Services/Covers.antt =====
-- The quota that a service is checked against covers every replica count that it can reach by
-- itself.
use easy_deploy.Prelude.{◌≡◌, true, false, Option, none, some, List, Text, arith}
use easy_deploy.Prelude.Int.{ℤ, pos, int_eq, ◌≤ℤ◌, ◌+ℤ◌, ◌*ℤ◌, quot, *ℤ_mono, +ℤ_parts}
use easy_deploy.Prelude.Rows.{first}
use easy_deploy.Effect.{ok}
use easy_deploy.Store.{answering, Db, User}
use easy_deploy.Store.Users.{is_admin_row}
use easy_deploy.Docker.Usage.{Daemon, owner_usage_excluding_service}
use easy_deploy.Api.{Principal}
use easy_deploy.Api.Quota.{enforce_service_quota, nano_per_milli_cpu, bytes_per_mb}
use easy_deploy.Service.Scaler.{
  Float64, scale_request, scale_request_bounds, scale_request_autoscale,
}
use easy_deploy.Api.Quota.Limits.{IsWithin, Admits, NoOverflow, quota_on, enforce_service_quota_iff}
use easy_deploy.Api.Services.{ServiceRequest, normalize, effective_replicas, service_of}

-- What the handlers store: at least one replica, bounds in order, and a target above zero.
pub record IsNormal (req : ServiceRequest) : Type 0 where
  pub some_replica : pos 1 ≤ℤ req.replicas
  pub some_minimum : pos 1 ≤ℤ req.min_replicas
  pub replicas_below : req.replicas ≤ℤ req.max_replicas
  pub ordered : req.min_replicas ≤ℤ req.max_replicas
  pub target : pos 1 ≤ℤ req.target_cpu_pct

-- Whatever a request says, the settings that the handlers go on with have at least one replica, a
-- minimum of at least one, a maximum that is not below either, and a positive CPU target.
pub normalize-IsNormal : (req : ServiceRequest) → IsNormal (normalize req)
unfolding normalize
normalize-IsNormal req = ground arith

sum_mono : (x a b c : ℤ) → a ≤ℤ b → x +ℤ b ≤ℤ c → x +ℤ a ≤ℤ c
sum_mono x a b c h k = omega (arith, +ℤ_parts x a, +ℤ_parts x b)

le_sum : (a b x c : ℤ) → a ≤ℤ b → b +ℤ x ≤ℤ c → a +ℤ x ≤ℤ c
le_sum a b x c h k = omega (arith, +ℤ_parts a x, +ℤ_parts b x)

fewer_IsWithin :
    (quota used : ℤ × ℤ) (n m cpu_milli mem_mb : ℤ)
    → n ≤ℤ m
    → IsWithin quota used m cpu_milli mem_mb
    → IsWithin quota used n cpu_milli mem_mb
fewer_IsWithin quota used n m cpu_milli mem_mb h w = record {
  cpu_granted = w.cpu_granted;
  mem_granted = w.mem_granted;
  cpu_given = w.cpu_given;
  mem_given = w.mem_given;
  cpu_room = sum_mono _ _ _ _ (*ℤ_mono n m cpu_milli h w.cpu_given) w.cpu_room;
  mem_room = sum_mono _ _ _ _ (*ℤ_mono n m mem_mb h w.mem_given) w.mem_room;
}

max-le-effective :
    (req : ServiceRequest) → req.autoscale ≡ true → req.max_replicas ≤ℤ effective_replicas req
unfolding effective_replicas
max-le-effective req h = ground arith

quot-cpu_mono : (a b : ℤ) → a ≤ℤ b → quot a nano_per_milli_cpu ≤ℤ quot b nano_per_milli_cpu
unfolding quot
quot-cpu_mono a b h = ground arith

quot-mem_mono : (a b : ℤ) → a ≤ℤ b → quot a bytes_per_mb ≤ℤ quot b bytes_per_mb
unfolding quot
quot-mem_mono a b h = ground arith

less_IsWithin :
    (quota used later : ℤ × ℤ) (n cpu_milli mem_mb : ℤ)
    → later.0 ≤ℤ used.0
    → later.1 ≤ℤ used.1
    → IsWithin quota used n cpu_milli mem_mb
    → IsWithin quota later n cpu_milli mem_mb
less_IsWithin quota used later n cpu_milli mem_mb h k w = record {
  cpu_granted = w.cpu_granted;
  mem_granted = w.mem_granted;
  cpu_given = w.cpu_given;
  mem_given = w.mem_given;
  cpu_room = le_sum _ _ (n *ℤ cpu_milli) _ (quot-cpu_mono later.0 used.0 h) w.cpu_room;
  mem_room = le_sum _ _ (n *ℤ mem_mb) _ (quot-mem_mono later.1 used.1 k) w.mem_room;
}

covers_Admits :
    (quota : Option (ℤ × ℤ)) (used later : ℤ × ℤ) (n m cpu_milli mem_mb : ℤ)
    → n ≤ℤ m
    → later.0 ≤ℤ used.0
    → later.1 ≤ℤ used.1
    → Admits quota used m cpu_milli mem_mb
    → Admits quota later n cpu_milli mem_mb
covers_Admits none used later n m cpu_milli mem_mb h a b w = w
covers_Admits (some quota) used later n m cpu_milli mem_mb h a b w =
    less_IsWithin quota used later n cpu_milli mem_mb a b
      (fewer_IsWithin quota used n m cpu_milli mem_mb h w)

module _ (fl : Float64) (p : Principal) (user : User) (env : ℤ) (req : ServiceRequest)
    (exclude_service token : Text) (d : Daemon) (used later : ℤ × ℤ) (db : Db)
    (read : first (λ (u : User). int_eq u.id p.user_id) db.users ≡ some user)
    (member : is_admin_row user ≡ false)
    (usage : owner_usage_excluding_service d user.username exclude_service ≡ some used)
    (v : NoOverflow used (effective_replicas (normalize req)) req.cpu_milli req.mem_mb) where
  -- If a member's request passes the quota check, whose sums and products fit `int64`, when the
  -- database and the daemon answer, then with any replica count that the autoscaler asks for when
  -- it looks at the service of that request the member stays within the quota on that environment.
  -- The quota is the one that the check read, and what else the member then uses on the host is not
  -- more than what the check counted.
  pub autoscaler-IsWithin :
      (enforce_service_quota p env
          (some d)
          (effective_replicas (normalize req))
          req.cpu_milli
          req.mem_mb
          exclude_service
          (answering db)).0
        ≡ ok user.username
      → (n : ℤ) (reps : Option (List (Option fl.F)))
      → scale_request fl (service_of (normalize req) user.username token env) reps ≡ some n
      → later.0 ≤ℤ used.0
      → later.1 ≤ℤ used.1
      → Admits (quota_on user env db.grants) later n req.cpu_milli req.mem_mb
  unfolding service_of
  autoscaler-IsWithin passed n reps asked less_cpu less_mem =
      let svc = service_of (normalize req) user.username token env in
      let m = effective_replicas (normalize req) in
      let (above, below) =
        scale_request_bounds fl svc reps n (normalize-IsNormal req).ordered asked in
      let top = max-le-effective (normalize req) (scale_request_autoscale fl svc reps n asked) in
      covers_Admits (quota_on user env db.grants) used later n m req.cpu_milli req.mem_mb
        (omega (arith, below, top)) less_cpu less_mem
        ((enforce_service_quota_iff p user env m req.cpu_milli req.mem_mb exclude_service d used db
            read member usage v).0
          passed)
