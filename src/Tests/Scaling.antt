-- ===== src/Tests/Scaling.antt =====
-- The autoscaler of server/internal/service, with whole numbers in place of float64.
use easy_deploy.Prelude.{◌≡◌, ◌⊎◌, refl, some, [], ◌∷◌, codes, true, arith, text_eq}
use easy_deploy.Prelude.Int.{ℤ, pos, pos_part, ◌≤ℤ◌, ◌+ℤ◌, ◌-ℤ◌, ◌*ℤ◌, ltb_ℤ, quot, wrap64}
use easy_deploy.Store.{Service}
use easy_deploy.Service.Scaler.{
  Float64, scale_request, average_cpu, scale_request_bounds, scale_request_step,
}
use easy_deploy.Prelude.Rows.{first}
use easy_deploy.Store.{statement}
use easy_deploy.Store.Users.{get_user_by_id}
use easy_deploy.Docker.Usage.{owner_usage_excluding_service, sum_usage}
use easy_deploy.Api.Quota.{enforce_service_quota, exceeds, member_service_quota, env_quota}
use easy_deploy.Api.Quota.Limits.{IsWithin}
use easy_deploy.Tests.{ann, as_ann, sample}
use easy_deploy.Tests.Handlers.{one_container, in_use}
use easy_deploy.Api.Services.{ServiceRequest, normalize, service_of, effective_replicas, clamp_min}
use easy_deploy.Api.Services.Covers.{IsNormal, normalize-IsNormal, autoscaler-IsWithin}

abbrev whole : Float64
whole = record {
  F = ℤ;
  of_int = λ n. n;
  add = λ a b. a +ℤ b;
  div = λ a b. quot a (pos_part b);
  lt = ltb_ℤ;
}

abbrev web_request : ServiceRequest
web_request = record {
  name = codes "web";
  image = codes "nginx";
  subdomain = [];
  container_port = pos 80;
  network = [];
  env = [];
  cpu_milli = pos 100;
  mem_mb = pos 64;
  replicas = pos 2;
  min_replicas = pos 1;
  max_replicas = pos 4;
  autoscale = true;
  target_cpu_pct = pos 50;
  git_repo = [];
  git_branch = [];
  git_dockerfile = [];
  advanced = [];
}

abbrev web : Service
web = service_of (normalize web_request) (codes "ann") (codes "token") (pos 0)

normalize-IsNormal_example : IsNormal (normalize web_request)
normalize-IsNormal_example = normalize-IsNormal web_request

-- Two replicas at 80 each: one more is asked for.
scale_request_bounds_example : (pos 1 ≤ℤ pos 3) × (pos 3 ≤ℤ pos 4)
unfolding scale_request normalize service_of clamp_min quot ◌+ℤ◌
scale_request_bounds_example =
    scale_request_bounds whole web (some (some (pos 80) ∷ some (pos 80) ∷ [])) (pos 3) (omega arith)
      refl

scale_request_step_example :
    ((pos 3 ≡ pos 2 +ℤ pos 1) × (ltb_ℤ (pos 50) (pos 80) ≡ true))
    ⊎ ((pos 3 ≡ pos 2 -ℤ pos 1) × (ltb_ℤ (pos 80) (pos 25) ≡ true))
unfolding scale_request normalize service_of clamp_min quot ◌+ℤ◌ average_cpu
scale_request_step_example =
    scale_request_step whole web (some (pos 80) ∷ some (pos 80) ∷ []) (pos 3)
      (omega arith, omega arith) refl

-- Ann asks for one to four replicas, which the check counts as four.
autoscaler-IsWithin_example :
    IsWithin (pos 1000, pos 512) (pos 100_000_000, pos 0) (pos 3) (pos 100) (pos 64)
unfolding scale_request normalize service_of clamp_min quot ◌+ℤ◌ ◌*ℤ◌ effective_replicas first
    text_eq owner_usage_excluding_service sum_usage wrap64 enforce_service_quota exceeds
    get_user_by_id statement member_service_quota env_quota
autoscaler-IsWithin_example =
    autoscaler-IsWithin whole as_ann ann (pos 0) web_request [] (codes "token") one_container in_use
      (pos 100_000_000, pos 0) sample refl refl refl
      (record {
        cpu_product = ground arith;
        mem_product = ground arith;
        cpu_sum = ground arith;
        mem_sum = ground arith;
      })
      refl (pos 3) (some (some (pos 80) ∷ some (pos 80) ∷ [])) refl (omega arith) (omega arith)
