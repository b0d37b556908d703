-- ===== src/Service/Scaler.antt =====
-- server/internal/service/scaler.go: the replica count that one round of the autoscaler asks for.
use easy_deploy.Prelude.{
  ◌⊎◌, ◌≡◌, Bool, true, not, ◌&&◌, Option, none, some, List, [], ◌∷◌, arith, length, if◌then◌else◌,
}
use easy_deploy.Prelude.Int.{ℤ, pos, int_eq, ◌≤ℤ◌, ltb_ℤ, ◌+ℤ◌, ◌-ℤ◌}
use easy_deploy.Store.{Service}

-- Go's float64, of which the decision uses this much.
pub record Float64 : Type 1 where
  pub F : Type 0
  pub of_int : ℤ → F
  pub add : F → F → F
  pub div : F → F → F
  pub lt : F → F → Bool

unfoldable pub clamp : ℤ → ℤ → ℤ → ℤ
clamp v lo hi = if ltb_ℤ v lo then lo else if ltb_ℤ hi v then hi else v

module _ (fl : Float64) where
  open fl use {F, of_int, add, div, lt}

  -- the sum over the replicas whose CPU could be read
  unfoldable pub total_cpu : F → List (Option F) → F
  total_cpu total [] = total
  total_cpu total (none ∷ rest) = total_cpu total rest
  total_cpu total (some p ∷ rest) = total_cpu (add total p) rest

  unfoldable pub average_cpu : List (Option F) → F
  unfolding total_cpu
  average_cpu samples = div (total_cpu (of_int (pos 0)) samples) (of_int (pos (length samples)))

  -- `samples` has one entry for each running replica.
  unfoldable pub stepped : Service → List (Option F) → ℤ
  unfolding average_cpu
  stepped svc samples =
      let avg = average_cpu samples in
      let target = of_int svc.target_cpu_pct in
      let current = pos (length samples) in
      if lt target avg && ltb_ℤ current svc.max_replicas
      then current +ℤ pos 1
      else if lt avg (div target (of_int (pos 2))) && ltb_ℤ svc.min_replicas current
      then current -ℤ pos 1
      else current

  unfoldable pub desired_replicas : Service → List (Option F) → ℤ
  unfolding stepped clamp
  desired_replicas svc samples = clamp (stepped svc samples) svc.min_replicas svc.max_replicas

  -- `none` where the round leaves the service alone: it is not autoscaled, no replica runs, or the
  -- count is right already. `reps` is `none` when the host or the list cannot be had.
  unfoldable pub scale_request : Service → Option (List (Option F)) → Option ℤ
  unfolding desired_replicas
  scale_request svc none = none
  scale_request svc (some []) = none
  scale_request svc (some (s ∷ rest)) =
      let desired = desired_replicas svc (s ∷ rest) in
      if not svc.autoscale
      then none
      else if int_eq desired (pos (length (s ∷ rest)))
      then none
      else some desired

  -- Every count that the autoscaler asks for lies between the service's bounds, if these are in
  -- order.
  pub scale_request_bounds :
      (svc : Service) (reps : Option (List (Option F))) (n : ℤ)
      → svc.min_replicas ≤ℤ svc.max_replicas
      → scale_request svc reps ≡ some n
      → (svc.min_replicas ≤ℤ n) × (n ≤ℤ svc.max_replicas)
  unfolding scale_request
  scale_request_bounds svc none n order h = ground arith
  scale_request_bounds svc (some []) n order h = ground arith
  scale_request_bounds svc (some (s ∷ rest)) n order h = ground arith

  -- It scales by one step: from a count between the bounds, the count asked for is one more or one
  -- less; one more only when the average is above the target, one less only when it is below half.
  pub scale_request_step :
      (svc : Service) (samples : List (Option F)) (n : ℤ)
      → (svc.min_replicas ≤ℤ pos (length samples)) × (pos (length samples) ≤ℤ svc.max_replicas)
      → scale_request svc (some samples) ≡ some n
      → ((n ≡ pos (length samples) +ℤ pos 1)
          × (lt (of_int svc.target_cpu_pct) (average_cpu samples) ≡ true))
        ⊎ ((n ≡ pos (length samples) -ℤ pos 1)
            × (lt (average_cpu samples) (div (of_int svc.target_cpu_pct) (of_int (pos 2))) ≡ true))
  unfolding scale_request ◌+ℤ◌ ◌-ℤ◌
  scale_request_step svc [] n within h = ground arith
  scale_request_step svc (s ∷ rest) n within h = ground arith

  -- A service that is not autoscaled is left alone.
  pub scale_request_autoscale :
      (svc : Service) (reps : Option (List (Option F))) (n : ℤ)
      → scale_request svc reps ≡ some n
      → svc.autoscale ≡ true
  unfolding scale_request
  scale_request_autoscale svc none n h = cc
  scale_request_autoscale svc (some []) n h = cc
  scale_request_autoscale svc (some (s ∷ rest)) n h = ground arith
