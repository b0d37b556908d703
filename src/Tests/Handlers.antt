-- ===== src/Tests/Handlers.antt =====
-- The handlers of server/internal/api on the small instance.
use easy_deploy.Prelude.{
  ◌≤◌, ◌≡◌, ◌≢◌, ◌↔◌, ◌*◌, ◌^◌, refl, some, [], ◌∷◌, codes, true, false, arith, text_eq,
}
use easy_deploy.Prelude.Int.{ℤ, pos, ◌≤ℤ◌, ◌+ℤ◌, ◌*ℤ◌, quot, wrap64}
use easy_deploy.Prelude.Rows.{first, count, update}
use mathlib.Core.Option
use easy_deploy.Effect.{ok}
use easy_deploy.Store.{User, ResourceRequest, answering, role_member, approved}
use easy_deploy.Store.Volumes.{usage}
use easy_deploy.Docker.Usage.{Daemon, owner_usage_excluding_service, sum_usage}
use easy_deploy.Api.Users.{handle_set_user_role, handle_delete_user}
use easy_deploy.Api.Users.Admins.{
  has_id, admins, handle_set_user_role-keeps_admin, change_role-skips_guard,
  handle_delete_user-keeps_admin,
}
use easy_deploy.Api.Users.{change_role}
use easy_deploy.Api.Reviews.{Review, settle_request, granted_amounts}
use easy_deploy.Api.Reviews.Granting.{
  user_with, request_with, settle_request-approves, settle_request-forgets, settle_request-rejects,
}
use easy_deploy.Api.Quota.{enforce_service_quota}
use easy_deploy.Api.Quota.Limits.{Admits, enforce_service_quota_iff}
use easy_deploy.Api.Volumes.{VolumeDaemon, handle_resize_volume, handle_create_volume}
use easy_deploy.Api.Volumes.Budget.{
  handle_resize_volume-keeps_budget, handle_create_volume-keeps_budget,
}
use easy_deploy.Tests.{root_user, ann, as_root, as_ann, more_disk, sample}

sample-Unique : (id : ℤ) → count (has_id id) sample.users ≤ 1
unfolding count
sample-Unique id = ground arith

handle_set_user_role-keeps_admin_example :
    1 ≤ admins (handle_set_user_role (codes "1") (some role_member) sample).1.users
unfolding count text_eq
handle_set_user_role-keeps_admin_example =
    handle_set_user_role-keeps_admin (codes "1") (some role_member) sample refl sample-Unique
      (omega arith)

change_role-skips_guard_example :
    change_role (pos 1) role_member (record sample { outages = true ∷ [] }) ≡ (
      ok tt,
      record sample {
        users = update (has_id (pos 1)) (λ u. record u { role = role_member }) sample.users;
        outages = [];
      },
    )
change_role-skips_guard_example = change_role-skips_guard (pos 1) sample

handle_delete_user-keeps_admin_example :
    1 ≤ admins (handle_delete_user as_root (codes "2") sample).1.users
unfolding count text_eq
handle_delete_user-keeps_admin_example =
    handle_delete_user-keeps_admin as_root (codes "2") sample (omega arith)

abbrev grant_it : Review
grant_it = record {
  approve = true;
  grant_cpu_milli = pos 0;
  grant_mem_mb = pos 0;
  grant_disk_mb = pos 0;
  note = [];
}

abbrev refuse_it : Review
refuse_it = record grant_it { approve = false }

abbrev ann_after : User
ann_after = record ann { disk_quota_mb = pos 300 }

settle_request-rejects_example :
    let after = (settle_request as_root (pos 7) refuse_it sample).1 in
    (after.users ≡ sample.users) × (after.grants ≡ sample.grants)
settle_request-rejects_example = settle_request-rejects as_root (pos 7) refuse_it sample refl

settle_request-forgets_example :
    let after =
      (settle_request as_root
        (pos 7)
        grant_it
        (record sample { outages = false ∷ true ∷ false ∷ [] })).1 in
    (first (user_with (pos 2)) after.users
      ≡ some
          (record ann { cpu_quota_milli = pos 0; mem_quota_mb = pos 0; disk_quota_mb = pos 300 }))
    × (first (user_with (pos 1)) after.users ≡ some root_user)
unfolding first
settle_request-forgets_example =
    settle_request-forgets as_root (pos 7) grant_it more_disk sample [] ann root_user (pos 1) refl
      refl refl (omega arith, omega arith, omega arith) (omega arith, omega arith) refl refl
      (ground arith) refl

settle_request-approves_example :
    let after = (settle_request as_root (pos 7) grant_it (answering sample)).1 in
    (first (user_with (pos 2)) after.users ≡ some ann_after)
    × ((other : ℤ)
        → other ≢ pos 2
        → first (user_with other) after.users ≡ first (user_with other) sample.users)
    × (after.grants ≡ sample.grants)
    × (Option.map (λ (r : ResourceRequest). r.status) (first (request_with (pos 7)) after.requests)
        ≡ some approved)
unfolding first granted_amounts
settle_request-approves_example =
    settle_request-approves as_root (pos 7) grant_it more_disk sample refl refl ann refl refl
      (refl, refl)

-- One container of ann's runs, of 200 millicores and 128 MB.
abbrev pub one_container : Daemon
one_container = record {
  list_owned = λ owner. some (codes "c1" ∷ []);
  inspect = λ id. some (record {
    name = codes "c1";
    labels = some [];
    limits = some (pos 200_000_000, pos (128 * 2 ^ 20));
  });
}

abbrev pub in_use : ℤ × ℤ
in_use = (pos 200_000_000, pos (128 * 2 ^ 20))

enforce_service_quota_iff_example :
    ((enforce_service_quota as_ann
        (pos 0)
        (some one_container)
        (pos 3)
        (pos 100)
        (pos 128)
        []
        (answering sample)).0
      ≡ ok (codes "ann"))
    ↔ Admits (some (pos 1000, pos 512)) in_use (pos 3) (pos 100) (pos 128)
unfolding first text_eq owner_usage_excluding_service sum_usage ◌*ℤ◌ ◌+ℤ◌ quot wrap64
enforce_service_quota_iff_example =
    enforce_service_quota_iff as_ann ann (pos 0) (pos 3) (pos 100) (pos 128) [] one_container in_use
      sample refl refl refl
      (record {
        cpu_product = ground arith;
        mem_product = ground arith;
        cpu_sum = ground arith;
        mem_sum = ground arith;
      })

handle_resize_volume-keeps_budget_example :
    usage
      (pos 0)
      (codes "ann")
      []
      (handle_resize_volume as_ann
        (pos 0)
        (codes "data")
        (some (pos 90))
        (answering sample)).1.volumes
    ≤ℤ pos 100
unfolding first text_eq usage count ◌+ℤ◌
handle_resize_volume-keeps_budget_example =
    handle_resize_volume-keeps_budget as_ann ann (pos 0) (pos 100) (pos 90) sample refl refl refl
      refl refl (omega arith, tt) (omega arith) (codes "data") (omega arith) (omega arith)

abbrev local_driver : VolumeDaemon
local_driver = record {
  volume_create = λ name driver labels. some name;
  volume_remove = λ name force. true;
}

handle_create_volume-keeps_budget_example :
    usage
      (pos 0)
      (codes "ann")
      []
      (handle_create_volume as_ann
        (pos 0)
        (some local_driver)
        (some (record { name = codes "logs"; driver = []; labels = []; size_mb = pos 60 }))
        (answering sample)).1.volumes
    ≤ℤ pos 100
unfolding first text_eq usage count ◌+ℤ◌
handle_create_volume-keeps_budget_example =
    handle_create_volume-keeps_budget as_ann ann (pos 0) (pos 100) (pos 60) sample refl refl refl
      refl refl (omega arith, tt) (omega arith) (some local_driver) (codes "logs") [] []
      (omega arith)
