-- ===== src/Tests/Owners.antt =====
-- Bob asks for changes to a service of Ann's.
use easy_deploy.Prelude.{refl, none, some, [], ◌∷◌, Text, codes, text_eq, text_eq_ne, ℕ}
use easy_deploy.Prelude.Int.{pos}
use easy_deploy.Prelude.Rows.{first}
use easy_deploy.Effect.{pure}
use easy_deploy.Store.{role_member}
use easy_deploy.Docker.Spec.{AdvancedSpec}
use easy_deploy.Service.Manager.{Fleet}
use easy_deploy.Api.{Principal}
use easy_deploy.Api.Services.Handlers.{
  handle_get_service, handle_set_service_subdomain, handle_update_service, handle_scale_service,
  handle_redeploy_service, handle_delete_service,
}
use easy_deploy.Api.Services.Handlers.Ownership.{IsUntouched, handlers-IsUntouched}
use easy_deploy.Tests.{sample}
use easy_deploy.Tests.Hosts.{plain}
use easy_deploy.Tests.Fleet.{three, plane, specs_for, host_for, same_order}

abbrev bob : Principal
bob = record { user_id = pos 3; username = codes "bob"; role = role_member }

abbrev fleet : Fleet
fleet = record { plane = record plane { db = record sample { services = three ∷ [] } }; calls = [] }

abbrev same : ℕ → ℕ
same c = c

abbrev decoded : Text → AdvancedSpec
decoded t = plain

handlers-IsUntouched_example :
    IsUntouched fleet (
      handle_get_service specs_for host_for
        (pure tt)
        same_order
        same
        []
        decoded
        plain
        bob
        (codes "web")
        fleet)
    × IsUntouched fleet (
        handle_set_service_subdomain specs_for host_for
          (pure tt)
          same_order
          same
          []
          decoded
          plain
          bob
          (codes "web")
          (some (codes "x"))
          fleet)
    × IsUntouched fleet (
        handle_update_service specs_for host_for
          (pure tt)
          same_order
          same
          []
          decoded
          plain
          bob
          (pos 0)
          none
          (codes "web")
          none
          fleet)
    × IsUntouched fleet (
        handle_scale_service specs_for host_for
          (pure tt)
          same_order
          same
          []
          decoded
          plain
          bob
          (codes "web")
          (some (pos 9))
          fleet)
    × IsUntouched fleet (
        handle_redeploy_service specs_for host_for
          (pure tt)
          same_order
          same
          []
          decoded
          plain
          bob
          (codes "web")
          []
          fleet)
    × IsUntouched fleet (
        handle_delete_service specs_for host_for
          (pure tt)
          same_order
          same
          []
          decoded
          plain
          bob
          (codes "web")
          fleet)
unfolding text_eq first
handlers-IsUntouched_example =
    handlers-IsUntouched bob (codes "web") three fleet refl refl
      (text_eq_ne (codes "ann") (codes "bob") refl) specs_for host_for (pure tt) same_order same []
      decoded plain (pos 0) none (some (codes "x")) none (some (pos 9)) []
