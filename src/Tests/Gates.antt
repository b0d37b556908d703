-- ===== src/Tests/Gates.antt =====
-- A member at the gates and at the account page of server/internal/api: a remote host without a
-- grant, and a container of somebody else's.
use easy_deploy.Prelude.{refl, none, some, [], ◌∷◌, codes, text_eq, text_eq_ne}
use easy_deploy.Prelude.Int.{pos}
use easy_deploy.Prelude.Rows.{exists, first}
use easy_deploy.Effect.{pure}
use easy_deploy.Docker.{ContainerInfo, label_owner, label_of}
use easy_deploy.Api.Access.{
  IsDenied, require_endpoint_access, require_container_owner, require_endpoint_access-IsDenied,
  require_container_owner-IsDenied,
}
use easy_deploy.Store.{answering}
use easy_deploy.Api.Account.{IsShown, handle_me, handle_me-IsShown}
use easy_deploy.Tests.{ann, as_ann, sample}

require_endpoint_access-IsDenied_example :
    IsDenied sample (require_endpoint_access as_ann (pos 5) (pure (codes "deployed")) sample)
unfolding text_eq exists
require_endpoint_access-IsDenied_example =
    require_endpoint_access-IsDenied as_ann (pos 5) (pure (codes "deployed")) sample refl refl refl

abbrev bobs : ContainerInfo
bobs = record { name = codes "db"; labels = some ((label_owner, codes "bob") ∷ []); limits = none }

require_container_owner-IsDenied_example : IsDenied sample (
    require_container_owner as_ann
      (some (λ id. some bobs))
      (codes "c9")
      (pure (codes "stopped"))
      sample)
unfolding text_eq label_of
require_container_owner-IsDenied_example =
    require_container_owner-IsDenied as_ann (λ id. some bobs) (codes "c9") (pure (codes "stopped"))
      bobs sample refl refl (text_eq_ne (codes "bob") (codes "ann") refl)

handle_me-IsShown_example :
    IsShown (some (pos 1000, pos 512)) (handle_me as_ann (pos 0) none (answering sample)).0
unfolding first
handle_me-IsShown_example = handle_me-IsShown as_ann ann (pos 0) none sample refl
