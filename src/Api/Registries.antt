-- ===== src/Api/Registries.antt =====
-- server/internal/api/handlers_manage.go: registries and sign-in. The calls of a registry over HTTP are
-- parameters.
use easy_deploy.Prelude.{Bool, Option, List, Text, codes, is_empty}
use easy_deploy.Prelude.Int.{ℤ}
use easy_deploy.Effect.{pure, or_fail, ◌>>=◌, ◌>>◌}
use easy_deploy.Store.{Registry}
use easy_deploy.Store.Registries.{list_registries, delete_registry}
use easy_deploy.Registry as Images
use easy_deploy.Auth.{Jwt, login}
use easy_deploy.Api.{
  Principal, owner_scope, failure, refused, Handler, or_status, decode, refuse_if, or_502, url_id,
}
use easy_deploy.Api.Volumes.{worked}

unfoldable pub handle_list_registries : Principal → Handler (List Registry)
handle_list_registries p = or_status 500 (list_registries (owner_scope p))

pub record NewRegistry : Type 0 where
  pub name : Text
  pub url : Text
  pub username : Text
  pub password : Text

unfoldable pub handle_create_registry :
    Images.Box → Principal → Option NewRegistry → Handler Registry
handle_create_registry box p body = do
  req ← decode body
  or_fail (λ e. failure 400 (refused (codes "registry")))
      (Images.create box req.name req.url req.username req.password (owner_scope p))

unfoldable pub handle_test_registry :
    (Text → Text → Text → Bool) → Option (Text × Text × Text) → Handler Unit
handle_test_registry test_login body = do req ← decode body; worked (test_login req.0 req.1 req.2)

unfoldable pub handle_delete_registry : Text → Handler Unit
handle_delete_registry target = do id ← url_id target; or_status 500 (delete_registry id)

unfoldable pub handle_registry_catalog : (ℤ → Option (List Text)) → Text → Handler (List Text)
handle_registry_catalog catalog target = do id ← url_id target; or_502 (catalog id)

unfoldable pub handle_registry_tags :
    (ℤ → Text → Option (List Text)) → Text → Text → Handler (List Text)
handle_registry_tags tags target repo = do
  id ← url_id target
  refuse_if (is_empty repo) (failure 400 (refused (codes "not found")))
  or_502 (tags id repo)

-- The token, with the name and the role of the account.
unfoldable pub handle_login :
    Jwt → Text → (Text → Text → Bool) → ℤ → Option (Text × Text) → Handler (Text × Text × Text)
unfolding login
handle_login jwt secret matches now body = do
  req ← decode body
  session ← or_fail (λ e. failure 401 (refused e)) (login jwt secret matches now req.0 req.1)
  pure (session.0, session.1.username, session.1.role)
