-- ===== src/Api/Users.antt =====
-- server/internal/api/handlers_users.go: accounts (admin only).
pub mod Admins
use easy_deploy.Prelude.{
  ℕ, Bool, true, false, not, ◌&&◌, ◌||◌, Option, none, some, List, Text, codes, text_eq, is_empty,
  leb, ltb, byte_len, if◌then◌else◌,
}
use easy_deploy.Prelude.Int.{ℤ, pos, int_eq}
use easy_deploy.Effect.{Result, ok, err, Exec, pure, attempt, ◌>>=◌, ◌>>◌}
use easy_deploy.Store.{Db, StoreError, User, role_admin, role_member}
use easy_deploy.Store.Users.{
  list_users, create_user, get_user_by_id, update_user_quota, set_user_password, set_user_role,
  count_admins, delete_user, is_admin_row, count_users,
}
use easy_deploy.Api.{
  Principal, Failure, failure, refused, Handler, or_status, decode, url_id, refuse_if,
}

pub record NewUser : Type 0 where
  pub username : Text
  pub password : Text
  pub role : Text
  pub cpu_quota_milli : ℤ
  pub mem_quota_mb : ℤ
  pub disk_quota_mb : ℤ

pub record Quota : Type 0 where
  pub cpu_quota_milli : ℤ
  pub mem_quota_mb : ℤ
  pub disk_quota_mb : ℤ

-- Any role but `admin` becomes `member`.
abbrev pub settled_role : Text → Text
settled_role role = if text_eq role role_admin then role else role_member

abbrev pub or_500 : Option Text → Handler Text
or_500 none db = (err (failure 500 (refused (codes "hash"))), db)
or_500 (some hash) db = (ok hash, db)

unfoldable pub handle_list_users : Handler (List User)
handle_list_users = or_status 500 list_users

-- `hash` stands for bcrypt's `GenerateFromPassword`, which refuses some passwords.
module _ (hash : Text → Option Text) where
  unfoldable pub handle_create_user : Option NewUser → Handler User
  handle_create_user body = do
    req ← decode body
    refuse_if (is_empty req.username || is_empty req.password)
        (failure 400 (refused (codes "username and password are required")))
    hashed ← or_500 (hash req.password)
    or_status 400 (
        create_user (record {
          id = pos 0;
          username = req.username;
          password_hash = hashed;
          role = settled_role req.role;
          cpu_quota_milli = req.cpu_quota_milli;
          mem_quota_mb = req.mem_quota_mb;
          disk_quota_mb = req.disk_quota_mb;
        }))

  unfoldable pub handle_reset_password : Text → Option Text → Handler Unit
  handle_reset_password id_text body = do
    id ← url_id id_text
    password ← decode body
    refuse_if (ltb (byte_len password) 6)
        (failure 400 (refused (codes "password must be at least 6 characters")))
    hashed ← or_500 (hash password)
    or_status 500 (set_user_password id hashed)

  -- cmd/easydeploy/main.go: the first account, when there is none.
  unfoldable pub bootstrap_admin : Text → Handler Unit
  bootstrap_admin admin_password = do
    n ← or_status 500 count_users
    if ltb 0 n then pure tt else do
      hashed ← or_500 (hash admin_password)
      or_status 500 (
          create_user (record {
            id = pos 0;
            username = codes "admin";
            password_hash = hashed;
            role = role_admin;
            cpu_quota_milli = pos 0;
            mem_quota_mb = pos 0;
            disk_quota_mb = pos 0;
          }))
      pure tt

unfoldable pub handle_update_user_quota : Text → Option Quota → Handler Unit
handle_update_user_quota id_text body = do
  id ← url_id id_text
  req ← decode body
  or_status 500 (update_user_quota id req.cpu_quota_milli req.mem_quota_mb req.disk_quota_mb)

abbrev pub refuse_last : Result StoreError ℕ → Handler Unit
refuse_last (ok n) =
    refuse_if (leb n 1) (failure 400 (refused (codes "cannot demote the last admin")))
refuse_last (err e) = pure tt

abbrev pub refuse_last_admin : Result StoreError User → Handler Unit
refuse_last_admin (ok u) =
    if is_admin_row u then (attempt count_admins >>= refuse_last) else pure tt
refuse_last_admin (err e) = pure tt

-- The guard of a demotion: the two reads refuse it only when both succeed.
unfoldable pub guard_demotion : ℤ → Handler Unit
guard_demotion id = attempt (get_user_by_id id) >>= refuse_last_admin

-- the handler after it has read its request
unfoldable pub change_role : ℤ → Text → Handler Unit
unfolding guard_demotion
change_role id role = do
  refuse_if (not (text_eq role role_admin) && not (text_eq role role_member))
      (failure 400 (refused (codes "role must be admin or member")))
  if text_eq role role_member then guard_demotion id else pure tt
  or_status 500 (set_user_role id role)

unfoldable pub handle_set_user_role : Text → Option Text → Handler Unit
handle_set_user_role id_text body = do id ← url_id id_text; role ← decode body; change_role id role

-- the handler after it has read its request
unfoldable pub remove_account : Principal → ℤ → Handler Unit
remove_account p id = do
  refuse_if (int_eq id p.user_id) (failure 400 (refused (codes "cannot delete your own account")))
  or_status 500 (delete_user id)

unfoldable pub handle_delete_user : Principal → Text → Handler Unit
handle_delete_user p id_text = do id ← url_id id_text; remove_account p id
