-- ===== src/Store/Users.antt =====
-- server/internal/store/users.go: accounts.
use easy_deploy.Prelude.{
  ℕ, ◌+◌, ◌&&◌, Bool, true, List, [], ◌∷◌, ◌++◌, Text, text_eq, if◌then◌else◌,
}
use easy_deploy.Prelude.Int.{ℤ, pos, int_eq}
use easy_deploy.Prelude.Rows.{first, update, delete, count, exists, order_by}
use easy_deploy.Effect.{ok, err}
use easy_deploy.Store.{
  User, ResourceRequest, Grant, Query, statement, found, conflict, role_admin, fits_int4,
}

unfoldable pub count_users : Query ℕ
unfolding statement
count_users = statement λ db. (ok (count (λ u. true) db.users), db)

unfoldable pub list_users : Query (List User)
unfolding statement
list_users = statement λ db. (ok (order_by (λ (u : User). u.username) db.users), db)

-- `username` is UNIQUE; the sequence moves on also when the insertion is refused.
unfoldable pub create_user : User → Query User
unfolding statement
create_user u = statement λ db.
    let saved = record u { id = pos db.next_user } in
    if exists (λ (o : User). text_eq o.username u.username) db.users
    then (err conflict, record db { next_user = db.next_user + 1 })
    else (ok saved, record db { users = db.users ++ saved ∷ []; next_user = db.next_user + 1 })

unfoldable pub get_user_by_username : Text → Query User
unfolding statement
get_user_by_username username =
    statement λ db. (found (first (λ (u : User). text_eq u.username username) db.users), db)

unfoldable pub get_user_by_id : ℤ → Query User
unfolding statement
get_user_by_id id = statement λ db. (found (first (λ (u : User). int_eq u.id id) db.users), db)

-- The CPU and the memory stand in `INTEGER` columns, the storage in a `BIGINT`.
unfoldable pub update_user_quota : ℤ → ℤ → ℤ → ℤ → Query Unit
unfolding statement
update_user_quota id cpu_milli mem_mb disk_mb = statement λ db.
    if fits_int4 cpu_milli && fits_int4 mem_mb
    then (
      ok tt,
      record db {
        users =
            update (λ (u : User). int_eq u.id id)
              (λ u. record u {
                cpu_quota_milli = cpu_milli;
                mem_quota_mb = mem_mb;
                disk_quota_mb = disk_mb;
              })
              db.users;
      },
    )
    else (err conflict, db)

unfoldable pub set_user_password : ℤ → Text → Query Unit
unfolding statement
set_user_password id password_hash = statement λ db. (
  ok tt,
  record db {
    users =
        update (λ (u : User). int_eq u.id id) (λ u. record u { password_hash = password_hash })
          db.users;
  },
)

unfoldable pub set_user_role : ℤ → Text → Query Unit
unfolding statement
set_user_role id role = statement λ db. (
  ok tt,
  record db {
    users = update (λ (u : User). int_eq u.id id) (λ u. record u { role = role }) db.users;
  },
)

abbrev pub is_admin_row : User → Bool
is_admin_row u = text_eq u.role role_admin

unfoldable pub count_admins : Query ℕ
unfolding statement
count_admins = statement λ db. (ok (count is_admin_row db.users), db)

-- `ON DELETE CASCADE` takes the account's requests and grants with it.
unfoldable pub delete_user : ℤ → Query Unit
unfolding statement
delete_user id = statement λ db. (
  ok tt,
  record db {
    users = delete (λ (u : User). int_eq u.id id) db.users;
    requests = delete (λ (r : ResourceRequest). int_eq r.user_id id) db.requests;
    grants = delete (λ (g : Grant). int_eq g.user_id id) db.grants;
  },
)
