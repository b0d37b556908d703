-- ===== src/Api/Users/Admins.antt =====
-- The instance is never left without an administrator.
use easy_deploy.Prelude.{
  ◌≢◌, ℕ, ◌+◌, ◌≤◌, ◌≡◌, refl, Bool, true, false, ◌&&◌, ◌⊎◌, inl, inr, Option-cases, subst, Option,
  none, some, List, [], ◌∷◌, arith, Text, text_eq, text_eq_iff,
}
use easy_deploy.Prelude.Int.{ℤ, int_eq, int_eq_iff}
use easy_deploy.Prelude.Rows.{first, update, delete, count}
use easy_deploy.Effect.{ok}
use easy_deploy.Store.{Db, User, statement, role_admin, role_member}
use easy_deploy.Store.Users.{is_admin_row, get_user_by_id, set_user_role, count_admins, delete_user}
use easy_deploy.Api.{Principal, url_id}
use easy_deploy.Api.Users.{
  handle_set_user_role, handle_delete_user, guard_demotion, change_role, remove_account,
}

abbrev pub has_id : ℤ → User → Bool
has_id id u = int_eq u.id id

abbrev pub admins : List User → ℕ
admins us = count is_admin_row us

-- Each row that gets another role takes at most one administrator away.
admins-update-role :
    (id : ℤ) (role : Text) (us : List User)
    → admins us
      ≤ admins (update (has_id id) (λ u. record u { role = role }) us) + count (has_id id) us
unfolding count update
admins-update-role id role [] = omega arith
admins-update-role id role (u ∷ us) = ground (arith, admins-update-role id role us)

admins-update-admin :
    (id : ℤ) (us : List User)
    → admins us ≤ admins (update (has_id id) (λ u. record u { role = role_admin }) us)
unfolding count update
admins-update-admin id [] = omega arith
admins-update-admin id (u ∷ us) =
    ground (arith, admins-update-admin id us, text_eq_iff role_admin role_admin)

not_first : (id : ℤ) (us : List User) → first (has_id id) us ≡ none → count (has_id id) us ≡ 0
unfolding first count
not_first id [] h = refl
not_first id (u ∷ us) h = ground (arith, not_first id us)

-- Where the id belongs to one row and that row is no administrator's, the role may change freely.
admins-update-member :
    (id : ℤ) (role : Text) (us : List User) (u : User)
    → first (has_id id) us ≡ some u
    → is_admin_row u ≡ false
    → count (has_id id) us ≤ 1
    → admins us ≤ admins (update (has_id id) (λ u. record u { role = role }) us)
unfolding first count update
admins-update-member id role [] u f m k = cc
admins-update-member id role (v ∷ us) u f m k =
    ground (arith, admins-update-member id role us u, admins-update-role id role us)

abbrev MayChange : List User → Option User → Type 0
MayChange us none = Unit
MayChange us (some u) = (is_admin_row u ≡ false) ⊎ (2 ≤ admins us)

-- What the guard of a demotion lets through.
guard_demotion_cases :
    (id : ℤ) (db : Db)
    → db.outages ≡ []
    → ((guard_demotion id db).1 ≡ db)
      × (((guard_demotion id db).0 ≡ ok tt) → MayChange db.users (first (has_id id) db.users))
unfolding guard_demotion get_user_by_id count_admins statement
guard_demotion_cases id db up = ground arith

update_role-keeps_admin :
    (id : ℤ) (role : Text) (us : List User)
    → count (has_id id) us ≤ 1
    → 1 ≤ admins us
    → MayChange us (first (has_id id) us)
    → 1 ≤ admins (update (has_id id) (λ u. record u { role = role }) us)
update_role-keeps_admin id role us k one may = elim (Option-cases (first (has_id id) us)) [
  | inl e ↦ omega (arith, admins-update-role id role us, not_first id us e)
  | inr (u, e) ↦ elim (subst (MayChange us) e may) [
    | inl m ↦ omega (arith, admins-update-member id role us u e m k)
    | inr two ↦ omega (arith, admins-update-role id role us)
  ]
]

change_role-keeps_admin :
    (id : ℤ) (role : Text) (db : Db)
    → db.outages ≡ []
    → count (has_id id) db.users ≤ 1
    → 1 ≤ admins db.users
    → 1 ≤ admins (change_role id role db).1.users
unfolding change_role set_user_role statement
change_role-keeps_admin id role db up k one = ground (
  arith,
  guard_demotion_cases id db up,
  update_role-keeps_admin id role db.users k one,
  admins-update-admin id db.users,
  text_eq_iff role role_admin,
  text_eq_iff role role_member,
)

-- Whatever a request to set a role says, one administrator at least is left if there was one, when
-- the database answers every statement and ids are unique.
pub handle_set_user_role-keeps_admin :
    (id_text : Text) (body : Option Text) (db : Db)
    → db.outages ≡ []
    → ((id : ℤ) → count (has_id id) db.users ≤ 1)
    → 1 ≤ admins db.users
    → 1 ≤ admins (handle_set_user_role id_text body db).1.users
unfolding handle_set_user_role url_id
handle_set_user_role-keeps_admin id_text body db up keys one =
    grind (arith, change_role-keeps_admin)

-- When the read of the account fails and the next statement is answered, the guard of a demotion is
-- skipped: the account becomes a member whoever else is an administrator, and the answer is a
-- success.
pub change_role-skips_guard :
    (id : ℤ) (db : Db)
    → change_role id role_member (record db { outages = true ∷ [] }) ≡ (
      ok tt,
      record db {
        users = update (has_id id) (λ u. record u { role = role_member }) db.users;
        outages = [];
      },
    )
unfolding change_role guard_demotion get_user_by_id set_user_role statement text_eq
change_role-skips_guard id db = refl

abbrev pub is_admin_with : ℤ → User → Bool
is_admin_with id u = is_admin_row u && int_eq u.id id

admins-delete :
    (id caller : ℤ) (us : List User)
    → id ≢ caller
    → count (is_admin_with caller) us ≤ admins (delete (has_id id) us)
unfolding count delete
admins-delete id caller [] h = omega arith
admins-delete id caller (u ∷ us) h =
    ground (arith, admins-delete id caller us h, int_eq_iff u.id id, int_eq_iff u.id caller)

admins-with : (caller : ℤ) (us : List User) → count (is_admin_with caller) us ≤ admins us
unfolding count
admins-with caller [] = omega arith
admins-with caller (u ∷ us) = ground (arith, admins-with caller us)

remove_account-keeps_admin :
    (p : Principal) (id : ℤ) (db : Db)
    → 1 ≤ count (is_admin_with p.user_id) db.users
    → 1 ≤ admins (remove_account p id db).1.users
unfolding remove_account delete_user statement
remove_account-keeps_admin p id db here = ground (
  arith,
  admins-delete id p.user_id db.users,
  int_eq_iff id p.user_id,
  admins-with p.user_id db.users,
)

-- Whatever a request to delete an account says, one administrator at least is left if the caller's
-- own row is an administrator's, whether or not the database answers.
pub handle_delete_user-keeps_admin :
    (p : Principal) (id_text : Text) (db : Db)
    → 1 ≤ count (is_admin_with p.user_id) db.users
    → 1 ≤ admins (handle_delete_user p id_text db).1.users
unfolding handle_delete_user url_id
handle_delete_user-keeps_admin p id_text db here =
    grind (arith, remove_account-keeps_admin, admins-with)
