-- ===== src/Store/Registries.antt =====
-- server/internal/store/store.go: image registries and their credentials.
use easy_deploy.Prelude.{◌+◌, List, [], ◌∷◌, ◌++◌, Text, text_eq, is_empty, if◌then◌else◌}
use easy_deploy.Prelude.Int.{ℤ, pos, int_eq}
use easy_deploy.Prelude.Rows.{first, select, delete, order_by}
use easy_deploy.Effect.{ok}
use easy_deploy.Store.{Registry, Query, statement, found}

-- Those of one owner, or all when the owner is empty.
unfoldable pub list_registries : Text → Query (List Registry)
unfolding statement
list_registries owner = statement λ db. (
  ok (
      order_by (λ (r : Registry). r.name)
        (if is_empty owner
          then db.registries
          else select (λ (r : Registry). text_eq r.owner owner) db.registries)),
  db,
)

unfoldable pub get_registry : ℤ → Query Registry
unfolding statement
get_registry id =
    statement λ db. (found (first (λ (r : Registry). int_eq r.id id) db.registries), db)

unfoldable pub insert_registry : Registry → Query Registry
unfolding statement
insert_registry r = statement λ db.
    let saved = record r { id = pos db.next_registry } in
    (
      ok saved,
      record db { registries = db.registries ++ saved ∷ []; next_registry = db.next_registry + 1 },
    )

unfoldable pub delete_registry : ℤ → Query Unit
unfolding statement
delete_registry id = statement λ db.
    (ok tt, record db { registries = delete (λ (r : Registry). int_eq r.id id) db.registries })
