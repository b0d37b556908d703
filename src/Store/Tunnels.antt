-- ===== src/Store/Tunnels.antt =====
-- server/internal/store/store.go: tunnel settings.
use easy_deploy.Prelude.{◌+◌, Bool, List, [], ◌∷◌, ◌++◌}
use easy_deploy.Prelude.Int.{ℤ, pos, int_eq}
use easy_deploy.Prelude.Rows.{update, delete}
use easy_deploy.Effect.{ok}
use easy_deploy.Store.{Tunnel, Query, statement}

-- in the order of their ids, which is that of insertion
unfoldable pub list_tunnels : Query (List Tunnel)
unfolding statement
list_tunnels = statement λ db. (ok db.tunnels, db)

unfoldable pub insert_tunnel : Tunnel → Query Tunnel
unfolding statement
insert_tunnel t = statement λ db.
    let saved = record t { id = pos db.next_tunnel } in
    (ok saved, record db { tunnels = db.tunnels ++ saved ∷ []; next_tunnel = db.next_tunnel + 1 })

unfoldable pub set_tunnel_enabled : ℤ → Bool → Query Unit
unfolding statement
set_tunnel_enabled id enabled = statement λ db. (
  ok tt,
  record db {
    tunnels =
        update (λ (t : Tunnel). int_eq t.id id) (λ t. record t { enabled = enabled }) db.tunnels;
  },
)

unfoldable pub delete_tunnel : ℤ → Query Unit
unfolding statement
delete_tunnel id =
    statement
      λ db. (ok tt, record db { tunnels = delete (λ (t : Tunnel). int_eq t.id id) db.tunnels })
