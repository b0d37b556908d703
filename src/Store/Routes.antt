-- ===== src/Store/Routes.antt =====
-- server/internal/store/store.go: proxy routes, keyed by their subdomain.
use easy_deploy.Prelude.{◌+◌, List, [], ◌∷◌, Text, text_eq, if◌then◌else◌}
use easy_deploy.Prelude.Int.{ℤ, pos}
use easy_deploy.Prelude.Rows.{delete, order_by}
use easy_deploy.Effect.{ok}
use easy_deploy.Store.{Route, Query, statement}

unfoldable pub list_routes : Query (List Route)
unfolding statement
list_routes = statement λ db. (ok (order_by (λ (r : Route). r.subdomain) db.routes), db)

-- `INSERT … ON CONFLICT (subdomain) DO UPDATE`; a row that is updated keeps its id.
unfoldable pub put_route : Route → List Route → List Route
put_route new [] = new ∷ []
put_route new (r ∷ rs) =
    if text_eq r.subdomain new.subdomain
    then record new { id = r.id } ∷ rs
    else r ∷ put_route new rs

unfoldable pub route_id : Text → ℤ → List Route → ℤ
route_id subdomain fresh [] = fresh
route_id subdomain fresh (r ∷ rs) =
    if text_eq r.subdomain subdomain then r.id else route_id subdomain fresh rs

-- The sequence moves on also when the row was there.
unfoldable pub upsert_route : Route → Query Route
unfolding statement put_route route_id
upsert_route r = statement λ db.
    let saved = record r { id = route_id r.subdomain (pos db.next_route) db.routes } in
    (ok saved, record db { routes = put_route saved db.routes; next_route = db.next_route + 1 })

unfoldable pub delete_route : Text → Query Unit
unfolding statement
delete_route subdomain = statement λ db.
    (ok tt, record db { routes = delete (λ (r : Route). text_eq r.subdomain subdomain) db.routes })
