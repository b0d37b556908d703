-- ===== src/Api/Exposure.antt =====
-- server/internal/api/handlers.go: routes, and the tunnels over the tunnel manager.
use easy_deploy.Prelude.{Bool, true, false, Option, none, some, List, map, Text, codes}
use easy_deploy.Prelude.Int.{ℤ, int_eq}
use easy_deploy.Prelude.Rows.{select, first}
use easy_deploy.Effect.{Result, ok, err, Exec, pure, raise, or_fail, ◌>>=◌, ◌>>◌}
use easy_deploy.Store.{Db, Route, Query}
use easy_deploy.Store as Tables
use easy_deploy.Store.Routes.{list_routes}
use easy_deploy.Store.Tunnels.{list_tunnels, insert_tunnel, set_tunnel_enabled, delete_tunnel}
use easy_deploy.Proxy.{Plane, Publish}
use easy_deploy.Tunnel.{Tunnels, Remote, start, stop, is_running}
use easy_deploy.Api.{Failure, failure, refused, Handler, or_status, decode, url_id}

-- The routes of the request's environment.
unfoldable pub handle_list_routes : ℤ → Handler (List Route)
handle_list_routes env = do
  list ← or_status 500 list_routes
  pure (select (λ (rt : Route). int_eq rt.endpoint_id env) list)

-- `upsert` and `remove` are the proxy registry's.
unfoldable pub handle_upsert_route :
    (Route → Publish Route) → ℤ → Option Route → Exec Plane Failure Route
handle_upsert_route upsert env body = do
  route ← decode body
  or_fail (λ e. failure 400 (refused (codes "route"))) (upsert (record route { endpoint_id = env }))

unfoldable pub handle_delete_route : (Text → Publish Unit) → Text → Exec Plane Failure Unit
handle_delete_route remove subdomain =
    or_fail (λ e. failure 500 (refused (codes "route"))) (remove subdomain)

-- The tunnels in the database, and those that run.
pub record Exposed : Type 0 where
  pub db : Db
  pub tunnels : Tunnels

abbrev pub TunnelHandler : Type 0 → Type 0
TunnelHandler A = Exec Exposed Failure A

abbrev tables : {A : Type 0} → Handler A → TunnelHandler A
tables h w = let (r, db) = h w.db in (r, record w { db = db })

abbrev tried : {A : Type 0} → Query A → TunnelHandler Unit
tried q w = (ok tt, record w { db = (q w.db).1 })

abbrev settle : Exposed → Result Text Unit × Tunnels → Result Failure Unit × Exposed
settle w (ok u, ts) = (ok u, record w { tunnels = ts })
settle w (err why, ts) = (err (failure 502 (refused why)), record w { tunnels = ts })

abbrev stopped : ℤ → TunnelHandler Unit
stopped id w = (ok tt, record w { tunnels = stop id w.tunnels })

abbrev or_404 : Option Tables.Tunnel → TunnelHandler Tables.Tunnel
or_404 none = raise (failure 404 (refused (codes "not found")))
or_404 (some t) = pure t

-- Each tunnel, with whether it runs.
unfoldable pub handle_list_tunnels : TunnelHandler (List (Tables.Tunnel × Bool))
handle_list_tunnels = do
  list ← tables (or_status 500 list_tunnels)
  λ w. (ok (map (λ (t : Tables.Tunnel). (t, is_running t.id w.tunnels)) list), w)

unfoldable pub handle_create_tunnel : Option Tables.Tunnel → TunnelHandler Tables.Tunnel
handle_create_tunnel body = do t ← decode body; tables (or_status 500 (insert_tunnel t))

-- The error of the last statement is dropped.
unfoldable pub handle_start_tunnel : Remote → Text → Text → TunnelHandler Unit
handle_start_tunnel net key_path target = do
  id ← url_id target
  list ← tables (or_status 500 list_tunnels)
  t ← or_404 (first (λ (t : Tables.Tunnel). int_eq t.id id) list)
  λ w. settle w (start net key_path t w.tunnels)
  tried (set_tunnel_enabled id true)

unfoldable pub handle_stop_tunnel : Text → TunnelHandler Unit
handle_stop_tunnel target = do id ← url_id target; stopped id; tried (set_tunnel_enabled id false)

unfoldable pub handle_delete_tunnel : Text → TunnelHandler Unit
handle_delete_tunnel target = do
  id ← url_id target
  stopped id
  tables (or_status 500 (delete_tunnel id))
