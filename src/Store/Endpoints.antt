-- ===== src/Store/Endpoints.antt =====
-- server/internal/store/endpoints.go: remote Docker environments.
use easy_deploy.Prelude.{◌+◌, List, [], ◌∷◌, ◌++◌}
use easy_deploy.Prelude.Int.{ℤ, pos, int_eq}
use easy_deploy.Prelude.Rows.{first, update, delete}
use easy_deploy.Effect.{ok}
use easy_deploy.Store.{Endpoint, Grant, Query, statement, found}

unfoldable pub create_endpoint : Endpoint → Query Endpoint
unfolding statement
create_endpoint e = statement λ db.
    let saved = record e { id = pos db.next_endpoint } in
    (
      ok saved,
      record db { endpoints = db.endpoints ++ saved ∷ []; next_endpoint = db.next_endpoint + 1 },
    )

unfoldable pub get_endpoint : ℤ → Query Endpoint
unfolding statement
get_endpoint id =
    statement λ db. (found (first (λ (e : Endpoint). int_eq e.id id) db.endpoints), db)

-- in the order of their ids, which is that of insertion
unfoldable pub list_endpoints : Query (List Endpoint)
unfolding statement
list_endpoints = statement λ db. (ok db.endpoints, db)

unfoldable pub update_endpoint : Endpoint → Query Unit
unfolding statement
update_endpoint new = statement λ db. (
  ok tt,
  record db {
    endpoints =
        update (λ (e : Endpoint). int_eq e.id new.id)
          (λ e. record e {
            name = new.name;
            host = new.host;
            tls_ca_enc = new.tls_ca_enc;
            tls_cert_enc = new.tls_cert_enc;
            tls_key_enc = new.tls_key_enc;
          })
          db.endpoints;
  },
)

-- `ON DELETE CASCADE` takes the grants of the environment with it.
unfoldable pub delete_endpoint : ℤ → Query Unit
unfolding statement
delete_endpoint id = statement λ db. (
  ok tt,
  record db {
    endpoints = delete (λ (e : Endpoint). int_eq e.id id) db.endpoints;
    grants = delete (λ (g : Grant). int_eq g.endpoint_id id) db.grants;
  },
)
