-- ===== src/Store/Services.antt =====
-- server/internal/store/services.go: services. The times of creation and deployment are left out.
use easy_deploy.Prelude.{◌+◌, List, [], ◌∷◌, ◌++◌, Text, codes, text_eq, is_empty, if◌then◌else◌}
use easy_deploy.Prelude.Int.{ℤ, pos, int_eq}
use easy_deploy.Prelude.Rows.{select, first, update, delete, exists, order_by}
use easy_deploy.Effect.{ok, err}
use easy_deploy.Store.{Service, Query, statement, found, conflict}

abbrev pub or_braces : Text → Text
or_braces advanced = if is_empty advanced then codes "{}" else advanced

-- `name` is UNIQUE; the columns that the statement leaves out take the schema's defaults.
unfoldable pub create_service : Service → Query Service
unfolding statement
create_service s = statement λ db.
    let saved = record s { id = pos db.next_service; advanced = or_braces s.advanced } in
    if exists (λ (o : Service). text_eq o.name s.name) db.services
    then (err conflict, record db { next_service = db.next_service + 1 })
    else (
      ok saved,
      record db {
        services = db.services ++ record saved { last_image = [] } ∷ [];
        next_service = db.next_service + 1;
      },
    )

unfoldable pub get_service : Text → Query Service
unfolding statement
get_service name =
    statement λ db. (found (first (λ (s : Service). text_eq s.name name) db.services), db)

unfoldable pub get_service_by_token : Text → Query Service
unfolding statement
get_service_by_token token =
    statement λ db. (found (first (λ (s : Service). text_eq s.webhook_token token) db.services), db)

-- Those of one owner, or all when the owner is empty.
unfoldable pub list_services : Text → Query (List Service)
unfolding statement
list_services owner = statement λ db. (
  ok (
      order_by (λ (s : Service). s.name)
        (if is_empty owner
          then db.services
          else select (λ (s : Service). text_eq s.owner owner) db.services)),
  db,
)

unfoldable pub set_service_replicas : ℤ → ℤ → Query Unit
unfolding statement
set_service_replicas id replicas = statement λ db. (
  ok tt,
  record db {
    services =
        update (λ (s : Service). int_eq s.id id) (λ s. record s { replicas = replicas })
          db.services;
  },
)

abbrev pub with_config : Service → Service → Service
with_config new old = record old {
  image = new.image;
  subdomain = new.subdomain;
  container_port = new.container_port;
  network = new.network;
  env = new.env;
  cpu_milli = new.cpu_milli;
  mem_mb = new.mem_mb;
  replicas = new.replicas;
  min_replicas = new.min_replicas;
  max_replicas = new.max_replicas;
  autoscale = new.autoscale;
  target_cpu_pct = new.target_cpu_pct;
  git_repo = new.git_repo;
  git_branch = new.git_branch;
  git_dockerfile = new.git_dockerfile;
  advanced = or_braces new.advanced;
}

unfoldable pub update_service : Service → Query Unit
unfolding statement
update_service new = statement λ db. (
  ok tt,
  record db {
    services = update (λ (s : Service). int_eq s.id new.id) (with_config new) db.services;
  },
)

unfoldable pub set_service_subdomain : ℤ → Text → Query Unit
unfolding statement
set_service_subdomain id subdomain = statement λ db. (
  ok tt,
  record db {
    services =
        update (λ (s : Service). int_eq s.id id) (λ s. record s { subdomain = subdomain })
          db.services;
  },
)

unfoldable pub set_service_image : ℤ → Text → Query Unit
unfolding statement
set_service_image id image = statement λ db. (
  ok tt,
  record db {
    services =
        update (λ (s : Service). int_eq s.id id)
          (λ s. record s { image = image; last_image = image }) db.services;
  },
)

unfoldable pub delete_service : ℤ → Query Unit
unfolding statement
delete_service id =
    statement
      λ db. (ok tt, record db { services = delete (λ (s : Service). int_eq s.id id) db.services })
