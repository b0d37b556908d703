-- ===== src/Api/Access.antt =====
-- server/internal/api: which environment a request targets (server.go), and the middleware that
-- keeps members from environments, containers, volumes and networks that are not theirs
-- (server.go, handlers_users.go).
use mathlib.Core.Option
use easy_deploy.Prelude.{
  ◌≡◌, ◌≤◌, ◌≢◌, false, not, ◌||◌, Option, none, some, [], arith, Text, codes, text_eq, text_eq_iff,
  is_empty, if◌then◌else◌,
}
use easy_deploy.Prelude.Int.{ℤ, pos, int_eq}
use easy_deploy.Prelude.Decimal.{parse_int, parsed_value}
use easy_deploy.Prelude.Rows.{exists}
use easy_deploy.Effect.{Result, ok, err, ◌>>=◌, ◌>>◌}
use easy_deploy.Store.{Db, statement, answering}
use easy_deploy.Registry.{registry_owner}
use easy_deploy.Store.Grants.{user_has_endpoint, is_grant}
use easy_deploy.Docker.{ContainerInfo, Labels, label_of, label_owner}
use easy_deploy.Api.{
  Principal, is_admin, Failure, failure, refused, Handler, or_status, refuse_if, or_502, url_id,
}

-- The header, else the query; a number that does not parse is 0, the local host, and one out of
-- range is the nearest bound.
unfoldable pub endpoint_id : Text → Text → ℤ
endpoint_id header query =
    let v = if is_empty header then query else header in
    if is_empty v || text_eq v (codes "local") then pos 0 else parsed_value (parse_int v)

unfoldable pub require_endpoint_access : {A : Type 0} → Principal → ℤ → Handler A → Handler A
require_endpoint_access p id next =
    if int_eq id (pos 0) then next else if is_admin p then next else (do
      granted ← or_status 500 (user_has_endpoint p.user_id id)
      refuse_if (not granted) (failure 403 (refused (codes "no access to this environment")))
      next)

-- The part that the three owner checks share: `inspect` gives the labels, or fails.
unfoldable pub require_label :
    {A : Type 0} → Text → Principal → Option (Text → Option Labels) → Text → Handler A → Handler A
require_label why p inspect target next = if is_admin p then next else do
  cli ← or_502 inspect
  labels ← or_502 (cli target)
  refuse_if (not (text_eq (label_of label_owner labels) p.username)) (failure 403 (refused why))
  next

-- a container without a config has no labels
abbrev pub labels_or_none : ContainerInfo → Labels
labels_or_none info = elim info.labels [ none ↦ [] | some labels ↦ labels ]

unfoldable pub require_container_owner :
    {A : Type 0} → Principal → Option (Text → Option ContainerInfo) → Text → Handler A → Handler A
unfolding require_label
require_container_owner p client id =
    require_label (codes "you do not own this container") p
      (Option.map (λ inspect id. Option.map labels_or_none (inspect id)) client) id

unfoldable pub require_volume_owner :
    {A : Type 0} → Principal → Option (Text → Option Labels) → Text → Handler A → Handler A
unfolding require_label
require_volume_owner p client name =
    require_label (codes "you do not own this volume") p client name

unfoldable pub require_network_owner :
    {A : Type 0} → Principal → Option (Text → Option Labels) → Text → Handler A → Handler A
unfolding require_label
require_network_owner p client id = require_label (codes "you do not own this network") p client id

unfoldable pub require_registry_owner : {A : Type 0} → Principal → Text → Handler A → Handler A
require_registry_owner p target next = if is_admin p then next else do
  id ← url_id target
  owner ← or_status 404 (registry_owner id)
  refuse_if (not (text_eq owner p.username))
      (failure 403 (refused (codes "you do not own this registry")))
  next

-- An error response that left every table as it was.
abbrev pub IsDenied : {A : Type 0} → Db → Result Failure A × Db → Type 0
IsDenied db (ok a, after) = ⊥
IsDenied db (err f, after) = (answering after ≡ answering db) × (403 ≤ f.status)

-- A member's request for a remote environment without a grant never reaches its handler, whether or
-- not the database answers: the answer is an error, and no table changes.
pub require_endpoint_access-IsDenied :
    {A : Type 0} (p : Principal) (id : ℤ) (next : Handler A) (db : Db)
    → int_eq id (pos 0) ≡ false
    → is_admin p ≡ false
    → exists (is_grant p.user_id id) db.grants ≡ false
    → IsDenied db (require_endpoint_access p id next db)
unfolding require_endpoint_access user_has_endpoint statement
require_endpoint_access-IsDenied p id next db remote member absent =
    rw remote (rw member (ground arith))

-- A member's request for a container that the daemon knows, and whose owner label is not the
-- member's name, never reaches its handler: the answer is an error, and no table changes. A
-- container without the label has the empty name as owner.
pub require_container_owner-IsDenied :
    {A : Type 0} (p : Principal) (inspect : Text → Option ContainerInfo) (id : Text)
    (next : Handler A) (info : ContainerInfo) (db : Db)
    → is_admin p ≡ false
    → inspect id ≡ some info
    → label_of label_owner (labels_or_none info) ≢ p.username
    → IsDenied db (require_container_owner p (some inspect) id next db)
unfolding require_container_owner
require_container_owner-IsDenied p inspect id next info db member there other =
    rw member (
      rw there
        (ground (arith, text_eq_iff (label_of label_owner (labels_or_none info)) p.username)))
