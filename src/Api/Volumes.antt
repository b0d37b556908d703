-- ===== src/Api/Volumes.antt =====
-- server/internal/api/handlers_manage.go: volumes and their size budgets, and the two calls of
-- server/internal/docker/volumes.go that they make.
pub mod Budget
use easy_deploy.Prelude.{
  ℕ, Bool, true, false, not, ◌&&◌, Option, none, some, List, [], Text, codes, text_eq, is_empty,
  if◌then◌else◌,
}
use easy_deploy.Prelude.Int.{ℤ, pos}
use easy_deploy.Effect.{Result, ok, err, Exec, pure, attempt, or_fail, ◌>>=◌, ◌>>◌}
use easy_deploy.Store.{Db, StoreError}
use easy_deploy.Store.Volumes.{set_volume_size, delete_volume_size}
use easy_deploy.Docker.{Labels, label_owner, set_label}
use easy_deploy.Api.{
  or_502, Principal, owner_scope, Failure, failure, Reason, from_docker, refused, Handler,
  or_status, decode, refuse_if,
}
use easy_deploy.Api.Quota.{enforce_volume_quota}

-- What the daemon answers: the name of the created volume, and whether a removal worked.
pub record VolumeDaemon : Type 0 where
  pub volume_create : Text → Text → Labels → Option Text
  pub volume_remove : Text → Bool → Bool

unfoldable pub create_volume : VolumeDaemon → Text → Text → Labels → Option Text
create_volume d name driver labels =
    d.volume_create name (if is_empty driver then codes "local" else driver) labels

pub record NewVolume : Type 0 where
  pub name : Text
  pub driver : Text
  pub labels : Labels
  pub size_mb : ℤ

abbrev pub check_budget : Principal → ℤ → ℤ → Text → Handler Text
check_budget p env size_mb exclude_name =
    or_fail (failure 403) (enforce_volume_quota p env size_mb exclude_name)

-- The labels that the volume gets: a member's volume is stamped with its owner.
abbrev pub stamped : Text → Labels → Labels
stamped owner labels = if is_empty owner then labels else set_label label_owner owner labels

-- The answer of the daemon, and the budget of the volume that it created.
unfoldable pub record_volume : ℤ → Text → ℤ → Option Text → Handler Text
record_volume env owner size_mb created = do
  name ← or_502 created
  or_status 500 (set_volume_size env name owner size_mb)
  pure name

unfoldable pub handle_create_volume :
    Principal → ℤ → Option VolumeDaemon → Option NewVolume → Handler Text
handle_create_volume p env client body = do
  cli ← or_502 client
  req ← decode body
  let owner = owner_scope p
  if is_empty owner then pure [] else check_budget p env req.size_mb []
  record_volume env owner req.size_mb
      (create_volume cli req.name req.driver (stamped owner req.labels))

unfoldable pub handle_resize_volume : Principal → ℤ → Text → Option ℤ → Handler Unit
handle_resize_volume p env name body = do
  size_mb ← decode body
  let owner = owner_scope p
  if is_empty owner then pure [] else check_budget p env size_mb name
  or_status 500 (set_volume_size env name owner size_mb)

abbrev pub worked : Bool → Handler Unit
worked true db = (ok tt, db)
worked false db = (err (failure 502 (from_docker (codes "docker"))), db)

-- The error of the last statement is dropped.
unfoldable pub handle_remove_volume : ℤ → Option VolumeDaemon → Bool → Text → Handler Unit
handle_remove_volume env client force name = do
  cli ← or_502 client
  worked (cli.volume_remove name force)
  dropped ← attempt (delete_volume_size env name)
  pure tt
