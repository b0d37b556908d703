-- ===== src/Store/Volumes.antt =====
-- server/internal/store/volume_specs.go: the size budgets of volumes.
use easy_deploy.Prelude.{Bool, not, ◌&&◌, List, [], ◌∷◌, map, Text, text_eq, if◌then◌else◌}
use easy_deploy.Prelude.Int.{ℤ, pos, int_eq, ◌+ℤ◌}
use easy_deploy.Prelude.Rows.{select, delete}
use easy_deploy.Effect.{ok}
use easy_deploy.Store.{VolumeSpec, Query, statement}

abbrev pub is_volume : ℤ → Text → VolumeSpec → Bool
is_volume endpoint_id name v = int_eq v.endpoint_id endpoint_id && text_eq v.name name

-- `INSERT … ON CONFLICT (endpoint_id, name) DO UPDATE`: the key is unique, so the first row with it
-- is the only one.
unfoldable pub put_volume : VolumeSpec → List VolumeSpec → List VolumeSpec
put_volume new [] = new ∷ []
put_volume new (v ∷ vs) =
    if is_volume new.endpoint_id new.name v
    then record v { size_mb = new.size_mb; owner = new.owner } ∷ vs
    else v ∷ put_volume new vs

unfoldable pub set_volume_size : ℤ → Text → Text → ℤ → Query Unit
unfolding statement put_volume
set_volume_size endpoint_id name owner size_mb = statement λ db. (
  ok tt,
  record db {
    volumes =
        put_volume
          (record { endpoint_id = endpoint_id; name = name; owner = owner; size_mb = size_mb })
          db.volumes;
  },
)

unfoldable pub delete_volume_size : ℤ → Text → Query Unit
unfolding statement
delete_volume_size endpoint_id name =
    statement λ db. (ok tt, record db { volumes = delete (is_volume endpoint_id name) db.volumes })

unfoldable pub list_volume_sizes : ℤ → Query (List (Text × ℤ))
unfolding statement
list_volume_sizes endpoint_id = statement λ db. (
  ok (
      map (λ (v : VolumeSpec). (v.name, v.size_mb))
        (select (λ v. int_eq v.endpoint_id endpoint_id) db.volumes)),
  db,
)

abbrev pub counts_for : ℤ → Text → Text → VolumeSpec → Bool
counts_for endpoint_id owner exclude_name v =
    int_eq v.endpoint_id endpoint_id && (text_eq v.owner owner && not (text_eq v.name exclude_name))

-- `COALESCE(SUM(size_mb), 0)` over the volumes of one owner, one left out by name.
unfoldable pub usage : ℤ → Text → Text → List VolumeSpec → ℤ
usage endpoint_id owner exclude_name [] = pos 0
usage endpoint_id owner exclude_name (v ∷ vs) =
    let rest = usage endpoint_id owner exclude_name vs in
    if counts_for endpoint_id owner exclude_name v then v.size_mb +ℤ rest else rest

unfoldable pub owner_disk_usage_mb : ℤ → Text → Text → Query ℤ
unfolding statement
owner_disk_usage_mb endpoint_id owner exclude_name =
    statement λ db. (ok (usage endpoint_id owner exclude_name db.volumes), db)
