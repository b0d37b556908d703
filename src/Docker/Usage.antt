-- ===== src/Docker/Usage.antt =====
-- server/internal/docker/manage.go: what an owner's containers use.
use easy_deploy.Prelude.{
  Bool, false, not, ◌&&◌, Option, none, some, List, [], ◌∷◌, Text, text_eq, is_empty, if◌then◌else◌,
}
use easy_deploy.Prelude.Int.{ℤ, pos, ◌+ℤ◌, wrap64}
use easy_deploy.Docker.{ContainerInfo, Labels, label_of, label_service}

-- The daemon of one host, as one request finds it. `none` is an error.
pub record Daemon : Type 0 where
  -- `ContainerList` of all containers whose owner label has the value
  pub list_owned : Text → Option (List Text)
  pub inspect : Text → Option ContainerInfo

abbrev pub in_service : Text → Option Labels → Bool
in_service service none = false
in_service service (some labels) = text_eq (label_of label_service labels) service

abbrev pub add_limits : Option (ℤ × ℤ) → ℤ × ℤ → ℤ × ℤ
add_limits none used = used
add_limits (some (nano, mem)) (used_nano, used_mem) =
    (wrap64 (used_nano +ℤ nano), wrap64 (used_mem +ℤ mem))

-- one round of the loop; a container that vanished is skipped
abbrev pub add_container : Text → Option ContainerInfo → ℤ × ℤ → ℤ × ℤ
add_container exclude_service none used = used
add_container exclude_service (some info) used =
    if not (is_empty exclude_service) && in_service exclude_service info.labels
    then used
    else add_limits info.limits used

unfoldable pub sum_usage : (Text → Option ContainerInfo) → Text → ℤ × ℤ → List Text → ℤ × ℤ
sum_usage inspect exclude_service used [] = used
sum_usage inspect exclude_service used (id ∷ ids) =
    sum_usage inspect exclude_service (add_container exclude_service (inspect id) used) ids

abbrev pub sum_listed : (Text → Option ContainerInfo) → Text → Option (List Text) → Option (ℤ × ℤ)
sum_listed inspect exclude_service none = none
sum_listed inspect exclude_service (some ids) =
    some (sum_usage inspect exclude_service (pos 0, pos 0) ids)

unfoldable pub owner_usage_excluding_service : Daemon → Text → Text → Option (ℤ × ℤ)
unfolding sum_usage
owner_usage_excluding_service d owner exclude_service =
    sum_listed d.inspect exclude_service (d.list_owned owner)

unfoldable pub owner_usage : Daemon → Text → Option (ℤ × ℤ)
unfolding owner_usage_excluding_service
owner_usage d owner = owner_usage_excluding_service d owner []
