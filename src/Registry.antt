-- ===== src/Registry.antt =====
-- server/internal/registry/registry.go: the credentials that an image is pulled with.
pub mod Matching
pub mod Web
use easy_deploy.Prelude.{
  ℕ, Bool, true, false, not, ◌&&◌, ◌||◌, Option, none, some, List, [], ◌∷◌, ◌++◌, Text, codes,
  text_eq, is_empty, has, ◌==◌, if◌then◌else◌,
}
use easy_deploy.Prelude.Prefix.{starts_with}
use easy_deploy.Prelude.Int.{ℤ, pos, int_eq}
use easy_deploy.Effect.{Result, ok, err, Exec, pure, raise, or_fail, ◌>>=◌, ◌>>◌}
use easy_deploy.Store.{Db, StoreError, Registry, Query}
use easy_deploy.Store.Registries.{list_registries, get_registry, insert_registry, delete_registry}
use easy_deploy.Docker.Spec.{cut_slash}

unfoldable drop_prefix : Text → Text → Text
drop_prefix [] s = s
drop_prefix (c ∷ p) [] = []
drop_prefix (c ∷ p) (d ∷ s) = drop_prefix p s

-- `strings.TrimPrefix`
unfoldable pub trim_prefix : Text → Text → Text
unfolding drop_prefix
trim_prefix p s = if starts_with p s then drop_prefix p s else s

-- `strings.TrimSuffix(s, "/")`
unfoldable pub trim_last_slash : Text → Text
trim_last_slash [] = []
trim_last_slash (c ∷ s) =
    let rest = trim_last_slash s in if is_empty s && c == b'/' then [] else c ∷ rest

unfoldable pub normalize_host : Text → Text
unfolding trim_last_slash trim_prefix
normalize_host url =
    trim_prefix (codes "http://") (trim_prefix (codes "https://") (trim_last_slash url))

abbrev pub docker_hub : Text
docker_hub = codes "registry-1.docker.io"

-- `strings.ContainsAny(s, ".:")`
unfoldable pub has_dot_or_colon : Text → Bool
has_dot_or_colon [] = false
has_dot_or_colon (c ∷ s) = c == b'.' || (c == b':' || has_dot_or_colon s)

abbrev host_before : Text × Option Text → Text
host_before (first, none) = docker_hub
host_before (first, some rest) =
    if has_dot_or_colon first || text_eq first (codes "localhost") then first else docker_hub

unfoldable pub host_for_image : Text → Text
unfolding cut_slash has_dot_or_colon
host_for_image image = host_before (cut_slash image)

abbrev pub hub_names : List Text
hub_names = codes "docker.io" ∷ codes "index.docker.io" ∷ docker_hub ∷ []

unfoldable pub hosts_match : Text → Text → Bool
unfolding normalize_host
hosts_match configured image_host =
    let host = normalize_host configured in
    if text_eq host image_host then true else has host hub_names && has image_host hub_names

pub data RegistryError : Type 0 where
  from_store : StoreError → RegistryError
  from_box : RegistryError
  invalid : RegistryError

-- The secret box: `none` is an error. `encode` is the token of `encodeAuth`, JSON in base64.
pub record Box : Type 0 where
  pub encrypt : Text → Option Text
  pub decrypt : Text → Option Text
  pub encode : Text → Text → Text → Text

abbrev pub Task : Type 0 → Type 0
Task A = Exec Db RegistryError A

abbrev or_box : {A : Type 0} → Option A → Task A
or_box none db = (err from_box, db)
or_box (some a) db = (ok a, db)

module _ (box : Box) where
  -- The loop: the token of the first registry of the image's host; empty if there is none.
  unfoldable pub auth_among : Text → List Registry → Result RegistryError Text
  auth_among host [] = ok []
  auth_among host (r ∷ rs) =
      let rest = auth_among host rs in
      let here = elim (box.decrypt r.password_enc) as (λ _. Result RegistryError Text) [
        | none ↦ err from_box
        | some password ↦ ok (box.encode r.username password r.url)
      ] in
      if hosts_match r.url host then here else rest

  unfoldable pub auth_for_image : Text → Task Text
  unfolding auth_among
  auth_for_image image = do
    regs ← or_fail from_store (list_registries [])
    λ db. (auth_among (host_for_image image) regs, db)

  unfoldable pub create : Text → Text → Text → Text → Text → Task Registry
  unfolding normalize_host
  create name url username password owner =
      if is_empty name || is_empty url then raise invalid else do
        enc ← or_box (box.encrypt password)
        or_fail from_store (
            insert_registry (record {
              id = pos 0;
              name = name;
              url = normalize_host url;
              username = username;
              password_enc = enc;
              owner = owner;
            }))

unfoldable pub registry_owner : ℤ → Query Text
registry_owner id = do r ← get_registry id; pure r.owner
