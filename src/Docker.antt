-- ===== src/Docker.antt =====
-- server/internal/docker: the wrapper over the Docker SDK. What the daemon answers is a parameter.
pub mod Usage
pub mod Paths
pub mod Listing
pub mod Helpers
pub mod Files
pub mod Replace
pub mod Edge
pub mod Remote
pub mod Build
pub mod Sdk
pub mod Options
pub mod Spec
use easy_deploy.Prelude.{
  ℕ, Bool, Option, none, some, List, [], ◌∷◌, Text, codes, text_eq, if◌then◌else◌,
}
use easy_deploy.Prelude.Int.{ℤ}

abbrev pub Labels : Type 0
Labels = List (Text × Text)

-- `m[k]` for a Go map of strings: the empty string for a missing key.
unfoldable pub label_of : Text → Labels → Text
label_of k [] = []
label_of k ((j, v) ∷ m) = if text_eq j k then v else label_of k m

-- `m[k] = v`
unfoldable pub set_label : Text → Text → Labels → Labels
set_label k v [] = (k, v) ∷ []
set_label k v ((j, w) ∷ m) = if text_eq j k then (k, v) ∷ m else (j, w) ∷ set_label k v m

abbrev pub label_subdomain : Text
label_subdomain = codes "easydeploy.subdomain"

abbrev pub label_managed : Text
label_managed = codes "easydeploy.managed"

abbrev pub label_owner : Text
label_owner = codes "easydeploy.owner"

abbrev pub label_service : Text
label_service = codes "easydeploy.service"

abbrev pub label_replica : Text
label_replica = codes "easydeploy.replica"

-- What `ContainerInspect` tells; the config and the host config may be missing.
pub record ContainerInfo : Type 0 where
  pub name : Text
  pub labels : Option Labels
  -- NanoCPUs and Memory
  pub limits : Option (ℤ × ℤ)
