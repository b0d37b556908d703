-- ===== src/Docker/Spec/Labelling.antt =====
-- Whose a deployed container is: its labels, and what the advanced options may do to them.
use easy_deploy.Prelude.{
  Bool, true, false, ◌≡◌, refl, ◌∙◌, arith, Option, some, [], ◌∷◌, Text, text_eq, text_eq_iff,
  if◌then◌else◌,
}
use easy_deploy.Docker.{Labels, label_of, set_label, label_owner}
use easy_deploy.Docker.Spec.{
  DeploySpec, Config, HostConfig, set_labels, deploy_config, base_labels, own_labels,
  apply_advanced, apply_config, apply_host,
}

pub label_of-set_label :
    (j k v : Text) (m : Labels)
    → label_of j (set_label k v m) ≡ (if text_eq k j then v else label_of j m)
unfolding label_of set_label
label_of-set_label j k v [] = refl
label_of-set_label j k v ((i, w) ∷ m) =
    ground (arith, label_of-set_label j k v m, text_eq_iff i k, text_eq_iff i j, text_eq_iff k j)

-- Is the key set?
unfoldable pub has_label : Text → Labels → Bool
has_label k [] = false
has_label k ((j, v) ∷ m) = if text_eq j k then true else has_label k m

-- Labels are added one by one, so a key that is not among the new ones keeps its value.
pub label_of-set_labels_other :
    (k : Text) (new m : Labels)
    → has_label k new ≡ false
    → label_of k (set_labels new m) ≡ label_of k m
unfolding set_labels has_label
label_of-set_labels_other k [] m h = refl
label_of-set_labels_other k ((j, v) ∷ new) m h =
    ground (arith, label_of-set_labels_other k new (set_label j v m), label_of-set_label k j v m)

-- A key of the new labels that stands there once takes the new value.
pub label_of-set_labels :
    (k v : Text) (rest m : Labels)
    → has_label k rest ≡ false
    → label_of k (set_labels rest (set_label k v m)) ≡ v
label_of-set_labels k v rest m h = ground (
  arith,
  label_of-set_labels_other k rest (set_label k v m) h,
  label_of-set_label k k v m,
  text_eq_iff k k,
)

own_labels-owner : (spec : DeploySpec) → label_of label_owner (own_labels spec) ≡ spec.owner
unfolding own_labels text_eq label_of set_label
own_labels-owner spec = ground arith

base_labels-owner :
    (new_port : Text → Text → Option Text) (spec : DeploySpec)
    → has_label label_owner spec.extra_labels ≡ false
    → label_of label_owner (base_labels new_port spec) ≡ spec.owner
unfolding base_labels
base_labels-owner new_port spec h =
    label_of-set_labels_other label_owner spec.extra_labels (own_labels spec) h
    ∙ own_labels-owner spec

module _ (new_port : Text → Text → Option Text) (spec : DeploySpec) (cfg : Config)
    (host : HostConfig) (made : deploy_config new_port spec ≡ some (cfg, host)) where
  deploy_config-labels : cfg.labels ≡ set_labels spec.advanced.labels (base_labels new_port spec)
  unfolding deploy_config apply_advanced apply_config
  deploy_config-labels = ground arith

  -- The limits that the quota check was made for reach the daemon, whatever the advanced options.
  pub deploy_config-limits : (host.nano_cpus ≡ spec.nano_cpus) × (host.memory ≡ spec.memory_bytes)
  unfolding deploy_config apply_advanced apply_host
  deploy_config-limits = ground arith

  -- A container is labelled with the owner that the quota was checked for, if neither the extra
  -- labels nor the advanced options set that label.
  pub deploy_config-owner :
      has_label label_owner spec.extra_labels ≡ false
      → has_label label_owner spec.advanced.labels ≡ false
      → label_of label_owner cfg.labels ≡ spec.owner
  deploy_config-owner extra own = rw deploy_config-labels (
      label_of-set_labels_other label_owner spec.advanced.labels (base_labels new_port spec) own
      ∙ base_labels-owner new_port spec extra)

  -- An owner label among the advanced options takes the place of the owner: the container counts for
  -- whom the options name, or for nobody.
  pub deploy_config-disowned :
      (v : Text) (rest : Labels)
      → spec.advanced.labels ≡ (label_owner, v) ∷ rest
      → has_label label_owner rest ≡ false
      → label_of label_owner cfg.labels ≡ v
  unfolding set_labels base_labels
  deploy_config-disowned v rest given once =
      rw deploy_config-labels
        (rw given (label_of-set_labels label_owner v rest (base_labels new_port spec) once))
