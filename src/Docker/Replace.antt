-- ===== src/Docker/Replace.antt =====
-- server/internal/docker/manage.go: a container is changed by replacing it. The calls of the daemon are
-- written down, the latest first.
use easy_deploy.Prelude.{
  Bool, true, false, Option, none, some, List, [], ◌∷◌, Text, codes, is_empty, if◌then◌else◌,
}
use easy_deploy.Effect.{ok, Exec, pure, raise, ◌>>=◌, ◌>>◌}
use easy_deploy.Docker.Options.{DeploySpec}
use easy_deploy.Registry.{trim_prefix}

-- What `ContainerInspect` tells: the image and the rest of the config with the host config, and the
-- networks, in the order in which Go ranges over them.
pub record Inspected (K : Type 0) : Type 0 where
  pub name : Text
  pub config : Option (Text × K)
  pub networks : List Text

pub data ReplaceCall (K : Type 0) : Type 0 where
  pull : Text → Text → ReplaceCall K
  stop : Text → ReplaceCall K
  remove : Text → ReplaceCall K
  deploy : DeploySpec → ReplaceCall K
  -- the name, the image with the rest of the config, and the first network
  create : Text → Text × K → Option Text → ReplaceCall K
  connect : Text → Text → ReplaceCall K
  start : Text → ReplaceCall K

-- The answers of the daemon; those to a pull, a stop and a connection are not looked at.
pub record Replacer (K : Type 0) : Type 0 where
  pub inspect : Text → Option (Inspected K)
  pub removes : Text → Bool
  pub deploys : DeploySpec → Option Text
  pub creates : Text → Text × K → Option Text → Option Text
  pub starts : Text → Bool

abbrev pub Task : Type 0 → Type 0 → Type 0
Task K A = Exec (List (ReplaceCall K)) Text A

abbrev call : {K : Type 0} → ReplaceCall K → Task K Unit
call c cs = (ok tt, c ∷ cs)

abbrev or_raise : {K A : Type 0} → Text → Option A → Task K A
or_raise why none = raise why
or_raise why (some a) = pure a

abbrev succeeded : {K : Type 0} → Text → Bool → Task K Unit
succeeded why true = pure tt
succeeded why false = raise why

-- The old container is stopped and removed, so that its name is free.
unfoldable pub free_name : {K : Type 0} → Replacer K → Text → Task K Unit
free_name d id = do call (stop id); call (remove id); succeeded (codes "remove old") (d.removes id)

abbrev named : Text → DeploySpec → DeploySpec
named name spec = if is_empty spec.name then record spec { name = name } else spec

unfoldable pub edit_container : {K : Type 0} → Replacer K → Text → DeploySpec → Task K Text
unfolding free_name
edit_container d id spec = do
  info ← or_raise (codes "inspect") (d.inspect id)
  let new = named (trim_prefix (codes "/") info.name) spec
  free_name d id
  call (deploy new)
  or_raise (codes "deploy") (d.deploys new)

abbrev first_network : List Text → Option Text
first_network [] = none
first_network (n ∷ ns) = some n

-- The networks after the first are connected one by one.
unfoldable pub connect_rest : {K : Type 0} → Text → List Text → Task K Unit
connect_rest id [] = pure tt
connect_rest id (n ∷ ns) = let others = connect_rest id ns in (call (connect n id) >> others)

abbrev after_first : List Text → List Text
after_first [] = []
after_first (n ∷ ns) = ns

unfoldable pub recreate : {K : Type 0} → Replacer K → Text → Text → Text → Task K Text
unfolding free_name connect_rest
recreate d id new_image auth = do
  info ← or_raise (codes "inspect") (d.inspect id)
  old ← or_raise (codes "container has no config") info.config
  let image = if is_empty new_image then old.0 else new_image
  call (pull image auth)
  free_name d id
  let name = trim_prefix (codes "/") info.name
  let network = first_network info.networks
  call (create name (image, old.1) network)
  created ← or_raise (codes "create new") (d.creates name (image, old.1) network)
  connect_rest created (after_first info.networks)
  call (start created)
  succeeded (codes "start new") (d.starts created)
  pure created
