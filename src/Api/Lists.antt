-- ===== src/Api/Lists.antt =====
-- server/internal/api/handlers.go and handlers_manage.go: what is shown of a host's containers, volumes,
-- networks and images, and the actions on one of them. What the daemon answers is a parameter; `none`
-- is a host that cannot be reached, or an error.
use easy_deploy.Prelude.{
  Bool, not, Option, List, [], ◌∷◌, map, Text, codes, text_eq, is_empty, has, if◌then◌else◌,
}
use easy_deploy.Prelude.Int.{ℤ, pos, negsuc}
use easy_deploy.Prelude.Rows.{select}
use easy_deploy.Effect.{Result, ok, err, pure, attempt, ◌>>=◌}
use easy_deploy.Store.{StoreError}
use easy_deploy.Store.Volumes.{list_volume_sizes}
use easy_deploy.Docker.{Labels, label_of, set_label, label_owner, label_managed}
use easy_deploy.Api.{Principal, is_admin, owner_scope, Handler, or_502, decode}
use easy_deploy.Api.Volumes.{worked}

-- A container, a network, or a volume, with the labels by which it is scoped.
pub record Labelled (A : Type 0) : Type 0 where
  pub labels : Labels
  pub shown : A

abbrev labelled : {A : Type 0} → Text → Labelled A → Bool
labelled owner x = text_eq (label_of label_owner x.labels) owner

-- Those of the owner, or all where it is empty.
unfoldable pub scoped : {A : Type 0} → Text → List (Labelled A) → List (Labelled A)
scoped owner xs = if is_empty owner then xs else select (labelled owner) xs

-- A query that the daemon of the request's host answers.
unfoldable pub ask : {A : Type 0} → Option (Option A) → Handler A
ask client = do answer ← or_502 client; or_502 answer

-- An action that the daemon of the request's host carries out.
unfoldable pub act : Option Bool → Handler Unit
act client = do done ← or_502 client; worked done

-- The filter is by the member's name, also where that is empty.
unfoldable pub handle_list_containers :
    {A : Type 0}
    → Principal
    → Option (Bool → Option (List (Labelled A)))
    → Text
    → Handler (List (Labelled A))
handle_list_containers p client all_query = do
  list_all ← or_502 client
  list ← or_502 (list_all (not (text_eq all_query (codes "false"))))
  pure (if is_admin p then list else select (labelled p.username) list)

unfoldable pub handle_list_images : {A : Type 0} → Option (Option (List A)) → Handler (List A)
unfolding ask
handle_list_images client = ask client

unfoldable pub handle_list_networks :
    {A : Type 0} → Principal → Option (Option (List (Labelled A))) → Handler (List (Labelled A))
unfolding ask scoped
handle_list_networks p client = do list ← ask client; pure (scoped (owner_scope p) list)

pub record VolumeInfo : Type 0 where
  pub name : Text
  pub driver : Text
  pub mountpoint : Text

pub record VolumeView : Type 0 where
  pub info : VolumeInfo
  pub labels : Labels
  -- -1 where it is not computed
  pub size : ℤ
  pub ref_count : ℤ
  pub size_mb : ℤ

unfoldable pub budget_of : Text → List (Text × ℤ) → ℤ
budget_of name [] = pos 0
budget_of name ((n, mb) ∷ rest) = if text_eq n name then mb else budget_of name rest

abbrev or_no_budgets : Result StoreError (List (Text × ℤ)) → List (Text × ℤ)
or_no_budgets (ok sizes) = sizes
or_no_budgets (err e) = []

abbrev view_of : List (Text × ℤ) → Labelled VolumeInfo → VolumeView
view_of budgets v = record {
  info = v.shown;
  labels = v.labels;
  size = negsuc 0;
  ref_count = negsuc 0;
  size_mb = budget_of v.shown.name budgets;
}

unfoldable pub handle_list_volumes :
    Principal → ℤ → Option (Option (List (Labelled VolumeInfo))) → Handler (List VolumeView)
unfolding ask scoped budget_of
handle_list_volumes p env client = do
  list ← ask client
  budgets ← attempt (list_volume_sizes env)
  pure (map (view_of (or_no_budgets budgets)) (scoped (owner_scope p) list))

abbrev name_of : Labelled VolumeInfo → Text
name_of v = v.shown.name

unfoldable pub handle_volume_names :
    Principal → Option (Option (List (Labelled VolumeInfo))) → Handler (List Text)
unfolding ask scoped
handle_volume_names p client = do
  list ← ask client
  pure (map name_of (scoped (owner_scope p) list))

abbrev usage_of : List Text → List (Text × ℤ × ℤ) → List (Text × ℤ × ℤ)
usage_of owned usage = select (λ (u : Text × ℤ × ℤ). has u.0 owned) usage

-- Size and reference count by volume; a member's list is cut to the member's volumes.
unfoldable pub handle_volume_usage :
    Principal
    → Option (Option (List (Text × ℤ × ℤ)))
    → Option (List (Labelled VolumeInfo))
    → Handler (List (Text × ℤ × ℤ))
unfolding ask scoped
handle_volume_usage p client volumes = do
  usage ← ask client
  if is_empty (owner_scope p) then pure usage else do
    vols ← or_502 volumes
    pure (usage_of (map name_of (scoped (owner_scope p) vols)) usage)

-- Inspecting a container, a volume or a network.
unfoldable pub handle_inspect : {A : Type 0} → Option (Text → Option A) → Text → Handler A
handle_inspect client target = do inspect ← or_502 client; or_502 (inspect target)

-- Starting, stopping, restarting and removing a container.
unfoldable pub handle_container_action : Option (Text → Bool) → Text → Handler Unit
handle_container_action client id = do action ← or_502 client; worked (action id)

unfoldable pub handle_remove_image : Option (Text → Bool → Bool) → Text → Text → Handler Unit
handle_remove_image client id force_query = do
  remove_image ← or_502 client
  worked (remove_image id (text_eq force_query (codes "true")))

-- A network is stamped with the member who creates it; the driver falls back to a bridge.
unfoldable pub handle_create_network :
    Principal → Option (Text → Text → Labels → Option Text) → Option (Text × Text) → Handler Text
handle_create_network p client body = do
  create ← or_502 client
  req ← decode body
  let managed : Labels = (label_managed, codes "true") ∷ []
  let owner = owner_scope p
  let labels = if is_empty owner then managed else set_label label_owner owner managed
  or_502 (create req.0 (if is_empty req.1 then codes "bridge" else req.1) labels)

unfoldable pub handle_remove_network : Option (Text → Bool) → Text → Handler Unit
handle_remove_network client id = do remove_network ← or_502 client; worked (remove_network id)

-- Connecting a container to a network, and taking it off.
unfoldable pub handle_attach_network :
    Option (Text → Text → Bool) → Text → Option Text → Handler Unit
handle_attach_network client id body = do
  attach ← or_502 client
  container ← decode body
  worked (attach id container)
