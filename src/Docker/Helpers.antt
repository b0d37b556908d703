-- ===== src/Docker/Helpers.antt =====
-- server/internal/docker/volumes.go: the helper container through which the files of a volume are read and
-- written; one is kept for each volume. The calls of the daemon are written down, the latest first.
use easy_deploy.Prelude.{
  ℕ, Bool, true, false, ◌&&◌, ◌||◌, ◌==◌, leb, Option, none, some, List, [], ◌∷◌, ◌++◌, map, Text,
  codes, text_eq, is_empty, if◌then◌else◌,
}
use easy_deploy.Prelude.Int.{ℤ}
use easy_deploy.Effect.{ok, err, Exec, pure, raise, ◌>>=◌, ◌>>◌}
use easy_deploy.Docker.{Labels, set_label}

abbrev is_name_char : ℕ → Bool
is_name_char r =
    (leb b'a' r && leb r b'z')
    || ((leb b'A' r && leb r b'Z')
        || ((leb b'0' r && leb r b'9') || (r == b'-' || (r == b'_' || r == b'.'))))

unfoldable pub sanitize_name : Text → Text
sanitize_name s = map (λ r. if is_name_char r then r else b'-') s

pub data EngineCall : Type 0 where
  create : Text → Text → EngineCall
  start : Text → EngineCall
  remove : Text → EngineCall
  pull : Text → EngineCall
  exec : Text → List Text → EngineCall
  -- the container, the directory, the file's name and content
  copy_to : Text → Text → Text → Text → EngineCall
  copy_from : Text → Text → EngineCall
  remove_volume : Text → Bool → EngineCall

-- What a creation answers: the container's id, that the image is missing, or another error.
pub data Created : Type 0 where
  created : Text → Created
  image_missing : Created
  not_created : Text → Created

-- One step of reading an archive: a header (whether it is a regular file, its name and size), or an
-- error. The end of the list is the end of the archive.
pub data ArchiveStep : Type 0 where
  header : Bool → Text → ℤ → ArchiveStep
  broken : Text → ArchiveStep

-- What the daemon answers. `inspect` tells the id and whether the container runs; `create` is told
-- whether the image was pulled before; `exec` gives the output, the errors and the exit code.
pub record Engine : Type 0 where
  pub inspect : Text → Option (Text × Bool)
  pub create : Bool → Text → Text → Created
  pub starts : Text → Bool
  pub exec : Text → List Text → Option (Text × Text × ℤ)
  pub copies : Text → Text → Text → Text → Bool
  pub archive : Text → Text → Option (List ArchiveStep)
  pub removes : Text → Bool → Bool
  -- the containers with the helpers' label
  pub helpers : Option (List Text)

-- `Client.volHelpers`, and the calls made.
pub record Client : Type 0 where
  pub vol_helpers : Labels
  pub calls : List EngineCall

abbrev pub Task : Type 0 → Type 0
Task A = Exec Client Text A

abbrev pub call : EngineCall → Task Unit
call c w = (ok tt, record w { calls = c ∷ w.calls })

abbrev pub answered : {A : Type 0} → Option A → Task A
answered none w = (err (codes "docker"), w)
answered (some a) w = (ok a, w)

abbrev pub succeeded : Bool → Text → Task Unit
succeeded worked why w = (if worked then ok tt else err why, w)

unfoldable pub find_helper : Text → Labels → Option Text
find_helper name [] = none
find_helper name ((n, id) ∷ rest) = if text_eq n name then some id else find_helper name rest

unfoldable pub drop_helper : Text → Labels → Labels
drop_helper name [] = []
drop_helper name ((n, id) ∷ rest) =
    if text_eq n name then drop_helper name rest else (n, id) ∷ drop_helper name rest

abbrev forget : Text → Task Unit
forget name w = (ok tt, record w { vol_helpers = drop_helper name w.vol_helpers })

abbrev remember : Text → Text → Task Unit
remember name id w = (ok tt, record w { vol_helpers = set_label name id w.vol_helpers })

abbrev pub vol_helper_image : Text
vol_helper_image = codes "alpine:latest"

unfoldable pub helper_name : Text → Text
unfolding sanitize_name
helper_name name = codes "easydeploy-volhelper-" ++ sanitize_name name

abbrev pub is_running : Option (Text × Bool) → Bool
is_running none = false
is_running (some (id, running)) = running

module _ (e : Engine) where
  abbrev created_or : Created → Task Text
  created_or (created id) = pure id
  created_or image_missing = raise (codes "create volume helper")
  created_or (not_created why) = raise (codes "create volume helper")

  -- The image is pulled only if the daemon misses it.
  abbrev created_first : Text → Created → Task Text
  created_first name (created id) = pure id
  created_first name (not_created why) = raise (codes "create volume helper")
  created_first name image_missing = do
    call (pull vol_helper_image)
    call (create (helper_name name) name)
    created_or (e.create true (helper_name name) name)

  unfoldable pub start_helper : Text → Task Text
  start_helper name = do
    call (create (helper_name name) name)
    id ← created_first name (e.create false (helper_name name) name)
    call (start id)
    succeeded (e.starts id) (codes "start volume helper")
    remember name id
    pure id

  -- A helper from before a restart is taken over if it runs, and removed otherwise.
  abbrev pub take_over : Text → Option (Text × Bool) → Task Text
  take_over name none = start_helper name
  take_over name (some (id, running)) =
      if running then (do remember name id; pure id) else (do call (remove id); start_helper name)

  abbrev pub cached_helper : Text → Option Text → Task Text
  cached_helper name none = take_over name (e.inspect (helper_name name))
  cached_helper name (some id) =
      if is_running (e.inspect id)
      then pure id
      else (do forget name; take_over name (e.inspect (helper_name name)))

  unfoldable pub volume_helper : Text → Task Text
  unfolding start_helper
  volume_helper name w = cached_helper name (find_helper name w.vol_helpers) w

  abbrev helper_or_name : Text → Option Text → Text
  helper_or_name name none = helper_name name
  helper_or_name name (some id) = if is_empty id then helper_name name else id

  unfoldable pub release_helper : Text → Task Unit
  unfolding find_helper drop_helper
  release_helper name w =
      let id = helper_or_name name (find_helper name w.vol_helpers) in
      (forget name >> call (remove id)) w

  unfoldable pub drop_volume : Text → Bool → Task Unit
  unfolding release_helper
  drop_volume name force = do
    release_helper name
    call (remove_volume name force)
    succeeded (e.removes name force) (codes "docker")

  unfoldable pub remove_each : List Text → Task Unit
  remove_each [] = pure tt
  remove_each (id ∷ ids) = let others = remove_each ids in (call (remove id) >> others)

  abbrev removed_all : Option (List Text) → Task Unit
  removed_all none = pure tt
  removed_all (some ids) = remove_each ids

  unfoldable pub cleanup_volume_helpers : Task Unit
  unfolding remove_each
  cleanup_volume_helpers = removed_all e.helpers
