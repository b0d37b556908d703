-- ===== src/Api/Files.antt =====
-- server/internal/api/handlers_manage.go: the files of a volume, over its helper container.
use easy_deploy.Prelude.{Option, none, some, List, Text, codes}
use easy_deploy.Prelude.Int.{ℤ}
use easy_deploy.Effect.{ok, err, Exec, pure, or_fail, ◌>>=◌, ◌>>◌}
use easy_deploy.Docker.Files.{
  browse_volume, mkdir_volume, delete_in_volume, upload_to_volume, download_from_volume,
}
use easy_deploy.Docker.Helpers
use easy_deploy.Docker.Helpers.{Engine, Client}
use easy_deploy.Docker.Listing.{VolFile}
use easy_deploy.Api.{Failure, failure, refused, from_docker, decode}

abbrev pub FileHandler : Type 0 → Type 0
FileHandler A = Exec Client Failure A

abbrev engine_or_502 : Option Engine → FileHandler Engine
engine_or_502 none w = (err (failure 502 (from_docker (codes "docker"))), w)
engine_or_502 (some e) w = (ok e, w)

abbrev done_or_502 : {A : Type 0} → Helpers.Task A → FileHandler A
done_or_502 = or_fail (λ why. failure 502 (from_docker why))

unfoldable pub handle_browse_volume :
    (Text → Text) → Option Engine → Text → Text → FileHandler (List VolFile)
handle_browse_volume quote client name path = do
  e ← engine_or_502 client
  done_or_502 (browse_volume e quote name path)

unfoldable pub handle_mkdir_volume : Option Engine → Text → Option Text → FileHandler Unit
handle_mkdir_volume client name body = do
  e ← engine_or_502 client
  path ← decode body
  done_or_502 (mkdir_volume e name path)

unfoldable pub handle_delete_volume_file : Option Engine → Text → Text → FileHandler Unit
handle_delete_volume_file client name path = do
  e ← engine_or_502 client
  done_or_502 (delete_in_volume e name path)

abbrev form_file : Option (Text × Option Text) → FileHandler (Text × Option Text)
form_file none w = (err (failure 400 (refused (codes "missing 'file' field"))), w)
form_file (some f) w = (ok f, w)

-- `form` is the multipart form, if it can be parsed, with the name and the content of its file, if it
-- has one.
unfoldable pub handle_upload_volume :
    Option Engine → Text → Text → Option (Option (Text × Option Text)) → FileHandler Text
handle_upload_volume client name dir form = do
  e ← engine_or_502 client
  parsed ← decode form
  file ← form_file parsed
  done_or_502 (upload_to_volume e name dir file.0 file.1)
  pure file.0

-- The name and the size that the response announces.
unfoldable pub handle_download_volume : Option Engine → Text → Text → FileHandler (Text × ℤ)
handle_download_volume client name path = do
  e ← engine_or_502 client
  done_or_502 (download_from_volume e name path)
