-- ===== src/Docker/Files.antt =====
-- server/internal/docker/volumes.go: the operations on the files of a volume. The calls of the daemon are
-- written down, the latest first.
pub mod Removal
use easy_deploy.Prelude.{
  ℕ, Bool, true, false, not, ◌&&◌, ◌||◌, ◌==◌, leb, Option, none, some, List, [], ◌∷◌, ◌++◌, map,
  Text, codes, text_eq, is_empty, if◌then◌else◌,
}
use easy_deploy.Prelude.Int.{ℤ, pos, int_eq}
use easy_deploy.Prelude.Trim.{trim_space}
use easy_deploy.Effect.{Result, ok, err, Exec, pure, raise, ◌>>=◌, ◌>>◌}
use easy_deploy.Docker.{Labels, set_label}
use easy_deploy.Docker.Paths.{safe_path, vol_mount, base}
use easy_deploy.Docker.Listing.{VolFile, parse_vol_listing}
use easy_deploy.Docker.Helpers.{
  EngineCall, exec, copy_to, copy_from, ArchiveStep, header, broken, Engine, Client, Task, call,
  answered, succeeded, volume_helper,
}

module _ (e : Engine) where
  -- `execCapture`
  abbrev exec_capture : Text → List Text → Task (Text × Text × ℤ)
  exec_capture id cmd = call (exec id cmd) >> answered (e.exec id cmd)

  -- `quote` is the verb `%q` of fmt.
  unfoldable pub browse_script : (Text → Text) → Text → Text
  browse_script quote target =
      codes "cd "
      ++ (quote target
          ++ codes
              " 2>/dev/null || exit 0; for e in * .[!.]* ..?*; do [ -e \"$e\" ] || continue; if [ -d \"$e\" ]; then echo \"d|0|$e\"; else echo \"f|$(wc -c < \"$e\" 2>/dev/null || echo 0)|$e\"; fi; done")

  unfoldable pub browse_volume : (Text → Text) → Text → Text → Task (List VolFile)
  unfolding volume_helper
  browse_volume quote name sub = do
    id ← volume_helper e name
    out ← exec_capture id (codes "sh" ∷ codes "-c" ∷ browse_script quote (safe_path sub) ∷ [])
    pure (parse_vol_listing out.0)

  abbrev exited : Text → Text × Text × ℤ → Task Unit
  exited what out = succeeded (int_eq out.2 (pos 0)) (what ++ trim_space out.1)

  unfoldable pub mkdir_volume : Text → Text → Task Unit
  unfolding volume_helper
  mkdir_volume name sub = do
    id ← volume_helper e name
    out ← exec_capture id (codes "mkdir" ∷ codes "-p" ∷ safe_path sub ∷ [])
    exited (codes "mkdir failed: ") out

  abbrev pub rm_command : Text → List Text
  rm_command target = codes "rm" ∷ codes "-rf" ∷ target ∷ []

  unfoldable pub delete_in_volume : Text → Text → Task Unit
  unfolding volume_helper
  delete_in_volume name sub = do
    succeeded (not (text_eq (safe_path sub) vol_mount)) (codes "refusing to delete volume root")
    id ← volume_helper e name
    out ← exec_capture id (rm_command (safe_path sub))
    exited (codes "delete failed: ") out

  abbrev is_file_name : Text → Bool
  is_file_name f = not (is_empty f || (text_eq f (codes ".") || text_eq f (codes "/")))

  -- `body` is what could be read of the upload.
  unfoldable pub upload_to_volume : Text → Text → Text → Option Text → Task Unit
  unfolding volume_helper
  upload_to_volume name dir filename body = do
    id ← volume_helper e name
    let file = base filename
    succeeded (is_file_name file) (codes "invalid filename")
    content ← answered body
    call (copy_to id (safe_path dir) file content)
    succeeded (e.copies id (safe_path dir) file content) (codes "docker")

  -- The name and size of the first regular file of the archive.
  unfoldable pub first_file : List ArchiveStep → Task (Text × ℤ)
  first_file [] = raise (codes "not a file")
  first_file (broken why ∷ steps) = raise why
  first_file (header regular name size ∷ steps) =
      let rest = first_file steps in if regular then pure (base name, size) else rest

  unfoldable pub download_from_volume : Text → Text → Task (Text × ℤ)
  unfolding volume_helper first_file
  download_from_volume name file = do
    id ← volume_helper e name
    call (copy_from id (safe_path file))
    steps ← answered (e.archive id (safe_path file))
    first_file steps
