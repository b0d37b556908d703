-- ===== src/Docker/Paths.antt =====
-- server/internal/docker/volumes.go: how a path that a user gives is kept inside the volume, with
-- path.Clean and path.Base of Go's standard library.
pub mod Containment
use easy_deploy.Prelude.{
  ℕ, Bool, true, false, not, ◌&&◌, ◌||◌, ◌==◌, Option, none, some, List, [], ◌∷◌, ◌++◌, Text, codes,
  text_eq, is_empty, if◌then◌else◌,
}
use easy_deploy.Prelude.Trim.{trim_space, trim_right}
use easy_deploy.Prelude.Split.{split_on}

abbrev pub without_last : List Text → List Text
without_last [] = []
without_last (top ∷ rest) = rest

-- `path.Clean` on the elements of a rooted path; `stack` holds those that are kept, the last first.
-- An empty element and `.` are dropped, and `..` takes the last one away, if there is one.
unfoldable pub resolve : List Text → List Text → List Text
resolve stack [] = stack
resolve stack (e ∷ es) =
    let skipped = resolve stack es in
    let up = resolve (without_last stack) es in
    let kept = resolve (e ∷ stack) es in
    if is_empty e || text_eq e (codes ".")
    then skipped
    else if text_eq e (codes "..")
    then up
    else kept

-- The elements of the stack, each after a slash.
unfoldable pub spelled : List Text → Text
spelled [] = []
spelled (e ∷ stack) = spelled stack ++ b'/' ∷ e

unfoldable pub clean_rooted : Text → Text
unfolding resolve spelled
clean_rooted s =
    let out = spelled (resolve [] (split_on b'/' s)) in if is_empty out then codes "/" else out

abbrev pub vol_mount : Text
vol_mount = codes "/mnt"

unfoldable pub safe_path : Text → Text
unfolding clean_rooted
safe_path sub =
    let clean = clean_rooted (b'/' ∷ trim_space sub) in
    if text_eq clean (codes "/") then vol_mount else vol_mount ++ clean

abbrev is_slash : ℕ → Bool
is_slash c = c == b'/'

-- the part after the last slash
unfoldable after_slash : Text → Text → Text
after_slash out [] = out
after_slash out (c ∷ s) = after_slash (if c == b'/' then [] else out ++ c ∷ []) s

-- `path.Base`
unfoldable pub base : Text → Text
unfolding after_slash
base s =
    let last = after_slash [] (trim_right is_slash s) in
    if is_empty s then codes "." else if is_empty last then codes "/" else last
