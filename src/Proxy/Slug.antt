-- ===== src/Proxy/Slug.antt =====
-- server/internal/proxy/registry.go: the name of an environment as a label of a host name.
pub mod Labels
use easy_deploy.Prelude.{
  ℕ, Bool, true, false, not, ◌&&◌, ◌||◌, [], ◌∷◌, map, Text, codes, is_empty, leb, ◌==◌,
  if◌then◌else◌,
}
use easy_deploy.Prelude.Trim.{trim, trim_space}

-- a lower-case letter or a digit of ASCII
abbrev pub is_alnum : ℕ → Bool
is_alnum c = (leb b'a' c && leb c b'z') || (leb b'0' c && leb c b'9')

abbrev pub is_dash : ℕ → Bool
is_dash c = c == b'-'

-- The loop: what it writes from here on. `started` is `b.Len() > 0`, `dash` is `prevDash`.
unfoldable pub slug_chars : Bool → Bool → Text → Text
slug_chars started dash [] = []
slug_chars started dash (c ∷ s) =
    let kept = c ∷ slug_chars true false s in
    let hyphen = b'-' ∷ slug_chars true true s in
    let skipped = slug_chars started dash s in
    if is_alnum c then kept else if not dash && started then hyphen else skipped

-- `to_lower` stands for `unicode.ToLower`, by which `strings.ToLower` maps each character.
module _ (to_lower : ℕ → ℕ) where
  unfoldable pub slug : Text → Text
  unfolding slug_chars
  slug s =
      let out = trim is_dash (slug_chars false false (map to_lower (trim_space s))) in
      if is_empty out then codes "host" else out
