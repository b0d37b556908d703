-- ===== src/Proxy/Slug/Labels.antt =====
-- What `slug` returns is a label, and a label is what it returns unchanged.
use easy_deploy.Prelude.{
  ℕ, Bool, true, false, not, ◌&&◌, ◌||◌, ◌≡◌, refl, [], ◌∷◌, map, Text, is_empty, if◌then◌else◌,
  arith, All, inl, inr, Bool-cases,
}
use easy_deploy.Prelude.Trim.{trim, trim_left, trim_right, trim_space, is_space, trim_none}
use easy_deploy.Proxy.Slug.{is_alnum, is_dash, slug_chars, slug}

-- Reads a label: letters and digits, with single hyphens between them. `after` is true at the start
-- and after a hyphen, where neither a hyphen nor the end may follow.
unfoldable pub label_from : Bool → Text → Bool
label_from after [] = not after
label_from after (c ∷ s) =
    if is_dash c then not after && label_from true s else is_alnum c && label_from false s

unfoldable pub is_label : Text → Bool
unfolding label_from
is_label s = label_from true s

-- The same where a hyphen may stand last.
open_label : Bool → Text → Bool
open_label after [] = true
open_label after (c ∷ s) =
    if is_dash c then not after && open_label true s else is_alnum c && open_label false s

open_label-slug_chars :
    (started dash : Bool) (s : Text)
    → open_label (dash || not started) (slug_chars started dash s) ≡ true
unfolding open_label slug_chars
open_label-slug_chars started dash [] = refl
open_label-slug_chars started dash (c ∷ s) = ground (
  arith,
  open_label-slug_chars true false s,
  open_label-slug_chars true true s,
  open_label-slug_chars started dash s,
)

label_from-trim_right :
    (after : Bool) (s : Text)
    → open_label after s ≡ true
    → is_empty (trim_right is_dash s) ≡ false
    → label_from after (trim_right is_dash s) ≡ true
unfolding open_label label_from trim_right
label_from-trim_right after [] h k = cc
label_from-trim_right after (c ∷ s) h k =
    ground (arith, label_from-trim_right true s, label_from-trim_right false s)

trim_left_open : (s : Text) → open_label true s ≡ true → trim_left is_dash s ≡ s
unfolding open_label trim_left
trim_left_open [] h = refl
trim_left_open (c ∷ s) h = ground arith

-- Whatever the name of an environment, its slug is a label: not empty, of lower-case letters, digits
-- and single hyphens, with no hyphen first or last.
pub is_label-slug : (to_lower : ℕ → ℕ) (s : Text) → is_label (slug to_lower s) ≡ true
unfolding is_label slug trim
is_label-slug to_lower s =
    let out = slug_chars false false (map to_lower (trim_space s)) in
    let good = open_label-slug_chars false false (map to_lower (trim_space s)) in
    rw (trim_left_open out good) (elim (Bool-cases (is_empty (trim_right is_dash out))) [
      | inl nothing ↦ rw nothing refl
      | inr some_left ↦ rw some_left (label_from-trim_right true out good some_left)
    ])

slug_chars_label :
    (started dash : Bool) (s : Text)
    → label_from (dash || not started) s ≡ true
    → slug_chars started dash s ≡ s
unfolding label_from slug_chars
slug_chars_label started dash [] h = refl
slug_chars_label started dash (c ∷ s) h =
    ground (arith, slug_chars_label true false s, slug_chars_label true true s)

no_space : (after : Bool) (s : Text) → label_from after s ≡ true → All (λ c. is_space c ≡ false) s
unfolding label_from is_space
no_space after [] h = tt
no_space after (c ∷ s) h = elim (Bool-cases (is_dash c)) [
  | inl dash ↦ (ground arith, no_space true s (ground arith))
  | inr other ↦ (ground arith, no_space false s (ground arith))
]

label_not_empty : (s : Text) → label_from true s ≡ true → is_empty s ≡ false
unfolding label_from
label_not_empty [] h = cc
label_not_empty (c ∷ s) h = refl

trim_left_label : (s : Text) → label_from true s ≡ true → trim_left is_dash s ≡ s
unfolding label_from trim_left
trim_left_label [] h = refl
trim_left_label (c ∷ s) h = ground arith

trim_right_label : (after : Bool) (s : Text) → label_from after s ≡ true → trim_right is_dash s ≡ s
unfolding label_from trim_right
trim_right_label after [] h = refl
trim_right_label after (c ∷ s) h =
    ground (arith, trim_right_label true s, trim_right_label false s, label_not_empty s)

lower_label :
    (to_lower : ℕ → ℕ)
    → ((c : ℕ) → (is_alnum c || is_dash c) ≡ true → to_lower c ≡ c)
    → (after : Bool) (s : Text) → label_from after s ≡ true
    → map to_lower s ≡ s
unfolding label_from
lower_label to_lower same after [] h = refl
lower_label to_lower same after (c ∷ s) h =
    ground (arith, same c, lower_label to_lower same true s, lower_label to_lower same false s)

-- A label is its own slug, where lowering a character leaves the lower-case letters, digits and
-- hyphens of ASCII as they are. So two environments with different labels as names have different
-- slugs.
pub slug_label :
    (to_lower : ℕ → ℕ)
    → ((c : ℕ) → (is_alnum c || is_dash c) ≡ true → to_lower c ≡ c)
    → (s : Text) → is_label s ≡ true
    → slug to_lower s ≡ s
unfolding is_label slug trim_space
slug_label to_lower same s h = rw (trim_none is_space s (no_space true s h)) (
    rw (lower_label to_lower same true s h) (
      rw (slug_chars_label false false s h) (
        rw (trim_left_label s h) (rw (trim_right_label true s h) (rw (label_not_empty s h) refl)))))
