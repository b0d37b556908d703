-- ===== src/Prelude/Distinct.antt =====
-- Rows that differ in a column of texts.
use mathlib.Core.Path.{◌≡◌}
use mathlib.Core.Bool.{Bool}
use mathlib.Core.List.{List, [], ◌∷◌, ◌++◌}
use native.Mathlib.Omega.{arith}
use easy_deploy.Prelude.Texts.{Text, text_eq}
use easy_deploy.Prelude.Rows.{count, count-append}

module _ {ℓ} {A : Type ℓ} (column : A → Text) where
  abbrev pub holds : Text → A → Bool
  holds t r = text_eq (column r) t

  -- No two rows have the same text in the column.
  abbrev pub Distinct : List A → Type 0
  Distinct [] = Unit
  Distinct (r ∷ rs) = (count (holds (column r)) rs ≡ 0) × Distinct rs

  -- No text of the first list stands in the second.
  abbrev pub Apart : List A → List A → Type 0
  Apart [] ys = Unit
  Apart (r ∷ rs) ys = (count (holds (column r)) ys ≡ 0) × Apart rs ys

  pub Distinct-append :
      (xs ys : List A) → Distinct xs → Distinct ys → Apart xs ys → Distinct (xs ++ ys)
  Distinct-append [] ys hx hy a = hy
  Distinct-append (x ∷ xs) ys hx hy a =
      (omega (arith, count-append (holds (column x)) xs ys), Distinct-append xs ys hx.1 hy a.1)
