-- ===== src/Prelude/Sets.antt =====
-- Sets of texts as lists: membership as a Boolean.
use easy_deploy.Prelude.Tests.{if◌then◌else◌}
use easy_deploy.Prelude.Texts.{Text, text_eq}
use Prim.Native.Nat.{ℕ, suc, ◌+◌}
use mathlib.Core.Path.{◌≡◌, refl}
use mathlib.Core.Bool.{Bool, true, false, ◌||◌}
use mathlib.Core.List.{List, [], ◌∷◌, ◌++◌}
use native.Mathlib.Omega.{arith}

-- `m[d]` for a Go `map[string]bool` whose keys were set in the order of the list.
unfoldable pub has : Text → List Text → Bool
has d [] = false
has d (x ∷ xs) = if text_eq x d then true else has d xs

-- How often a text stands in a list.
unfoldable pub times : Text → List Text → ℕ
times d [] = 0
times d (x ∷ xs) = let n = times d xs in if text_eq x d then suc n else n

pub has-append : (d : Text) (xs ys : List Text) → has d (xs ++ ys) ≡ (has d xs || has d ys)
unfolding has
has-append d [] ys = refl
has-append d (x ∷ xs) ys = ground (arith, has-append d xs ys)

pub times-append : (d : Text) (xs ys : List Text) → times d (xs ++ ys) ≡ times d xs + times d ys
unfolding times
times-append d [] ys = omega arith
times-append d (x ∷ xs) ys = ground (arith, times-append d xs ys)

-- A text that is not in the list stands there no times.
pub times_of_not_has : (d : Text) (xs : List Text) → has d xs ≡ false → times d xs ≡ 0
unfolding has times
times_of_not_has d [] h = refl
times_of_not_has d (x ∷ xs) h = ground (arith, times_of_not_has d xs)
