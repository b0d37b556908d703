-- ===== src/Prelude/Prefix.antt =====
-- strings: `HasPrefix`, and what stands before a text.
use mathlib.Core.Path.{◌≡◌, refl, ap}
use mathlib.Core.Bool.{Bool, true, false, ◌&&◌}
use mathlib.Core.List.{[], ◌∷◌, ◌++◌}
use native.Mathlib.Omega.{arith}
use easy_deploy.Prelude.Tests.{◌==◌}
use easy_deploy.Prelude.Texts.{Text}

unfoldable pub starts_with : Text → Text → Bool
starts_with [] s = true
starts_with (c ∷ p) [] = false
starts_with (c ∷ p) (d ∷ s) = (c == d) && starts_with p s

pub starts_with-append : (p s : Text) → starts_with p (p ++ s) ≡ true
unfolding starts_with
starts_with-append [] s = refl
starts_with-append (c ∷ p) s = ground (arith, starts_with-append p s)

pub append_cancel : (p s t : Text) → p ++ s ≡ p ++ t → s ≡ t
append_cancel [] s t h = h
append_cancel (c ∷ p) s t h = append_cancel p s t (cc)

-- A text without the prefix is not one that starts with it.
pub ne_of_prefix : (p n s : Text) → starts_with p n ≡ false → n ≡ p ++ s → ⊥
ne_of_prefix p n s h e = cc (starts_with-append p s, ap (starts_with p) e)
