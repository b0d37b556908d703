-- ===== src/Prelude/Split.antt =====
-- strings and path: cutting a text at a separator (`Cut`, `Split`).
use Prim.Native.Nat.{ℕ}
use mathlib.Core.Path.{◌≡◌, refl}
use mathlib.Core.Bool.{false}
use mathlib.Core.Option.{Option, none, some}
use mathlib.Core.List.{List, [], ◌∷◌, ◌++◌}
use native.Mathlib.Omega.{arith}
use easy_deploy.Prelude.Tests.{◌==◌, if◌then◌else◌}
use easy_deploy.Prelude.Lists.{All, All-append}
use easy_deploy.Prelude.Texts.{Text}

-- The text does not hold the character.
abbrev pub Lacks : ℕ → Text → Type 0
Lacks d = All (λ c. (c == d) ≡ false)

abbrev before : ℕ → Option (Text × Text) → Option (Text × Text)
before c none = none
before c (some (s, t)) = some (c ∷ s, t)

-- The text before the first separator, and the one after it.
unfoldable pub cut : ℕ → Text → Option (Text × Text)
cut d [] = none
cut d (c ∷ s) = if c == d then some ([], s) else before c (cut d s)

abbrev lengthen : ℕ → List Text → List Text
lengthen c [] = (c ∷ []) ∷ []
lengthen c (w ∷ ws) = (c ∷ w) ∷ ws

unfoldable pub split_on : ℕ → Text → List Text
split_on d [] = [] ∷ []
split_on d (c ∷ s) = let rest = split_on d s in if c == d then [] ∷ rest else lengthen c rest

pub cut-append : (d : ℕ) (s t : Text) → Lacks d s → cut d (s ++ d ∷ t) ≡ some (s, t)
unfolding cut
cut-append d [] t h = ground arith
cut-append d (c ∷ s) t h = rw h.0 (rw (cut-append d s t h.1) refl)

pub split_on-append : (d : ℕ) (s t : Text) → Lacks d s → split_on d (s ++ d ∷ t) ≡ s ∷ split_on d t
unfolding split_on
split_on-append d [] t h = ground arith
split_on-append d (c ∷ s) t h = rw h.0 (rw (split_on-append d s t h.1) refl)

-- No part holds the separator.
lengthen-Lacks :
    (d c : ℕ) (ws : List Text) → (c == d) ≡ false → All (Lacks d) ws → All (Lacks d) (lengthen c ws)
lengthen-Lacks d c [] e h = ((e, tt), tt)
lengthen-Lacks d c (w ∷ ws) e h = ((e, h.0), h.1)

pub split_on-Lacks : (d : ℕ) (s : Text) → All (Lacks d) (split_on d s)
unfolding split_on
split_on-Lacks d [] = (tt, tt)
split_on-Lacks d (c ∷ s) = ground (arith, lengthen-Lacks d c (split_on d s), split_on-Lacks d s)

pub Lacks-append : (d : ℕ) (s t : Text) → Lacks d s → Lacks d t → Lacks d (s ++ t)
Lacks-append d = All-append (λ c. (c == d) ≡ false)
