-- ===== src/Prelude/Trim.antt =====
-- strings: `TrimSpace` and `Trim` with a set of characters.
use Prim.Native.Nat.{ℕ}
use mathlib.Core.Path.{◌≡◌, refl}
use mathlib.Core.Bool.{Bool, false, ◌&&◌, ◌||◌}
use mathlib.Core.List.{[], ◌∷◌, ◌++◌}
use native.Mathlib.Omega.{arith}
use easy_deploy.Prelude.Tests.{leb, ◌==◌, if◌then◌else◌}
use easy_deploy.Prelude.Lists.{is_empty, All}
use easy_deploy.Prelude.Texts.{Text}

unfoldable pub trim_left : (ℕ → Bool) → Text → Text
trim_left p [] = []
trim_left p (c ∷ s) = if p c then trim_left p s else c ∷ s

unfoldable pub trim_right : (ℕ → Bool) → Text → Text
trim_right p [] = []
trim_right p (c ∷ s) = let t = trim_right p s in if is_empty t && p c then [] else c ∷ t

unfoldable pub trim : (ℕ → Bool) → Text → Text
unfolding trim_left trim_right
trim p s = trim_right p (trim_left p s)

-- `unicode.IsSpace`
unfoldable pub is_space : ℕ → Bool
is_space c =
    (leb 9 c && leb c 13)
    || (c == 32
        || (c == 0x85
            || (c == 0xa0
                || (c == 0x1680
                    || ((leb 0x2000 c && leb c 0x200a)
                        || (c == 0x2028
                            || (c == 0x2029 || (c == 0x202f || (c == 0x205f || c == 0x3000)))))))))

unfoldable pub trim_space : Text → Text
unfolding trim is_space
trim_space s = trim is_space s

-- Nothing is trimmed from a text without such characters.
pub trim_right_none : (p : ℕ → Bool) (s : Text) → All (λ c. p c ≡ false) s → trim_right p s ≡ s
unfolding trim_right
trim_right_none p [] h = refl
trim_right_none p (c ∷ s) h = ground (arith, trim_right_none p s)

pub trim_none : (p : ℕ → Bool) (s : Text) → All (λ c. p c ≡ false) s → trim p s ≡ s
unfolding trim trim_left
trim_none p [] h = trim_right_none p [] h
trim_none p (c ∷ s) h = rw h.0 (trim_right_none p (c ∷ s) h)

-- Whether the last character is one to trim; `last` stands for it where the text is empty.
unfoldable pub trailing : (ℕ → Bool) → Bool → Text → Bool
trailing p last [] = last
trailing p last (c ∷ s) = trailing p (p c) s

pub trailing-append :
    (p : ℕ → Bool) (last : Bool) (s t : Text) (c : ℕ)
    → trailing p last (s ++ c ∷ t) ≡ trailing p (p c) t
unfolding trailing
trailing-append p last [] t c = refl
trailing-append p last (x ∷ s) t c = trailing-append p (p x) s t c

trim_right_ends : (p : ℕ → Bool) (s : Text) → trailing p false s ≡ false → trim_right p s ≡ s
unfolding trim_right trailing
trim_right_ends p [] h = refl
trim_right_ends p (c ∷ []) h = ground arith
trim_right_ends p (c ∷ d ∷ s) h = rw (trim_right_ends p (d ∷ s) h) refl

-- Nothing is trimmed from a text that neither starts nor ends with such a character.
pub trim_ends :
    (p : ℕ → Bool) (c : ℕ) (s : Text)
    → p c ≡ false
    → trailing p false (c ∷ s) ≡ false
    → trim p (c ∷ s) ≡ c ∷ s
unfolding trim trim_left
trim_ends p c s first last = rw first (trim_right_ends p (c ∷ s) last)
