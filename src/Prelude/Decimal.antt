-- ===== src/Prelude/Decimal.antt =====
-- strconv: decimal numbers as Go prints and parses them (`Itoa`, `Atoi`, `ParseInt` in base 10).
use Prim.Native.Nat.{ℕ, zero, suc, ◌+◌, ◌-◌, ◌*◌, ◌/◌, ◌%◌, ◌^◌, ◌≤◌, ◌<◌}
use mathlib.Core.Path.{◌≡◌, refl, sym, ap, ◌∙◌}
use mathlib.Core.Bool.{Bool, true, false, ◌&&◌}
use mathlib.Core.Option.{Option, none, some}
use mathlib.Core.List.{[], ◌∷◌}
use native.Mathlib.Omega.{arith}
use easy_deploy.Prelude.Tests.{ltb, leb, ◌==◌, if◌then◌else◌}
use easy_deploy.Prelude.Texts.{Text, codes}
use easy_deploy.Prelude.Lists.{All}
use easy_deploy.Prelude.Split.{Lacks}
use easy_deploy.Prelude.Int.{ℤ, pos, negsuc, sub_ℕ, Fits64}

-- The digits of `n` before `out`; `n` rounds are enough.
digits : ℕ → ℕ → Text → Text
digits zero n out = out
digits (suc f) n out =
    let more = digits f (n / 10) ((48 + n % 10) ∷ out) in if n == 0 then out else more

unfoldable pub itoa_ℕ : ℕ → Text
unfolding digits
itoa_ℕ n = if n == 0 then codes "0" else digits n n []

unfoldable pub itoa : ℤ → Text
unfolding itoa_ℕ
itoa (pos n) = itoa_ℕ n
itoa (negsuc n) = b'-' ∷ itoa_ℕ (suc n)

abbrev pub is_digit : ℕ → Bool
is_digit c = leb 48 c && leb c 57

scan : ℕ → Text → Option ℕ
scan acc [] = some acc
scan acc (c ∷ s) = if is_digit c then scan (acc * 10 + (c - 48)) s else none

-- The digits after the sign, of which there is at least one.
unfoldable magnitude : Text → Option ℕ
unfolding scan
magnitude [] = none
magnitude (c ∷ s) = scan 0 (c ∷ s)

pub data Parsed : Type 0 where
  good : ℤ → Parsed
  -- `ErrSyntax`, with the value 0
  syntax : Parsed
  -- `ErrRange`, with the nearest `int64`
  range : ℤ → Parsed

positive : Option ℕ → Parsed
positive none = syntax
positive (some n) = if ltb n (2 ^ 63) then good (pos n) else range (pos (2 ^ 63 - 1))

negative : Option ℕ → Parsed
negative none = syntax
negative (some n) = if leb n (2 ^ 63) then good (sub_ℕ 0 n) else range (negsuc (2 ^ 63 - 1))

unfoldable pub parse_int : Text → Parsed
unfolding magnitude positive negative
parse_int [] = syntax
parse_int (c ∷ s) =
    if c == b'-'
    then negative (magnitude s)
    else if c == b'+'
    then positive (magnitude s)
    else positive (magnitude (c ∷ s))

abbrev pub parsed_value : Parsed → ℤ
parsed_value (good n) = n
parsed_value syntax = pos 0
parsed_value (range n) = n

abbrev pub to_option : Parsed → Option ℤ
to_option (good n) = some n
to_option syntax = none
to_option (range n) = none

unfoldable pub atoi : Text → Option ℤ
unfolding parse_int
atoi s = to_option (parse_int s)

scan-cons_digit : (n : ℕ) (out : Text) → scan (n / 10) ((48 + n % 10) ∷ out) ≡ scan n out
unfolding scan
scan-cons_digit n out =
    let e : n / 10 * 10 + (48 + n % 10 - 48) ≡ n = omega arith in
    ground (arith, ap (λ k. scan k out) e)

scan-digits : (f n : ℕ) (out : Text) → n ≤ f → scan 0 (digits f n out) ≡ scan n out
unfolding digits
scan-digits zero n out h = ap (λ k. scan k out) (omega arith)
scan-digits (suc f) n out h =
    ground (arith, scan-digits f (n / 10) ((48 + n % 10) ∷ out), scan-cons_digit n out)

starts_digit : Text → Bool
starts_digit [] = false
starts_digit (c ∷ s) = is_digit c

digits-starts_digit :
    (f n : ℕ) (out : Text) → starts_digit out ≡ true → starts_digit (digits f n out) ≡ true
unfolding digits starts_digit
digits-starts_digit zero n out h = h
digits-starts_digit (suc f) n out h =
    ground (arith, digits-starts_digit f (n / 10) ((48 + n % 10) ∷ out))

itoa_ℕ-starts_digit : (n : ℕ) → starts_digit (itoa_ℕ n) ≡ true
unfolding itoa_ℕ starts_digit
itoa_ℕ-starts_digit zero = refl
itoa_ℕ-starts_digit (suc n) =
    ground (arith, digits-starts_digit n (suc n / 10) ((48 + suc n % 10) ∷ []))

scan-itoa_ℕ : (n : ℕ) → scan 0 (itoa_ℕ n) ≡ some n
unfolding itoa_ℕ scan
scan-itoa_ℕ n = ground (arith, scan-digits n n [])

magnitude_digit : (s : Text) → starts_digit s ≡ true → magnitude s ≡ scan 0 s
unfolding starts_digit magnitude
magnitude_digit [] h = cc
magnitude_digit (c ∷ s) h = refl

parse_int_digit : (s : Text) → starts_digit s ≡ true → parse_int s ≡ positive (scan 0 s)
unfolding starts_digit parse_int
parse_int_digit [] h = cc
parse_int_digit (c ∷ s) h = ground arith

-- What `Itoa` prints, `Atoi` reads back.
pub atoi-itoa : (n : ℤ) → Fits64 n → atoi (itoa n) ≡ some n
unfolding atoi itoa
atoi-itoa (pos n) h =
    ground (arith, parse_int_digit (itoa_ℕ n), itoa_ℕ-starts_digit n, scan-itoa_ℕ n)
atoi-itoa (negsuc n) h =
    ground
      (arith, magnitude_digit (itoa_ℕ (suc n)), itoa_ℕ-starts_digit (suc n), scan-itoa_ℕ (suc n))

some_injective : {A : Type 0} (a b : A) → some a ≡ some b → a ≡ b
some_injective a b h = cc

-- Numbers that print alike are equal.
pub itoa_injective : (a b : ℤ) → Fits64 a → Fits64 b → itoa a ≡ itoa b → a ≡ b
itoa_injective a b ha hb h = some_injective a b (sym (atoi-itoa a ha) ∙ ap atoi h ∙ atoi-itoa b hb)

digits-All :
    (f n : ℕ) (out : Text)
    → All (λ c. is_digit c ≡ true) out
    → All (λ c. is_digit c ≡ true) (digits f n out)
unfolding digits
digits-All zero n out h = h
digits-All (suc f) n out h = ground (arith, digits-All f (n / 10) ((48 + n % 10) ∷ out))

digits_lack : (d : ℕ) (s : Text) → is_digit d ≡ false → All (λ c. is_digit c ≡ true) s → Lacks d s
digits_lack d [] other h = tt
digits_lack d (c ∷ s) other h = (ground arith, digits_lack d s other h.1)

if_digits :
    (b : Bool) (s t : Text)
    → All (λ c. is_digit c ≡ true) s
    → All (λ c. is_digit c ≡ true) t
    → All (λ c. is_digit c ≡ true) (if b then s else t)
if_digits true s t hs ht = hs
if_digits false s t hs ht = ht

-- A printed number holds digits only.
pub itoa_ℕ-digits : (n : ℕ) → All (λ c. is_digit c ≡ true) (itoa_ℕ n)
unfolding itoa_ℕ
itoa_ℕ-digits n =
    if_digits (n == 0) (codes "0") (digits n n []) (ground arith, tt) (digits-All n n [] tt)

pub itoa_ℕ-Lacks : (d n : ℕ) → is_digit d ≡ false → Lacks d (itoa_ℕ n)
itoa_ℕ-Lacks d n other = digits_lack d (itoa_ℕ n) other (itoa_ℕ-digits n)

value_of_option : (p : Parsed) (n : ℤ) → to_option p ≡ some n → parsed_value p ≡ n
value_of_option (good m) n h = cc
value_of_option syntax n h = cc
value_of_option (range m) n h = cc

pub parsed_value-itoa_ℕ : (n : ℕ) → n < 2 ^ 63 → parsed_value (parse_int (itoa_ℕ n)) ≡ pos n
unfolding atoi itoa
parsed_value-itoa_ℕ n h =
    value_of_option (parse_int (itoa_ℕ n)) (pos n) (atoi-itoa (pos n) (h, omega arith))
