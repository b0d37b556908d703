-- ===== src/Effect.antt =====
-- Go functions that return an error beside their result and change state as they go: what was
-- written before an error stays written.

use mathlib.Core.Path.{◌≡◌, refl}

pub data Result {ℓ} (E A : Type ℓ) : Type ℓ where
  ok : A → Result E A
  err : E → Result E A

abbrev pub Exec {ℓ} : Type ℓ → Type ℓ → Type ℓ → Type ℓ
Exec S E A = S → Result E A × S

module _ {ℓ} {S E A : Type ℓ} where
  abbrev pub pure : A → Exec S E A
  pure a s = (ok a, s)

  abbrev pub raise : E → Exec S E A
  raise e s = (err e, s)

  abbrev pub lift : Result E A → Exec S E A
  lift r s = (r, s)

  -- `x, err := f()` where the code looks at `err` itself.
  abbrev pub attempt : {F : Type ℓ} → Exec S E A → Exec S F (Result E A)
  attempt m s = let (r, s') = m s in (ok r, s')

module _ {ℓ} {S E A B : Type ℓ} where
  abbrev continue : Result E A → (A → Exec S E B) → Exec S E B
  continue (ok a) f s = f a s
  continue (err e) f s = (err e, s)

  infixl 5 ◌>>=◌ ◌>>◌
  -- `if err != nil { return err }` after the call
  abbrev pub ◌>>=◌ : Exec S E A → (A → Exec S E B) → Exec S E B
  ◌>>=◌ m f s = let (r, s') = m s in continue r f s'

  abbrev pub ◌>>◌ : Exec S E A → Exec S E B → Exec S E B
  m >> n = m >>= λ _. n

-- What a chain that ends well went through.
module _ {ℓ} {S E A B : Type ℓ} where
  continue-IsOk :
      (r : Result E A) (f : A → Exec S E B) (s : S) (b : B)
      → (continue r f s).0 ≡ ok b
      → (a : A) × (r ≡ ok a) × (continue r f s ≡ f a s)
  continue-IsOk (ok a) f s b h = (a, refl, refl)
  continue-IsOk (err e) f s b h = cc

  pub bind-IsOk :
      (m : Exec S E A) (f : A → Exec S E B) (s : S) (b : B)
      → ((m >>= f) s).0 ≡ ok b
      → (a : A) × ((m s).0 ≡ ok a) × ((m >>= f) s ≡ f a (m s).1)
  bind-IsOk m f s b h = continue-IsOk (m s).0 f (m s).1 b h

abbrev relabel {ℓ} : {E F A : Type ℓ} → (E → F) → Result E A → Result F A
relabel g (ok a) = ok a
relabel g (err e) = err (g e)

-- The call with its error turned into another, such as an HTTP response.
abbrev pub or_fail {ℓ} : {S E F A : Type ℓ} → (E → F) → Exec S E A → Exec S F A
or_fail g m s = let (r, s') = m s in (relabel g r, s')
