-- ===== src/Secret/Sealing.antt =====
-- What was sealed is read back.
use easy_deploy.Prelude.{
  ℕ, zero, suc, ◌<◌, ◌≡◌, refl, ap, subst, arith, false, some, [], ◌∷◌, ◌++◌, Text, is_empty, ltb,
  length, length-append, ltb,
}
use easy_deploy.Effect.{Result, ok}
use easy_deploy.Secret.{Ciphers, Box, SecretError, take, drop, encrypt, decrypt, unsealed}

take-append : (n : ℕ) (s t : Text) → length s ≡ n → take n (s ++ t) ≡ s
unfolding take
take-append zero [] t h = refl
take-append zero (c ∷ s) t h = absurd (omega (arith, h))
take-append (suc n) [] t h = absurd (omega (arith, h))
take-append (suc n) (c ∷ s) t h = ap (λ r. c ∷ r) (take-append n s t (omega arith))

drop-append : (n : ℕ) (s t : Text) → length s ≡ n → drop n (s ++ t) ≡ t
unfolding drop
drop-append zero [] t h = refl
drop-append zero (c ∷ s) t h = absurd (omega (arith, h))
drop-append (suc n) [] t h = absurd (omega (arith, h))
drop-append (suc n) (c ∷ s) t h = drop-append n s t (omega arith)

-- What the code relies on: `Open` reads what `Seal` wrote under the same key and nonce, and decoding
-- undoes encoding; the empty text decodes to no bytes.
pub record Reads (c : Ciphers) : Type 0 where
  pub opens : (key nonce plain : Text) → c.opened key nonce (c.seal key nonce plain) ≡ some plain
  pub decodes : (raw : Text) → c.decode (c.encode raw) ≡ some raw
  pub decodes_empty : c.decode [] ≡ some []
  pub some_nonce : 0 < c.nonce_size

same : (s t : Text) → ◌≡◌ {A = Result SecretError Text} (ok s) (ok t) → s ≡ t
same s t h = cc

module _ (c : Ciphers) (reads : Reads c) where
  nonempty : (raw t : Text) → is_empty raw ≡ false → c.decode t ≡ some raw → is_empty t ≡ false
  nonempty raw [] some_raw e = cc (reads.decodes_empty, some_raw)
  nonempty raw (d ∷ t) some_raw e = refl

  long : (n : ℕ) (s t : Text) → length s ≡ n → ltb (length (s ++ t)) n ≡ false
  long n s t h = ground (arith, length-append s t)

  long_some : (n : ℕ) (s t : Text) → 0 < n → length s ≡ n → is_empty (s ++ t) ≡ false
  long_some n [] t h e = absurd (omega (arith, e))
  long_some n (d ∷ s) t h e = refl

  unsealed-sealed :
      (b : Box) (nonce plain : Text)
      → length nonce ≡ c.nonce_size
      → unsealed c b (some (nonce ++ c.seal b.key nonce plain)) ≡ ok plain
  unsealed-sealed b nonce plain size =
      let body = c.seal b.key nonce plain in
      rw (long c.nonce_size nonce body size) (
        rw (take-append c.nonce_size nonce body size, drop-append c.nonce_size nonce body size)
          (rw (reads.opens b.key nonce plain) refl))

  decrypt-sealed :
      (b : Box) (nonce plain : Text)
      → length nonce ≡ c.nonce_size
      → decrypt c b (c.encode (nonce ++ c.seal b.key nonce plain)) ≡ ok plain
  unfolding decrypt
  decrypt-sealed b nonce plain size =
      let raw = nonce ++ c.seal b.key nonce plain in
      rw
        (nonempty raw (c.encode raw)
          (long_some c.nonce_size nonce (c.seal b.key nonce plain) reads.some_nonce size)
          (reads.decodes raw))
        (rw (reads.decodes raw) (unsealed-sealed b nonce plain size))

  -- What was encrypted is decrypted to the same text, the empty one included, if the random bytes are
  -- as many as a nonce has.
  pub decrypt-encrypt :
      (b : Box) (nonce plain : Text)
      → length nonce ≡ c.nonce_size
      → (stored : Text) → encrypt c b (some nonce) plain ≡ ok stored
      → decrypt c b stored ≡ ok plain
  unfolding encrypt decrypt
  decrypt-encrypt b nonce [] size stored e = ground arith
  decrypt-encrypt b nonce (d ∷ plain) size stored e =
      subst (λ t. decrypt c b t ≡ ok (d ∷ plain))
        (same (c.encode (nonce ++ c.seal b.key nonce (d ∷ plain))) stored e)
        (decrypt-sealed b nonce (d ∷ plain) size)
