-- ===== src/Secret.antt =====
-- server/internal/secret/secret.go: passwords and keys as they are stored, sealed with AES-256-GCM. The
-- ciphers, SHA-256, base64 and the source of random bytes are parameters. Texts are lists of bytes here.
pub mod Sealing
use easy_deploy.Prelude.{
  ℕ, Bool, true, false, not, Option, none, some, List, [], ◌∷◌, ◌++◌, zero, suc, Text, codes,
  is_empty, ltb, length, if◌then◌else◌,
}
use easy_deploy.Effect.{Result, ok, err}

-- What the code calls: `sha256.Sum256`; whether `aes.NewCipher` and `cipher.NewGCM` take a key; `Seal`
-- and `Open` under a key and a nonce, without additional data; `base64.StdEncoding`.
pub record Ciphers : Type 0 where
  pub sum256 : Text → Text
  pub takes : Text → Bool
  pub nonce_size : ℕ
  pub seal : Text → Text → Text → Text
  pub opened : Text → Text → Text → Option Text
  pub encode : Text → Text
  pub decode : Text → Option Text

pub data SecretError : Type 0 where
  empty_key bad_key no_random bad_base64 too_short decrypt_failed : SecretError

-- `Box`: the key of its cipher.
pub record Box : Type 0 where
  pub key : Text

-- `raw[:n]` and `raw[n:]` of a text that is long enough
unfoldable pub take : ℕ → Text → Text
take zero s = []
take (suc n) [] = []
take (suc n) (c ∷ s) = c ∷ take n s

unfoldable pub drop : ℕ → Text → Text
drop zero s = s
drop (suc n) [] = []
drop (suc n) (c ∷ s) = drop n s

module _ (c : Ciphers) where
  unfoldable pub new : Text → Result SecretError Box
  new master_key =
      if is_empty master_key
      then err empty_key
      else if c.takes (c.sum256 master_key)
      then ok (record { key = c.sum256 master_key })
      else err bad_key

  abbrev pub sealed : Box → Text → Option Text → Result SecretError Text
  sealed b plaintext none = err no_random
  sealed b plaintext (some nonce) = ok (c.encode (nonce ++ c.seal b.key nonce plaintext))

  -- `random` are the bytes that `io.ReadFull` got for the nonce.
  unfoldable pub encrypt : Box → Option Text → Text → Result SecretError Text
  encrypt b random plaintext = if is_empty plaintext then ok [] else sealed b plaintext random

  abbrev pub plain_or : Option Text → Result SecretError Text
  plain_or none = err decrypt_failed
  plain_or (some plain) = ok plain

  abbrev pub unsealed : Box → Option Text → Result SecretError Text
  unsealed b none = err bad_base64
  unsealed b (some raw) =
      if ltb (length raw) c.nonce_size
      then err too_short
      else plain_or (c.opened b.key (take c.nonce_size raw) (drop c.nonce_size raw))

  unfoldable pub decrypt : Box → Text → Result SecretError Text
  unfolding take drop
  decrypt b ciphertext = if is_empty ciphertext then ok [] else unsealed b (c.decode ciphertext)
