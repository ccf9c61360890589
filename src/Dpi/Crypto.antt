-- ===== src/Dpi/Crypto.antt =====
-- dpi/common/crypto.go: each message is sealed under a fresh nonce, which is sent before it.
-- AES-GCM is crypto/cipher's and enters as the parameter `Aead`, a key already in it.
use ptbridge.Base.{
  ℕ, ◌+◌, ◌≤◌, ◌≡◌, List, ◌++◌, length, take, drop, length-append, take-append, drop-append, Option,
  some, none, Result, ok, err, ◌>>=◌, ◌>>◌, guard, map_err, IoError, read_full, true, ltb, not,
  arith, length-take,
}

pub record Aead : Type 0 where
  pub seal : List ℕ → List ℕ → List ℕ
  pub unseal : List ℕ → List ℕ → Option (List ℕ)

abbrev pub nonce_size : ℕ
nonce_size = 12

abbrev pub tag_size : ℕ
tag_size = 16

-- What cipher.AEAD documents: Open undoes Seal under the same nonce, and Seal adds the tag's bytes.
pub record IsAead (aead : Aead) : Type 0 where
  pub unseal-seal : (nonce p : List ℕ) → aead.unseal nonce (aead.seal nonce p) ≡ some p
  pub length-seal : (nonce p : List ℕ) → length (aead.seal nonce p) ≡ length p + tag_size

pub data Error : Type 0 where
  invalid_ciphertext authentication_failed : Error
  entropy : IoError → Error

-- The nonce is read from rand.Reader, here the bytes `random`; what it has not read is returned too.
unfoldable pub encrypt : Aead → IoError → List ℕ → List ℕ → Result Error (List ℕ × List ℕ)
encrypt aead stop random plaintext = do
  (nonce, random') ← map_err entropy (read_full stop nonce_size random)
  ok (nonce ++ aead.seal nonce plaintext, random')

unfoldable pub decrypt : Aead → List ℕ → Result Error (List ℕ)
decrypt aead p = do
  guard (not (ltb (length p) (nonce_size + tag_size))) invalid_ciphertext
  elim (aead.unseal (take nonce_size p) (drop nonce_size p)) [
    | some plaintext ↦ ok plaintext
    | none ↦ err authentication_failed
  ]

-- With twelve random bytes at hand a message is encrypted, to 28 bytes more, and decrypts to itself.
pub decrypt-encrypt :
    (aead : Aead) (stop : IoError) (random plaintext : List ℕ)
    → IsAead aead
    → nonce_size ≤ length random
    → (c : List ℕ) × (encrypt aead stop random plaintext ≡ ok (c, drop nonce_size random))
      × (decrypt aead c ≡ ok plaintext)
      × (length c ≡ length plaintext + 28)
unfolding encrypt decrypt
decrypt-encrypt aead stop random plaintext laws h =
    let nonce = take nonce_size random in
    let size : length nonce ≡ nonce_size = omega (arith, length-take nonce_size random) in
    let body = aead.seal nonce plaintext in
    let total : length (nonce ++ body) ≡ length plaintext + 28 =
      omega (arith, length-append nonce body, laws.length-seal nonce plaintext) in
    (
      nonce ++ body,
      unfold read_full in (ground arith),
      decrypts nonce body size total (laws.unseal-seal nonce plaintext),
      total,
    )
  where
    decrypts :
        (nonce body : List ℕ)
        → length nonce ≡ nonce_size
        → length (nonce ++ body) ≡ length plaintext + 28
        → aead.unseal nonce body ≡ some plaintext
        → decrypt aead (nonce ++ body) ≡ ok plaintext
    decrypts nonce body size total e =
        let front : take nonce_size (nonce ++ body) ≡ nonce =
          rw (← size) (take-append nonce body) in
        let back : drop nonce_size (nonce ++ body) ≡ body = rw (← size) (drop-append nonce body) in
        let long : not (ltb (length (nonce ++ body)) (nonce_size + tag_size)) ≡ true =
          ground arith in
        rw (long, front, back, e)
