-- ===== src/Dpi/Download/Totals.antt =====
-- How streamReader.Read ends on any response body.
use ptbridge.Base.{
  ℕ, zero, suc, ◌+◌, ◌-◌, ◌*◌, ◌^◌, ◌≤◌, ◌<◌, ◌≡◌, ◌≢◌, ◌↔◌, refl, List, length, length-drop,
  Result, ok, err, panic, out_of_fuel, ◌>>=◌, >>=-eq-ok, guard, map_err, not, IoError, read_full,
  byte_at, u32, slice, ltb, Bool-cases, arith, inl, inr,
}
use ptbridge.Dpi.Crypto.{Aead, decrypt}
use ptbridge.Dpi.Download.{io, crypto, StreamReader, chunk_of, next_chunk, read_loop, read}

-- The length that the header of a message states.
abbrev pub payload_len_of : List ℕ → ℕ
payload_len_of dec = u32 (byte_at dec 6) (byte_at dec 7) (byte_at dec 8) (byte_at dec 9)

-- A decrypted message makes the reader panic exactly if it is longer than its header and states a length of
-- 2 ^ 32 - 10 or more, so that the uint32 sum `10+payloadLen` wraps to less than 10.
pub chunk_of-panic :
    (dec : List ℕ)
    → payload_len_of dec < 2 ^ 32
    → (chunk_of dec ≡ panic) ↔ ((10 < length dec) × (2 ^ 32 - 10 ≤ payload_len_of dec))
unfolding chunk_of slice
chunk_of-panic dec h = (ground arith, ground arith)

read_full-shorter :
    (stop : IoError) (k : ℕ) (src p rest : List ℕ)
    → map_err io (read_full stop k src) ≡ ok (p, rest)
    → length rest + k ≡ length src
unfolding read_full
read_full-shorter stop k src p rest h = ground (arith, length-drop k src)

Fueled-bind {ε ℓ κ} :
    {E : Type ε} {A : Type ℓ} {B : Type κ} (m : Result E A) (f : A → Result E B)
    → m ≢ out_of_fuel
    → ((a : A) → m ≡ ok a → f a ≢ out_of_fuel)
    → (m >>= f) ≢ out_of_fuel
Fueled-bind (ok a) f h k = k a refl
Fueled-bind (err e) f h k = λ e. cc
Fueled-bind panic f h k = λ e. cc
Fueled-bind out_of_fuel f h k = absurd (h refl)

-- A message takes the four bytes of its length at least.
next_chunk-shorter :
    (aead : Aead) (stop : IoError) (src chunk rest : List ℕ)
    → next_chunk aead stop src ≡ ok (chunk, rest)
    → length rest + 4 ≤ length src
unfolding next_chunk
next_chunk-shorter aead stop src chunk rest h =
    let ((len_buf, src1), e1, h1) = >>=-eq-ok (map_err io (read_full stop 4 src)) _ h in
    let enc_len =
      u32 (byte_at len_buf 0) (byte_at len_buf 1) (byte_at len_buf 2) (byte_at len_buf 3) in
    let (_, _, h2) = >>=-eq-ok (guard (not (ltb (256 * 1024) enc_len)) _) _ h1 in
    let ((enc, src2), e3, h3) = >>=-eq-ok (map_err io (read_full stop enc_len src1)) _ h2 in
    let (dec, _, h4) = >>=-eq-ok (map_err crypto (decrypt aead enc)) _ h3 in
    let (got, _, h5) = >>=-eq-ok (chunk_of dec) _ h4 in
    let one = read_full-shorter stop 4 src len_buf src1 e1 in
    let two = read_full-shorter stop enc_len src1 enc src2 e3 in ground (arith)

next_chunk-fueled :
    (aead : Aead) (stop : IoError) (src : List ℕ) → next_chunk aead stop src ≢ out_of_fuel
unfolding next_chunk read_full decrypt chunk_of slice
next_chunk-fueled aead stop src = ground arith

read_loop-fueled :
    (fuel : ℕ) (aead : Aead) (stop : IoError) (n : ℕ) (sr : StreamReader)
    → length sr.body < fuel
    → read_loop fuel aead stop n sr ≢ out_of_fuel
unfolding read_loop
read_loop-fueled zero aead stop n sr h = absurd (omega arith)
read_loop-fueled (suc fuel) aead stop n sr h =
    elim (Bool-cases (ltb sr.off (length sr.decrypted))) [
      | inl e ↦ rw e (λ h. cc)
      | inr e ↦ rw e (
          Fueled-bind (next_chunk aead stop sr.body) _ (next_chunk-fueled aead stop sr.body)
            (λ (chunk, rest) e'.
              read_loop-fueled fuel aead stop n (record { body = rest; decrypted = chunk; off = 0 })
                (omega (arith, next_chunk-shorter aead stop sr.body chunk rest e'))))
    ]

-- The loop of Read ends, whatever the response body holds: each round takes four bytes of it at least.
pub read-fueled :
    (aead : Aead) (stop : IoError) (n : ℕ) (sr : StreamReader) → read aead stop n sr ≢ out_of_fuel
unfolding read
read-fueled aead stop n sr = read_loop-fueled (length sr.body + 1) aead stop n sr (omega arith)
