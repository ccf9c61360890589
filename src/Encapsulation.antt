-- ===== src/Encapsulation.antt =====
-- snowflake/common/encapsulation/encapsulation.go: chunks of data and padding on a byte stream.
-- The reader and the writer are those of Base. A length is an `int` that is not negative.
pub mod Format
pub mod Prefix
pub mod Read
pub mod Sound
pub mod Write
pub mod WritePadding
pub mod PaddingCounts
pub mod RoundTrip
mod Tests
use ptbridge.Base.{
  ℕ, zero, suc, ◌+◌, ◌-◌, ◌*◌, ◌/◌, ◌%◌, ◌^◌, ◌<◌, ◌≡◌, bit_and, bit_or, Bool, true, false, not,
  List, [], ◌∷◌, ◌++◌, Option, none, some, length, take, replicate, ltb, ◌==◌, if◌then◌else◌,
  Result, ok, err, panic, out_of_fuel, ◌>>=◌, map_err, IoError, unexpected, read_byte, read_full,
  discard, Sink, Wrote, write, ℤ, pos, negsuc,
}

pub data Error : Type 0 where
  too_long : Error
  io : IoError → Error
  write_failed : Error

abbrev pub unexpected_io : IoError → Error
unexpected_io e = io (unexpected e)

-- `for i := 0; moreLength; i++`, with `left` for 2 - i
unfoldable pub read_length : IoError → ℕ → Bool → ℕ → List ℕ → Result Error (ℕ × List ℕ)
read_length stop left false n src = ok (n, src)
read_length stop zero true n src = err too_long
read_length stop (suc left) true n src = do
  (b, rest) ← map_err unexpected_io (read_byte stop src)
  read_length stop left (not (bit_and b 0x80 == 0)) (bit_or (n * 2 ^ 7) (bit_and b 0x7f)) rest

-- The first lines of the outer loop: whether the chunk is data, its length, and what follows.
unfoldable pub read_prefix : IoError → List ℕ → Result Error (Bool × ℕ × List ℕ)
read_prefix stop src = do
  (b, rest) ← map_err io (read_byte stop src)
  (n, rest') ← read_length stop 2 (not (bit_and b 0x40 == 0)) (bit_and b 0x3f) rest
  ok (not (bit_and b 0x80 == 0), n, rest')

-- The outer loop; each round that goes on has read a byte.
unfoldable pub read_data_loop : ℕ → IoError → List ℕ → Result Error (List ℕ × List ℕ)
read_data_loop zero stop src = out_of_fuel
read_data_loop (suc fuel) stop src = do
  (is_data, n, rest) ← read_prefix stop src
  let skip =
      map_err unexpected_io (discard stop n rest) >>= λ (_, more). read_data_loop fuel stop more
  if is_data then map_err unexpected_io (read_full stop n rest) else skip

unfoldable pub read_data : IoError → List ℕ → Result Error (List ℕ × List ℕ)
read_data stop src = read_data_loop (length src + 1) stop src

unfoldable pub data_prefix_for_length : ℕ → Result Error (List ℕ)
data_prefix_for_length n =
    if bit_and n 0x3f == n
    then ok (bit_or 0x80 (bit_and n 0x3f) ∷ [])
    else if bit_and (n / 2 ^ 7) 0x3f == n / 2 ^ 7
    then ok (bit_or 0xc0 (bit_and (n / 2 ^ 7) 0x3f) ∷ bit_and n 0x7f ∷ [])
    else if bit_and (n / 2 ^ 14) 0x3f == n / 2 ^ 14
    then ok (
        bit_or 0xc0 (bit_and (n / 2 ^ 14) 0x3f)
        ∷ bit_or 0x80 (bit_and (n / 2 ^ 7) 0x7f)
        ∷ bit_and n 0x7f
        ∷ [])
    else err too_long

-- What WriteData and WritePadding return, and the writer after them.
pub record Report : Type 0 where
  pub total : ℕ
  pub failure : Option Error
  pub sink : Sink

-- Two writes one after the other, the second only if the first did not fail.
pub write_both : ℕ → List ℕ → List ℕ → Sink → Report
write_both total first second s =
    let w = write first s in
    let v = write second w.sink in
    if w.failed
    then record { total = total + w.count; failure = some write_failed; sink = w.sink }
    else record {
      total = total + w.count + v.count;
      failure = if v.failed then some write_failed else none;
      sink = v.sink;
    }

unfoldable pub write_data : Sink → List ℕ → Report
write_data s p = elim (data_prefix_for_length (length p)) [
  | ok prefix ↦ write_both 0 prefix p s
  | err e ↦ record { total = 0; failure = some e; sink = s }
  | panic ↦ record { total = 0; failure = some too_long; sink = s }
  | out_of_fuel ↦ record { total = 0; failure = some too_long; sink = s }
]

abbrev pub padding_buffer : List ℕ
padding_buffer = replicate 1024 0

-- The switch of WritePadding: the prefix and the length of a padding chunk of `p` bytes in all.
unfoldable pub padding_chunk : ℕ → List ℕ × ℕ
padding_chunk p =
    if bit_and (p - 1) 0x3f == p - 1
    then (bit_and (p - 1) 0x3f ∷ [], p - 1)
    else if bit_and ((p - 2) / 2 ^ 7) 0x3f == (p - 2) / 2 ^ 7
    then (bit_or 0x40 (bit_and ((p - 2) / 2 ^ 7) 0x3f) ∷ bit_and (p - 2) 0x7f ∷ [], p - 2)
    else if bit_and ((p - 3) / 2 ^ 14) 0x3f == (p - 3) / 2 ^ 14
    then (
      bit_or 0x40 (bit_and ((p - 3) / 2 ^ 14) 0x3f)
          ∷ bit_or 0x80 (bit_and ((p - 3) / 2 ^ 7) 0x3f)
          ∷ bit_and (p - 3) 0x7f
          ∷ [],
      p - 3,
    )
    else ([], p)

-- `if p > n { p = n }`
abbrev pub round_size : ℕ → ℕ
round_size n = if ltb n 1024 then n else 1024

-- `for n > 0`; each round takes a byte at least off `n`.
unfoldable pub write_padding_loop : ℕ → ℕ → ℕ → Sink → Result Error Report
write_padding_loop fuel zero total s = ok (record { total = total; failure = none; sink = s })
write_padding_loop zero (suc m) total s = out_of_fuel
write_padding_loop (suc fuel) (suc m) total s =
    let p = round_size (suc m) in
    let chunk = padding_chunk p in
    let r = write_both total chunk.0 (take chunk.1 padding_buffer) s in
    elim r.failure [ none ↦ write_padding_loop fuel (suc m - p) r.total r.sink | some e ↦ ok r ]

unfoldable pub write_padding : Sink → ℤ → Result Error Report
write_padding s (pos n) = write_padding_loop n n 0 s
write_padding s (negsuc n) = panic

unfoldable pub max_data_for_size : ℕ → Result Error ℕ
max_data_for_size n = if n == 0 then panic else elim (data_prefix_for_length n) [
  | ok prefix ↦ ok (n - length prefix)
  | err too_long ↦ ok (2 ^ (6 + 7 + 7) - 1 - 3)
  | err (io e) ↦ panic
  | err write_failed ↦ panic
  | panic ↦ panic
  | out_of_fuel ↦ panic
]
