-- ===== src/Encapsulation/Write.antt =====
-- What WriteData puts on the stream and returns, and the size that MaxDataForSize promises.
use ptbridge.Base.{
  ℕ, ◌+◌, ◌-◌, ◌^◌, ◌≤◌, ◌<◌, ◌≡◌, ◌↔◌, ◌⊎◌, refl, ◌∙◌, Bool, true, List, [], ◌++◌, append-nil,
  append_assoc, none, some, length, ltb, ok, err, arith, Sink, write, write_count, write_fits,
  lt→ltb, ltb→lt, Bool-cases, inl, inr,
}
use ptbridge.Encapsulation.{
  too_long, data_prefix_for_length, write_both, write_data, max_data_for_size,
}
use ptbridge.Encapsulation.Format.{Width, one, two, three, width_bytes, length_prefix, data_chunk}
use ptbridge.Encapsulation.Prefix.{shortest, data_prefix_for_length_lem}

pub length-length_prefix :
    (d : Bool) (w : Width) (n : ℕ) → length (length_prefix d w n) ≡ width_bytes w
length-length_prefix d one n = refl
length-length_prefix d two n = refl
length-length_prefix d three n = refl

-- The number of bytes that a chunk of data takes on the stream.
abbrev pub encoded_size : ℕ → ℕ
encoded_size n = width_bytes (shortest n) + n

pub write_both_count :
    (total : ℕ) (p q : List ℕ) (s : Sink)
    → length (write_both total p q s).sink.written + total
      ≡ length s.written + (write_both total p q s).total
unfolding write_both
write_both_count total p q s = ground (arith, write_count p s, write_count q (write p s).sink)

pub write_both_fits :
    (total : ℕ) (p q : List ℕ) (s : Sink)
    → length p + length q ≤ s.room
    → write_both total p q s ≡ record {
      total = total + length p + length q;
      failure = none;
      sink = record { written = (s.written ++ p) ++ q; room = s.room - length p - length q };
    }
unfolding write_both
write_both_fits total p q s h =
    let first = write_fits p s (omega arith) in
    let after : Sink = record { written = s.written ++ p; room = s.room - length p } in
    rw (first, write_fits q after (omega arith))

-- WriteData by what dataPrefixForLength gives.
write_data_prefix :
    (s : Sink) (p prefix : List ℕ)
    → data_prefix_for_length (length p) ≡ ok prefix
    → write_data s p ≡ write_both 0 prefix p s
unfolding write_data
write_data_prefix s p prefix e = rw (e, write_data)

write_data_short :
    (s : Sink) (p : List ℕ)
    → length p < 2 ^ 20
    → write_data s p ≡ write_both 0 (length_prefix true (shortest (length p)) (length p)) p s
write_data_short s p h =
    write_data_prefix s p _ (data_prefix_for_length_lem (length p) ∙ rw (lt→ltb _ _ h) refl)

-- A chunk of 2 ^ 20 bytes or more is refused, and nothing is written.
pub write_data_long :
    (s : Sink) (p : List ℕ)
    → 2 ^ 20 ≤ length p
    → write_data s p ≡ record { total = 0; failure = some too_long; sink = s }
unfolding write_data
write_data_long s p h =
    let refused : data_prefix_for_length (length p) ≡ err too_long =
      data_prefix_for_length_lem (length p) ∙ ground arith in
    rw (refused, write_data)

-- WriteData returns the number of bytes that the writer took, however it ends.
pub write_data_count :
    (s : Sink) (p : List ℕ)
    → length (write_data s p).sink.written ≡ length s.written + (write_data s p).total
write_data_count s p = elim (Bool-cases (ltb (length p) (2 ^ 20))) [
  | inl short ↦
      rw (write_data_short s p (ltb→lt _ _ short)) (
        omega (arith, write_both_count 0 (length_prefix true (shortest (length p)) (length p)) p s))
  | inr long ↦ rw (write_data_long s p (ground arith)) (omega arith)
]

-- A chunk of less than 2 ^ 20 bytes is written whole on a writer that has room, with the shortest prefix, and the number
-- of all these bytes is returned.
pub write_data_fits :
    (s : Sink) (p : List ℕ)
    → length p < 2 ^ 20
    → encoded_size (length p) ≤ s.room
    → write_data s p ≡ record {
      total = encoded_size (length p);
      failure = none;
      sink = record {
        written = s.written ++ data_chunk (shortest (length p)) p [];
        room = s.room - encoded_size (length p);
      };
    }
write_data_fits s p h room =
    let w = shortest (length p) in
    let prefix : List ℕ = length_prefix true w (length p) in
    let size = length-length_prefix true w (length p) in
    write_data_short s p h
    ∙ write_both_fits 0 prefix p s (omega arith)
    ∙ ground (arith, append_assoc s.written prefix p, append-nil p)

-- For n above 0, a chunk of the size that MaxDataForSize(n) returns is below 2 ^ 20 and takes at most `n` bytes on the stream. One of a
-- byte more takes at most `n` bytes too exactly if `n` is 64, 8192, 8193 or at least 2 ^ 20.
pub max_data_for_size_lem :
    (n : ℕ)
    → 0 < n
    → (m : ℕ) × (max_data_for_size n ≡ ok m)
      × (m < 2 ^ 20)
      × (encoded_size m ≤ n)
      × ((encoded_size (m + 1) ≤ n) ↔ ((n ≡ 64) ⊎ (n ≡ 8192) ⊎ (n ≡ 8193) ⊎ (2 ^ 20 ≤ n)))
unfolding max_data_for_size
max_data_for_size_lem n h = elim (Bool-cases (ltb n (2 ^ 20))) [
  | inl small ↦
      let known : data_prefix_for_length n ≡ ok (length_prefix true (shortest n) n) =
        data_prefix_for_length_lem n ∙ rw small refl in
      let size = length-length_prefix true (shortest n) n in
      (
        n - width_bytes (shortest n),
        ground (arith, known, size),
        ground arith,
        ground arith,
        (ground arith, ground arith),
      )
  | inr large ↦
      let known : data_prefix_for_length n ≡ err too_long =
        data_prefix_for_length_lem n ∙ rw large refl in
      (2 ^ 20 - 4, ground (arith, known), omega arith, ground arith, (ground arith, ground arith))
]
