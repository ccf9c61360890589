-- ===== src/Encapsulation/Tests.antt =====
-- Concrete runs of the encapsulation, and its theorems at concrete inputs.
use ptbridge.Base.{
  ℕ, ◌+◌, ◌^◌, ◌≤◌, ◌<◌, ◌≡◌, refl, ◌↔◌, ◌⊎◌, true, none, List, [], ◌∷◌, ◌++◌, arith, ltb,
  if◌then◌else◌, length, ok, err, pos, eof, unexpected_eof, read_byte, read_full, discard, Sink,
}
use ptbridge.Encapsulation.{
  too_long, io, read_length, read_prefix, read_data_loop, read_data, data_prefix_for_length, Report,
  write_data, write_padding, max_data_for_size,
}
use ptbridge.Encapsulation.Prefix.{shortest, data_prefix_for_length_lem}
use ptbridge.Encapsulation.Format.{one, length_prefix, Padding, padded, ArePaddings}
use ptbridge.Encapsulation.Sound.{IsRead, read_data_sound, IsAllPadding, read_data_eof}
use ptbridge.Encapsulation.Write.{encoded_size, max_data_for_size_lem}
use ptbridge.Encapsulation.RoundTrip.{read_data-write_data}

-- Three bytes of data, after a padding chunk of two bytes, with a byte behind.
abbrev pads : List Padding
pads = record { width = one; body = 0 ∷ 0 ∷ [] } ∷ []

abbrev stream : List ℕ
stream = 2 ∷ 0 ∷ 0 ∷ 131 ∷ 7 ∷ 8 ∷ 9 ∷ 55 ∷ []

abbrev sink : Sink
sink = record { written = 1 ∷ []; room = 4 }

read_stream : read_data eof stream ≡ ok (7 ∷ 8 ∷ 9 ∷ [], 55 ∷ [])
unfolding read_data read_data_loop read_prefix read_length read_byte read_full discard
read_stream = refl

read_cut : read_data eof (131 ∷ 7 ∷ []) ≡ err (io unexpected_eof)
unfolding read_data read_data_loop read_prefix read_length read_byte read_full discard
read_cut = refl

prefix_bytes : read_prefix eof (194 ∷ 44 ∷ 9 ∷ []) ≡ ok (true, 300, 9 ∷ [])
unfolding read_prefix read_length read_byte
prefix_bytes = refl

read_data_sound_example : IsRead stream (7 ∷ 8 ∷ 9 ∷ []) (55 ∷ [])
read_data_sound_example =
    read_data_sound eof stream (7 ∷ 8 ∷ 9 ∷ []) (55 ∷ []) (omega arith) read_stream

read_data_eof_example :
    (read_data eof (2 ∷ 0 ∷ 0 ∷ []) ≡ err (io eof)) ↔ ((eof ≡ eof) × IsAllPadding (2 ∷ 0 ∷ 0 ∷ []))
read_data_eof_example = read_data_eof eof (2 ∷ 0 ∷ 0 ∷ []) (omega arith)

abbrev size : ℕ
size = 64

max_data_for_size_example :
    (m : ℕ) × (max_data_for_size size ≡ ok m)
    × (m < 2 ^ 20)
    × (encoded_size m ≤ size)
    × ((encoded_size (m + 1) ≤ size)
        ↔ ((size ≡ 64) ⊎ (size ≡ 8192) ⊎ (size ≡ 8193) ⊎ (2 ^ 20 ≤ size)))
max_data_for_size_example = max_data_for_size_lem size (omega arith)

read_data-write_data_example :
    (r : Report) × (ps : List Padding) × (write_padding
        (record { written = []; room = 100 })
        (pos 5)
      ≡ ok r)
    × (r.failure ≡ none)
    × ArePaddings ps
    × (r.sink.written ≡ padded ps [])
    × (length r.sink.written ≡ 5)
    × ((write_data r.sink (7 ∷ 8 ∷ 9 ∷ [])).failure ≡ none)
    × (read_data eof ((write_data r.sink (7 ∷ 8 ∷ 9 ∷ [])).sink.written ++ (55 ∷ []))
        ≡ ok (7 ∷ 8 ∷ 9 ∷ [], 55 ∷ []))
read_data-write_data_example =
    read_data-write_data eof 100 5 (7 ∷ 8 ∷ 9 ∷ []) (55 ∷ []) (omega arith) (omega arith)

data_prefix_for_length_example :
    data_prefix_for_length 300
    ≡ (if ltb 300 (2 ^ 20) then ok (length_prefix true (shortest 300) 300) else err too_long)
data_prefix_for_length_example = data_prefix_for_length_lem 300
