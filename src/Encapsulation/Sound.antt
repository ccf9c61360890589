-- ===== src/Encapsulation/Sound.antt =====
-- What a result of ReadData says of its input: a chunk, or an error at the right place.
use ptbridge.Base.{
  ℕ, zero, suc, ◌+◌, ◌<◌, ◌≡◌, ◌≢◌, ◌↔◌, ◌⊎◌, refl, sym, ◌∙◌, Bool, true, false, List, [], ◌∷◌,
  ◌++◌, length, take, drop, length-take, take-append-drop, ok, err, panic, out_of_fuel, map_err,
  IoError, eof, unexpected_eof, closed_pipe, failed, unexpected, read_byte, read_full, AreBytes,
  IsByte, arith, inl, inr, All-suffix, All-drop, bit_and, not, ◌==◌,
}
use ptbridge.Encapsulation.{
  Error, too_long, io, unexpected_io, read_length, read_prefix, read_data_loop, read_data,
}
use ptbridge.Encapsulation.Format.{
  Width, capacity, length_prefix, Padding, ArePaddings, padded, data_chunk,
}
use ptbridge.Encapsulation.Prefix.{read_prefix_sound}
use ptbridge.Encapsulation.Read.{
  bad, data_round, skip_round, cut_round, read_data-Round, loop_prefix_err, loop_data, loop_padding,
  loop_padding_short, read_data-padded,
}

-- ReadData ends: the loop has fuel enough, and nothing in it panics.
read_full_settles :
    (stop : IoError) (n : ℕ) (src : List ℕ)
    → (map_err unexpected_io (read_full stop n src) ≢ panic)
      × (map_err unexpected_io (read_full stop n src) ≢ out_of_fuel)
unfolding read_full
read_full_settles stop n src = ground arith

loop_settles :
    (f : ℕ) (stop : IoError) (src : List ℕ)
    → length src < f
    → (read_data_loop f stop src ≢ panic) × (read_data_loop f stop src ≢ out_of_fuel)
loop_settles zero stop src h = absurd (omega arith)
loop_settles (suc f) stop src h = elim (read_data-Round stop src) [
  | bad x e ↦ rw (loop_prefix_err f stop src x e) (ground arith)
  | data_round n rest e ↦ rw (loop_data f stop src rest n e) (read_full_settles stop n rest)
  | skip_round n rest e k s ↦
      rw (loop_padding f stop src rest n e k) (loop_settles f stop (drop n rest) (omega arith))
  | cut_round n rest e k ↦ rw (loop_padding_short f stop src rest n e k) (ground arith)
]

-- ReadData returns on every input: no panic, and the model's fuel suffices.
pub read_data_settles :
    (stop : IoError) (src : List ℕ)
    → (read_data stop src ≢ panic) × (read_data stop src ≢ out_of_fuel)
unfolding read_data
read_data_settles stop src = loop_settles (length src + 1) stop src (omega arith)

read_full_ok :
    (stop : IoError) (n : ℕ) (src p rest : List ℕ)
    → map_err unexpected_io (read_full stop n src) ≡ ok (p, rest)
    → (src ≡ p ++ rest) × (length p ≡ n)
unfolding read_full
read_full_ok stop n src p rest e = ground (arith, take-append-drop n src, length-take n src)

-- The input that a chunk was read from.
abbrev pub IsRead : List ℕ → List ℕ → List ℕ → Type 0
IsRead src p rest =
    (ps : List Padding) × (w : Width) × ArePaddings ps
    × (length p < capacity w)
    × (src ≡ padded ps (data_chunk w p rest))

loop_sound :
    (f : ℕ) (stop : IoError) (src p rest : List ℕ)
    → AreBytes src
    → read_data_loop f stop src ≡ ok (p, rest)
    → IsRead src p rest
loop_sound zero stop src p rest hb e = unfold read_data_loop in cc
loop_sound (suc f) stop src p rest hb e = elim (read_data-Round stop src) [
  | bad x r ↦ cc (loop_prefix_err f stop src x r)
  | data_round n more r ↦
      let (w, small, same) = read_prefix_sound stop src more true n hb r in
      let (split, size) =
        read_full_ok stop n more p rest (sym (loop_data f stop src more n r) ∙ e) in
      ([], w, tt, ground arith, ground arith)
  | skip_round n more r k s ↦
      let (w, small, same) = read_prefix_sound stop src more false n hb r in
      let bytes : AreBytes (drop n more) =
        All-drop IsByte n more (All-suffix IsByte (length_prefix false w n) more (rw same at hb)) in
      let (ps, v, pads, fits, whole) =
        loop_sound f stop (drop n more) p rest bytes
          (sym (loop_padding f stop src more n r k) ∙ e) in
      let size : length (take n more) ≡ n = omega (arith, length-take n more) in
      (
        record { width = w; body = take n more } ∷ ps,
        v,
        (rw size small, pads),
        fits,
        same ∙ rw (size, ← whole, take-append-drop) refl,
      )
  | cut_round n more r k ↦ cc (loop_padding_short f stop src more n r k)
]

-- From bytes, a chunk that ReadData returns was in the input, after whole padding chunks, and the reader is left just
-- behind it.
pub read_data_sound :
    (stop : IoError) (src p rest : List ℕ)
    → AreBytes src
    → read_data stop src ≡ ok (p, rest)
    → IsRead src p rest
unfolding read_data
read_data_sound stop src p rest hb e = loop_sound (length src + 1) stop src p rest hb e

read_length_error :
    (stop : IoError) (left : ℕ) (more : Bool) (n : ℕ) (src : List ℕ) (x : Error)
    → read_length stop left more n src ≡ err x
    → (x ≡ too_long) ⊎ (x ≡ unexpected_io stop)
unfolding read_length read_byte
read_length_error stop left false n src x e = absurd (ground arith)
read_length_error stop zero true n src x e = inl (ground arith)
read_length_error stop (suc left) true n [] x e = inr (ground arith)
read_length_error stop (suc left) true n (b ∷ src) x e = read_length_error stop left _ _ src x e

unexpected-ne-eof : (e : IoError) → unexpected e ≢ eof
unexpected-ne-eof eof h = cc
unexpected-ne-eof unexpected_eof h = cc
unexpected-ne-eof closed_pipe h = cc
unexpected-ne-eof (failed n) h = cc

-- Only an input that is at its end gives `io.EOF` for a prefix.
read_prefix_eof :
    (stop : IoError) (src : List ℕ)
    → read_prefix stop src ≡ err (io eof)
    → (src ≡ []) × (stop ≡ eof)
unfolding read_prefix read_byte
read_prefix_eof stop [] e = ground arith
read_prefix_eof stop (b ∷ src) e = absurd (
    ground (
      arith,
      read_length_error stop 2 (not (bit_and b 0x40 == 0)) (bit_and b 0x3f) src (io eof),
      unexpected-ne-eof stop,
    ))

read_full-ne-eof :
    (n : ℕ) (stop : IoError) (src : List ℕ)
    → map_err unexpected_io (read_full stop n src) ≢ err (io eof)
unfolding read_full
read_full-ne-eof n eof src e = ground arith
read_full-ne-eof n unexpected_eof src e = ground arith
read_full-ne-eof n closed_pipe src e = ground arith
read_full-ne-eof n (failed m) src e = ground arith

-- The input is whole padding chunks to its end.
abbrev pub IsAllPadding : List ℕ → Type 0
IsAllPadding src = (ps : List Padding) × ArePaddings ps × (src ≡ padded ps [])

loop_eof :
    (f : ℕ) (stop : IoError) (src : List ℕ)
    → AreBytes src
    → read_data_loop f stop src ≡ err (io eof)
    → (stop ≡ eof) × IsAllPadding src
loop_eof zero stop src hb e = unfold read_data_loop in cc
loop_eof (suc f) stop src hb e = elim (read_data-Round stop src) [
  | bad x r ↦
      let same : read_prefix stop src ≡ err (io eof) =
        ground (arith, loop_prefix_err f stop src x r) in
      let (nothing, ended) = read_prefix_eof stop src same in (ended, ([], tt, nothing))
  | data_round n more r ↦
      absurd (read_full-ne-eof n stop more (sym (loop_data f stop src more n r) ∙ e))
  | skip_round n more r k s ↦
      let (w, small, same) = read_prefix_sound stop src more false n hb r in
      let bytes : AreBytes (drop n more) =
        All-drop IsByte n more (All-suffix IsByte (length_prefix false w n) more (rw same at hb)) in
      let (ended, (ps, pads, whole)) =
        loop_eof f stop (drop n more) bytes (sym (loop_padding f stop src more n r k) ∙ e) in
      let size : length (take n more) ≡ n = omega (arith, length-take n more) in
      (
        ended,
        (
          record { width = w; body = take n more } ∷ ps,
          (rw size small, pads),
          same ∙ rw (size, ← whole, take-append-drop) refl,
        ),
      )
  | cut_round n more r k ↦
      absurd (ground (arith, loop_padding_short f stop src more n r k, unexpected-ne-eof stop))
]

read_data_nil : read_data eof [] ≡ err (io eof)
unfolding read_data read_data_loop read_prefix read_byte
read_data_nil = refl

-- On bytes, ReadData reports `io.EOF` exactly if the reader ends with it and the input is whole padding chunks, so
-- that it ended before the first byte of a prefix.
pub read_data_eof :
    (stop : IoError) (src : List ℕ)
    → AreBytes src
    → (read_data stop src ≡ err (io eof)) ↔ ((stop ≡ eof) × IsAllPadding src)
unfolding read_data
read_data_eof stop src hb =
    (λ e. loop_eof (length src + 1) stop src hb e, λ h. back h.0 h.1.0 h.1.1 h.1.2)
  where
    back :
        stop ≡ eof
        → (ps : List Padding) → ArePaddings ps
        → src ≡ padded ps []
        → read_data stop src ≡ err (io eof)
    back ended ps pads whole = rw (ended, whole, read_data-padded eof ps [] pads) read_data_nil
