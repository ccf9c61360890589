-- ===== src/Encapsulation/Read.antt =====
-- ReadData on any input: it ends, it takes exactly what the format says, and its errors.
use ptbridge.Base.{
  ℕ, zero, suc, ◌+◌, ◌≤◌, ◌<◌, ◌≡◌, ◌≢◌, refl, ap, ◌∙◌, Bool, true, false, List, [], ◌∷◌, ◌++◌,
  length, drop, length-drop, drop-append, length-append, ok, err, panic, out_of_fuel, map_err,
  IoError, read_byte, read_full, discard, read_full-append, arith, leb, inl, inr, Result-cases,
  Bool-cases, bit_and, not, ◌==◌,
}
use native.Mathlib.Numerals.{add-one}
use ptbridge.Encapsulation.{
  Error, unexpected_io, read_length, read_prefix, read_data_loop, read_data,
}
use ptbridge.Encapsulation.Format.{
  Width, capacity, length_prefix, Padding, IsPadding, ArePaddings, padded, data_chunk,
}
use ptbridge.Encapsulation.Prefix.{read_prefix-length_prefix}

read_length_shrinks :
    (stop : IoError) (left : ℕ) (more : Bool) (n m : ℕ) (src rest : List ℕ)
    → read_length stop left more n src ≡ ok (m, rest)
    → length rest ≤ length src
unfolding read_length read_byte
read_length_shrinks stop left false n m src rest e = ground arith
read_length_shrinks stop zero true n m src rest e = cc
read_length_shrinks stop (suc left) true n m [] rest e = cc
read_length_shrinks stop (suc left) true n m (b ∷ src) rest e =
    let shorter = read_length_shrinks stop left _ _ m src rest e in omega arith

pub read_prefix_shrinks :
    (stop : IoError) (src rest : List ℕ) (d : Bool) (n : ℕ)
    → read_prefix stop src ≡ ok (d, n, rest)
    → length rest < length src
unfolding read_prefix read_byte
read_prefix_shrinks stop [] rest d n e = cc
read_prefix_shrinks stop (b ∷ src) rest d n e =
    ground
      (arith, read_length_shrinks stop 2 (not (bit_and b 0x40 == 0)) (bit_and b 0x3f) n src rest)

-- One round of the loop, by what the prefix was.
pub loop_prefix_err :
    (f : ℕ) (stop : IoError) (src : List ℕ) (x : Error)
    → read_prefix stop src ≡ err x
    → read_data_loop (suc f) stop src ≡ err x
unfolding read_data_loop
loop_prefix_err f stop src x e = rw e

pub loop_data :
    (f : ℕ) (stop : IoError) (src rest : List ℕ) (n : ℕ)
    → read_prefix stop src ≡ ok (true, n, rest)
    → read_data_loop (suc f) stop src ≡ map_err unexpected_io (read_full stop n rest)
unfolding read_data_loop
loop_data f stop src rest n e = rw e

pub loop_padding :
    (f : ℕ) (stop : IoError) (src rest : List ℕ) (n : ℕ)
    → read_prefix stop src ≡ ok (false, n, rest)
    → n ≤ length rest
    → read_data_loop (suc f) stop src ≡ read_data_loop f stop (drop n rest)
unfolding read_data_loop discard
loop_padding f stop src rest n e h = rw e (ground arith)

pub loop_padding_short :
    (f : ℕ) (stop : IoError) (src rest : List ℕ) (n : ℕ)
    → read_prefix stop src ≡ ok (false, n, rest)
    → length rest < n
    → read_data_loop (suc f) stop src ≡ err (unexpected_io stop)
unfolding read_data_loop discard
loop_padding_short f stop src rest n e h = rw e (ground arith)

-- How a prefix is read: an error or a value, never a panic.
read_length_settles :
    (stop : IoError) (left : ℕ) (more : Bool) (n : ℕ) (src : List ℕ)
    → (read_length stop left more n src ≢ panic) × (read_length stop left more n src ≢ out_of_fuel)
unfolding read_length read_byte
read_length_settles stop left false n src = ground arith
read_length_settles stop zero true n src = ground arith
read_length_settles stop (suc left) true n [] = ground arith
read_length_settles stop (suc left) true n (b ∷ src) = read_length_settles stop left _ _ src

read_prefix_settles :
    (stop : IoError) (src : List ℕ)
    → (read_prefix stop src ≢ panic) × (read_prefix stop src ≢ out_of_fuel)
unfolding read_prefix read_byte
read_prefix_settles stop [] = ground arith
read_prefix_settles stop (b ∷ src) =
    let settles = read_length_settles stop 2 (not (bit_and b 0x40 == 0)) (bit_and b 0x3f) src in
    ground arith

-- What one round of the loop meets.
pub data Round (stop : IoError) (src : List ℕ) : Type 0 where
  bad : (x : Error) → read_prefix stop src ≡ err x → Round stop src
  data_round : (n : ℕ) (rest : List ℕ) → read_prefix stop src ≡ ok (true, n, rest) → Round stop src
  skip_round :
      (n : ℕ) (rest : List ℕ)
      → read_prefix stop src ≡ ok (false, n, rest)
      → n ≤ length rest
      → length (drop n rest) < length src
      → Round stop src
  cut_round :
      (n : ℕ) (rest : List ℕ)
      → read_prefix stop src ≡ ok (false, n, rest)
      → length rest < n
      → Round stop src

pub read_data-Round : (stop : IoError) (src : List ℕ) → Round stop src
read_data-Round stop src = elim (Result-cases (read_prefix stop src)) [
  | inl ((true, n, rest), e) ↦ data_round n rest e
  | inl ((false, n, rest), e) ↦ elim (Bool-cases (leb n (length rest))) [
    | inl fits ↦
        skip_round n rest e (ground arith)
          (omega (arith, length-drop n rest, read_prefix_shrinks stop src rest false n e))
    | inr cut ↦ cut_round n rest e (ground arith)
  ]
  | inr (inl (x, e)) ↦ bad x e
  | inr (inr (inl e)) ↦ absurd ((read_prefix_settles stop src).0 e)
  | inr (inr (inr e)) ↦ absurd ((read_prefix_settles stop src).1 e)
]

-- The fuel does not matter once it exceeds the length of the input.
read_data_loop_stable :
    (f g : ℕ) (stop : IoError) (src : List ℕ)
    → length src < f
    → length src < g
    → read_data_loop f stop src ≡ read_data_loop g stop src
read_data_loop_stable zero g stop src hf hg = absurd (omega arith)
read_data_loop_stable (suc f) zero stop src hf hg = absurd (omega arith)
read_data_loop_stable (suc f) (suc g) stop src hf hg = elim (read_data-Round stop src) [
  | bad x e ↦ rw (loop_prefix_err f stop src x e, loop_prefix_err g stop src x e)
  | data_round n rest e ↦ rw (loop_data f stop src rest n e, loop_data g stop src rest n e)
  | skip_round n rest e h s ↦
      rw (loop_padding f stop src rest n e h, loop_padding g stop src rest n e h)
        (read_data_loop_stable f g stop (drop n rest) (omega arith) (omega arith))
  | cut_round n rest e h ↦
      rw (loop_padding_short f stop src rest n e h, loop_padding_short g stop src rest n e h)
]

-- ReadData after a padding chunk is ReadData of what follows it.
read_data_skip :
    (stop : IoError) (src rest : List ℕ) (n : ℕ)
    → read_prefix stop src ≡ ok (false, n, rest)
    → n ≤ length rest
    → read_data stop src ≡ read_data stop (drop n rest)
unfolding read_data
read_data_skip stop src rest n e h =
    let shorter = read_prefix_shrinks stop src rest false n e in
    let size = length-drop n rest in
    rw add-one (
      loop_padding (length src) stop src rest n e h
      ∙ read_data_loop_stable (length src) (length (drop n rest) + 1) stop (drop n rest)
          (omega arith) (omega arith))

read_data_padding :
    (stop : IoError) (p : Padding) (rest : List ℕ)
    → IsPadding p
    → read_data stop (length_prefix false p.width (length p.body) ++ (p.body ++ rest))
      ≡ read_data stop rest
read_data_padding stop p rest h =
    read_data_skip stop _ (p.body ++ rest) (length p.body)
      (read_prefix-length_prefix stop false p.width (length p.body) (p.body ++ rest) h)
      (omega (arith, length-append p.body rest))
    ∙ ap (read_data stop) (drop-append p.body rest)

-- Well-formed padding chunks of any form are skipped: ReadData gives what it gives without them.
pub read_data-padded :
    (stop : IoError) (ps : List Padding) (rest : List ℕ)
    → ArePaddings ps
    → read_data stop (padded ps rest) ≡ read_data stop rest
read_data-padded stop [] rest h = refl
read_data-padded stop (p ∷ ps) rest h =
    read_data_padding stop p (padded ps rest) h.0 ∙ read_data-padded stop ps rest h.1

read_data_read :
    (stop : IoError) (src rest : List ℕ) (n : ℕ)
    → read_prefix stop src ≡ ok (true, n, rest)
    → read_data stop src ≡ map_err unexpected_io (read_full stop n rest)
unfolding read_data
read_data_read stop src rest n e = rw add-one (loop_data (length src) stop src rest n e)

-- A data chunk of any form, shorter than the form's capacity, after any well-formed padding chunks, is returned, and
-- what follows it is left in the reader.
pub read_data-data_chunk :
    (stop : IoError) (ps : List Padding) (w : Width) (p rest : List ℕ)
    → ArePaddings ps
    → length p < capacity w
    → read_data stop (padded ps (data_chunk w p rest)) ≡ ok (p, rest)
read_data-data_chunk stop ps w p rest h small =
    read_data-padded stop ps (data_chunk w p rest) h
    ∙ read_data_read stop _ (p ++ rest) (length p)
        (read_prefix-length_prefix stop true w (length p) (p ++ rest) small)
    ∙ ap (map_err unexpected_io) (read_full-append stop p rest)
