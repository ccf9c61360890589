-- ===== src/Encapsulation/Prefix.antt =====
-- Length prefixes: what dataPrefixForLength writes and what ReadData takes for one.
use ptbridge.Base.{
  ℕ, zero, suc, ◌+◌, ◌*◌, ◌/◌, ◌%◌, ◌^◌, ◌<◌, ◌≡◌, refl, bit_and, Bool, true, false, not, List, [],
  ◌∷◌, ◌++◌, ltb, leb, ◌==◌, if◌then◌else◌, Result, ok, err, ◌>>=◌, IoError, read_byte, AreBytes,
  arith, mask_6, mask_7, bit_7, bit_6, set_bit_7, set_bits_76, join_7, Bool-cases, Result-cases,
  inl, inr,
}
use ptbridge.Encapsulation.{
  Error, too_long, io, unexpected_io, read_length, read_prefix, data_prefix_for_length,
}
use ptbridge.Encapsulation.Format.{Width, one, two, three, capacity, d_bit, length_prefix}

abbrev pub shortest : ℕ → Width
shortest n = if ltb n (2 ^ 6) then one else if ltb n (2 ^ 13) then two else three

-- The prefix is the shortest of the format, with the data bit, for every length below 2 ^ 20, and an error for every other.
pub data_prefix_for_length_lem :
    (n : ℕ)
    → data_prefix_for_length n
      ≡ (if ltb n (2 ^ 20) then ok (length_prefix true (shortest n) n) else err too_long)
unfolding data_prefix_for_length
data_prefix_for_length_lem n = ground (
  arith,
  mask_6 n,
  mask_6 (n / 2 ^ 7),
  mask_6 (n / 2 ^ 14),
  mask_7 n,
  mask_7 (n / 2 ^ 7),
  set_bit_7 (n % 64),
  set_bits_76 (n / 2 ^ 7 % 64),
  set_bits_76 (n / 2 ^ 14 % 64),
  set_bit_7 (n / 2 ^ 7 % 128),
)

pub shortest-capacity : (n : ℕ) → n < 2 ^ 20 → n < capacity (shortest n)
shortest-capacity n h = ground arith

top_set : (b : ℕ) → b < 256 → not (bit_and b 0x80 == 0) ≡ leb 128 b
top_set b h = ground (arith, bit_7 b)

more_set : (b : ℕ) → b < 256 → not (bit_and b 0x40 == 0) ≡ leb 64 (b % 128)
more_set b h = ground (arith, bit_6 b)

-- One continuation byte.
read_length_byte :
    (stop : IoError) (left n b : ℕ) (rest : List ℕ)
    → b < 256
    → read_length stop (suc left) true n (b ∷ rest)
      ≡ read_length stop left (leb 128 b) (n * 128 + b % 128) rest
unfolding read_length read_byte
read_length_byte stop left n b rest h = ground (arith, top_set b, mask_7 b, join_7 n (b % 128))

-- The first byte.
read_prefix_byte :
    (stop : IoError) (b : ℕ) (rest : List ℕ)
    → b < 256
    → read_prefix stop (b ∷ rest) ≡ (
        read_length stop 2 (leb 64 (b % 128)) (b % 64) rest >>= λ (n, more).
        ok (leb 128 b, n, more))
unfolding read_prefix read_byte
read_prefix_byte stop b rest h = rw (top_set b h, more_set b h, mask_6 b)

read_length_done :
    (stop : IoError) (left n : ℕ) (src : List ℕ) → read_length stop left false n src ≡ ok (n, src)
unfolding read_length
read_length_done stop zero n src = refl
read_length_done stop (suc left) n src = refl

read_one :
    (stop : IoError) (b n : ℕ) (d : Bool) (rest : List ℕ)
    → n < 2 ^ 6
    → b ≡ d_bit d + n
    → read_prefix stop (b ∷ rest) ≡ ok (d, n, rest)
read_one stop b n true rest h e =
    ground (arith, read_prefix_byte stop b rest, read_length_done stop 2 n rest)
read_one stop b n false rest h e =
    ground (arith, read_prefix_byte stop b rest, read_length_done stop 2 n rest)

read_two :
    (stop : IoError) (b n : ℕ) (d : Bool) (rest : List ℕ)
    → n < 2 ^ 13
    → b ≡ d_bit d + 64 + n / 2 ^ 7
    → read_prefix stop (b ∷ n % 2 ^ 7 ∷ rest) ≡ ok (d, n, rest)
read_two stop b n true rest h e = ground (
  arith,
  read_prefix_byte stop b (n % 2 ^ 7 ∷ rest),
  read_length_byte stop 1 (b % 64) (n % 2 ^ 7) rest,
  read_length_done stop 1 n rest,
)
read_two stop b n false rest h e = ground (
  arith,
  read_prefix_byte stop b (n % 2 ^ 7 ∷ rest),
  read_length_byte stop 1 (b % 64) (n % 2 ^ 7) rest,
  read_length_done stop 1 n rest,
)

read_three :
    (stop : IoError) (b c n : ℕ) (d : Bool) (rest : List ℕ)
    → n < 2 ^ 20
    → b ≡ d_bit d + 64 + n / 2 ^ 14
    → c ≡ 128 + n / 2 ^ 7 % 2 ^ 7
    → read_prefix stop (b ∷ c ∷ n % 2 ^ 7 ∷ rest) ≡ ok (d, n, rest)
read_three stop b c n true rest h e f = ground (
  arith,
  read_prefix_byte stop b (c ∷ n % 2 ^ 7 ∷ rest),
  read_length_byte stop 1 (b % 64) c (n % 2 ^ 7 ∷ rest),
  read_length_byte stop 0 (b % 64 * 128 + c % 128) (n % 2 ^ 7) rest,
  read_length_done stop 0 n rest,
)
read_three stop b c n false rest h e f = ground (
  arith,
  read_prefix_byte stop b (c ∷ n % 2 ^ 7 ∷ rest),
  read_length_byte stop 1 (b % 64) c (n % 2 ^ 7 ∷ rest),
  read_length_byte stop 0 (b % 64 * 128 + c % 128) (n % 2 ^ 7) rest,
  read_length_done stop 0 n rest,
)

-- Each form of prefix, for a length below its capacity, is read as the length and the bit that it stands for,
-- and what follows it is left.
pub read_prefix-length_prefix :
    (stop : IoError) (d : Bool) (w : Width) (n : ℕ) (rest : List ℕ)
    → n < capacity w
    → read_prefix stop (length_prefix d w n ++ rest) ≡ ok (d, n, rest)
read_prefix-length_prefix stop d one n rest h = read_one stop _ n d rest h refl
read_prefix-length_prefix stop d two n rest h = read_two stop _ n d rest h refl
read_prefix-length_prefix stop d three n rest h = read_three stop _ _ n d rest h refl refl

pub read_prefix_nil : (stop : IoError) → read_prefix stop [] ≡ err (io stop)
unfolding read_prefix read_byte
read_prefix_nil stop = refl

read_length_nil :
    (stop : IoError) (left n : ℕ) → read_length stop (suc left) true n [] ≡ err (unexpected_io stop)
unfolding read_length read_byte
read_length_nil stop left n = refl

read_length_long :
    (stop : IoError) (n : ℕ) (src : List ℕ) → read_length stop 0 true n src ≡ err too_long
unfolding read_length
read_length_long stop n src = refl

-- The continuation bytes that were read belong to a prefix of two or three bytes.
read_length_sound :
    (stop : IoError) (d : Bool) (x m : ℕ) (src rest : List ℕ)
    → x < 64
    → AreBytes src
    → read_length stop 2 true x src ≡ ok (m, rest)
    → (w : Width) × (m < capacity w) × ((d_bit d + 64 + x) ∷ src ≡ length_prefix d w m ++ rest)
read_length_sound stop d x m [] rest hx hb e = cc (read_length_nil stop 1 x)
read_length_sound stop d x m (c ∷ src) rest hx hb e = elim (Bool-cases (leb 128 c)) [
  | inl more ↦ third src hb.1 (ground (arith, read_length_byte stop 1 x c src))
  | inr last ↦
      let got : ◌≡◌ {A = Result Error (ℕ × List ℕ)} (ok (x * 128 + c % 128, src)) (ok (m, rest)) =
        ground (
          arith,
          read_length_byte stop 1 x c src,
          read_length_done stop 1 (x * 128 + c % 128) src,
        ) in
      (two, ground arith, ground arith)
]
  where
    third :
        (t : List ℕ)
        → AreBytes t
        → (leb 128 c ≡ true)
          × (src ≡ t)
          × (read_length stop 1 true (x * 128 + c % 128) t ≡ ok (m, rest))
        → (w : Width) × (m < capacity w)
          × ((d_bit d + 64 + x) ∷ c ∷ src ≡ length_prefix d w m ++ rest)
    third [] ht (more, same, r) = cc (read_length_nil stop 0 (x * 128 + c % 128))
    third (y ∷ t) ht (more, same, r) = elim (Bool-cases (leb 128 y)) [
      | inl over ↦ absurd (
          ground (
            arith,
            read_length_byte stop 0 (x * 128 + c % 128) y t,
            read_length_long stop ((x * 128 + c % 128) * 128 + y % 128) t,
          ))
      | inr last ↦
          let got : ◌≡◌ {A = Result Error (ℕ × List ℕ)}
              (ok ((x * 128 + c % 128) * 128 + y % 128, t)) (ok (m, rest)) =
            ground (
              arith,
              read_length_byte stop 0 (x * 128 + c % 128) y t,
              read_length_done stop 0 ((x * 128 + c % 128) * 128 + y % 128) t,
            ) in
          (three, ground arith, ground arith)
    ]

-- From bytes, a prefix that was read is one of the format, for a length below its capacity, and the reader is left just
-- behind it.
pub read_prefix_sound :
    (stop : IoError) (src rest : List ℕ) (d : Bool) (n : ℕ)
    → AreBytes src
    → read_prefix stop src ≡ ok (d, n, rest)
    → (w : Width) × (n < capacity w) × (src ≡ length_prefix d w n ++ rest)
read_prefix_sound stop [] rest d n hb e = cc (read_prefix_nil stop)
read_prefix_sound stop (b ∷ src) rest d n hb e = elim (Bool-cases (leb 64 (b % 128))) [
  | inl more ↦ elim (Result-cases (read_length stop 2 true (b % 64) src)) [
    | inl ((m, t), r) ↦
        let got : ◌≡◌ {A = Result Error (Bool × ℕ × List ℕ)} (ok (leb 128 b, m, t))
            (ok (d, n, rest)) =
          ground (arith, first) in
        let (w, small, same) =
          read_length_sound stop d (b % 64) n src rest (omega arith) hb.1 (ground arith) in
        (w, small, ground arith)
    | inr (inl (x, r)) ↦ absurd (ground (arith, first))
    | inr (inr (inl r)) ↦ absurd (ground (arith, first))
    | inr (inr (inr r)) ↦ absurd (ground (arith, first))
  ]
  | inr last ↦
      let got : ◌≡◌ {A = Result Error (Bool × ℕ × List ℕ)} (ok (leb 128 b, b % 64, src))
          (ok (d, n, rest)) =
        ground (arith, first, read_length_done stop 2 (b % 64) src) in
      (one, ground arith, ground arith)
]
  where
    first : read_prefix stop (b ∷ src) ≡ (
        read_length stop 2 (leb 64 (b % 128)) (b % 64) src >>= λ (n, more). ok (leb 128 b, n, more))
    first = read_prefix_byte stop b src hb.0
