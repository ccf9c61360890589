-- ===== src/Encapsulation/Format.antt =====
-- The wire format of the package comment, independent of the code that reads and writes it.
use ptbridge.Base.{ℕ, ◌+◌, ◌/◌, ◌%◌, ◌^◌, ◌<◌, Bool, true, false, List, [], ◌∷◌, ◌++◌, length, All}

-- A prefix has one, two or three bytes.
pub data Width : Type 0 where
  one two three : Width

abbrev pub capacity : Width → ℕ
capacity one = 2 ^ 6
capacity two = 2 ^ 13
capacity three = 2 ^ 20

abbrev pub width_bytes : Width → ℕ
width_bytes one = 1
width_bytes two = 2
width_bytes three = 3

-- The `d` bit.
abbrev pub d_bit : Bool → ℕ
d_bit true = 128
d_bit false = 0

-- dcxxxxxx, cyyyyyyy, czzzzzzz
abbrev pub length_prefix : Bool → Width → ℕ → List ℕ
length_prefix d one n = (d_bit d + n) ∷ []
length_prefix d two n = (d_bit d + 64 + n / 2 ^ 7) ∷ (n % 2 ^ 7) ∷ []
length_prefix d three n = (d_bit d + 64 + n / 2 ^ 14) ∷ (128 + n / 2 ^ 7 % 2 ^ 7) ∷ (n % 2 ^ 7) ∷ []

pub record Padding : Type 0 where
  pub width : Width
  pub body : List ℕ

abbrev pub IsPadding : Padding → Type 0
IsPadding p = length p.body < capacity p.width

abbrev pub padding_bytes : Padding → List ℕ
padding_bytes p = length_prefix false p.width (length p.body) ++ p.body

-- Any number of padding chunks, then whatever follows them.
abbrev pub padded : List Padding → List ℕ → List ℕ
padded [] rest = rest
padded (p ∷ ps) rest = length_prefix false p.width (length p.body) ++ (p.body ++ padded ps rest)

abbrev pub data_chunk : Width → List ℕ → List ℕ → List ℕ
data_chunk w p rest = length_prefix true w (length p) ++ (p ++ rest)

-- Padding chunks, each in the form of its prefix.
abbrev pub ArePaddings : List Padding → Type 0
ArePaddings = All IsPadding
