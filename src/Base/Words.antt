-- ===== src/Base/Words.antt =====
-- binary.BigEndian on two and four bytes.
use Prim.Native.Nat.{ℕ, ◌+◌, ◌*◌, ◌/◌, ◌%◌, ◌^◌}
use mathlib.Core.Path.{◌≡◌}
use mathlib.Core.List.{List, [], ◌∷◌}
use native.Mathlib.Omega.{arith}
use ptbridge.Base.Lists.{AreBytes}

-- PutUint16 and PutUint32: the conversion to the unsigned type keeps the low bits.
abbrev pub put_u16 : ℕ → List ℕ
put_u16 v = (v / 256 % 256) ∷ (v % 256) ∷ []

abbrev pub put_u32 : ℕ → List ℕ
put_u32 v = (v / 2 ^ 24 % 256) ∷ (v / 2 ^ 16 % 256) ∷ (v / 256 % 256) ∷ (v % 256) ∷ []

abbrev pub u16 : ℕ → ℕ → ℕ
u16 a b = a * 256 + b

abbrev pub u32 : ℕ → ℕ → ℕ → ℕ → ℕ
u32 a b c d = a * 2 ^ 24 + b * 2 ^ 16 + c * 256 + d

pub u16-put_u16 : (v : ℕ) → u16 (v / 256 % 256) (v % 256) ≡ v % 2 ^ 16
u16-put_u16 v = omega arith

pub u32-put_u32 :
    (v : ℕ) → u32 (v / 2 ^ 24 % 256) (v / 2 ^ 16 % 256) (v / 256 % 256) (v % 256) ≡ v % 2 ^ 32
u32-put_u32 v = omega arith

pub put_u32-AreBytes : (v : ℕ) → AreBytes (put_u32 v)
put_u32-AreBytes v = omega arith

pub put_u16-AreBytes : (v : ℕ) → AreBytes (put_u16 v)
put_u16-AreBytes v = omega arith
