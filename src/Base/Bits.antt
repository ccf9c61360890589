-- ===== src/Base/Bits.antt =====
-- Masks as arithmetic. A mask of ones takes one step for each bit; the rest are tables on a byte.
use Prim.Native.Nat.{
  ℕ, zero, suc, ◌+◌, ◌*◌, ◌/◌, ◌%◌, ◌≤◌, ◌<◌, min, bit_and, bit_or, digits, bit_and-bitwise,
  bit_or-bitwise, max,
}
use mathlib.Core.Path.{◌≡◌, refl, ap}
use mathlib.Core.Bool.{Bool, true, ◌&&◌}
use native.Mathlib.Omega.{arith}
use ptbridge.Base.Tests.{◌==◌, ==_iff}

-- The digit recursion that `bit_and` stands for does not depend on its fuel.
abbrev conj_digits : ℕ → ℕ → ℕ → ℕ
conj_digits k x m = digits (λ b. zero) min k x m

conj_digits_stable : (k l x m : ℕ) → x ≤ k → x ≤ l → conj_digits k x m ≡ conj_digits l x m
conj_digits_stable zero zero x m p q = refl
conj_digits_stable zero (suc l) zero m p q = refl
conj_digits_stable zero (suc l) (suc x) m p q = absurd (omega arith)
conj_digits_stable (suc k) zero zero m p q = refl
conj_digits_stable (suc k) zero (suc x) m p q = absurd (omega arith)
conj_digits_stable (suc k) (suc l) zero m p q = refl
conj_digits_stable (suc k) (suc l) (suc x) m p q =
    omega (arith, conj_digits_stable k l (suc x / 2) (m / 2) (omega arith) (omega arith))

bit_and_zero_left : (m : ℕ) → bit_and 0 m ≡ 0
bit_and_zero_left m = bit_and-bitwise 0 m

bit_and_low : (x m : ℕ) → bit_and x m ≡ 2 * bit_and (x / 2) (m / 2) + min (x % 2) (m % 2)
bit_and_low zero m = omega (arith, bit_and_zero_left m, bit_and_zero_left (m / 2))
bit_and_low (suc x) m = omega (
  arith,
  bit_and-bitwise (suc x) m,
  bit_and-bitwise (suc x / 2) (m / 2),
  conj_digits_stable x (suc x / 2) (suc x / 2) (m / 2) (omega arith) (omega arith),
)

bit_and_zero_right_below : (k x : ℕ) → x ≤ k → bit_and x 0 ≡ 0
bit_and_zero_right_below k zero h = refl
bit_and_zero_right_below zero (suc x) h = absurd (omega arith)
bit_and_zero_right_below (suc k) (suc x) h =
    omega (arith, bit_and_low (suc x) 0, bit_and_zero_right_below k (suc x / 2) (omega arith))

mask_1 : (x : ℕ) → bit_and x 0x1 ≡ x % 2
mask_1 x = omega (arith, bit_and_low x 1, bit_and_zero_right_below (x / 2) (x / 2) (omega arith))

mask_3 : (x : ℕ) → bit_and x 0x7 ≡ x % 8
mask_3 x = omega (arith, bit_and_low x 7, bit_and_low (x / 2) 3, mask_1 (x / 2 / 2))

-- `x & 0x3f`
pub mask_6 : (x : ℕ) → bit_and x 0x3f ≡ x % 64
mask_6 x = omega (
  arith,
  bit_and_low x 63,
  bit_and_low (x / 2) 31,
  bit_and_low (x / 2 / 2) 15,
  mask_3 (x / 2 / 2 / 2),
)

-- `x & 0x7f`
pub mask_7 : (x : ℕ) → bit_and x 0x7f ≡ x % 128
mask_7 x = omega (arith, bit_and_low x 127, mask_6 (x / 2))

abbrev disj_digits : ℕ → ℕ → ℕ → ℕ
disj_digits k x m = digits (λ b. b) max k x m

disj_digits_stable : (k l x m : ℕ) → x ≤ k → x ≤ l → disj_digits k x m ≡ disj_digits l x m
disj_digits_stable zero zero x m p q = refl
disj_digits_stable zero (suc l) zero m p q = refl
disj_digits_stable zero (suc l) (suc x) m p q = absurd (omega arith)
disj_digits_stable (suc k) zero zero m p q = refl
disj_digits_stable (suc k) zero (suc x) m p q = absurd (omega arith)
disj_digits_stable (suc k) (suc l) zero m p q = refl
disj_digits_stable (suc k) (suc l) (suc x) m p q =
    omega (arith, disj_digits_stable k l (suc x / 2) (m / 2) (omega arith) (omega arith))

bit_or_zero_left : (m : ℕ) → bit_or 0 m ≡ m
bit_or_zero_left m = bit_or-bitwise 0 m

bit_or_low : (x m : ℕ) → bit_or x m ≡ 2 * bit_or (x / 2) (m / 2) + max (x % 2) (m % 2)
bit_or_low zero m = omega (arith, bit_or_zero_left m, bit_or_zero_left (m / 2))
bit_or_low (suc x) m = omega (
  arith,
  bit_or-bitwise (suc x) m,
  bit_or-bitwise (suc x / 2) (m / 2),
  disj_digits_stable x (suc x / 2) (suc x / 2) (m / 2) (omega arith) (omega arith),
)

bit_or_zero_right_below : (k x : ℕ) → x ≤ k → bit_or x 0 ≡ x
bit_or_zero_right_below k zero h = refl
bit_or_zero_right_below zero (suc x) h = absurd (omega arith)
bit_or_zero_right_below (suc k) (suc x) h =
    omega (arith, bit_or_low (suc x) 0, bit_or_zero_right_below k (suc x / 2) (omega arith))

-- one more bit below
join_double : (t x : ℕ) → bit_or t (x / 2) ≡ t + x / 2 → bit_or (2 * t) x ≡ 2 * t + x
join_double t x h = omega (
  arith,
  bit_or_low (2 * t) x,
  ap (λ (s : ℕ). bit_or s (x / 2)) {x = 2 * t / 2} {y = t} (omega arith),
)

join_3 : (t x : ℕ) → bit_or t (x / 2 / 2 / 2) ≡ t + x / 2 / 2 / 2 → bit_or (8 * t) x ≡ 8 * t + x
join_3 t x h =
    let e : 2 * (2 * (2 * t)) ≡ 8 * t = omega arith in
    rw (← e) (join_double _ x (join_double _ (x / 2) (join_double t (x / 2 / 2) h)))

join_0 : (t x : ℕ) → x ≡ 0 → bit_or t x ≡ t + x
join_0 t x h = rw h (omega (arith, bit_or_zero_right_below t t (omega arith)))

-- `n << 7 | x`
pub join_7 : (n x : ℕ) → x < 128 → bit_or (n * 128) x ≡ n * 128 + x
join_7 n x h =
    let e : 8 * (8 * (2 * n)) ≡ n * 128 = omega arith in
    rw (← e) (
      join_3 _ x (
        join_3 _ (x / 2 / 2 / 2)
          (join_double n (x / 2 / 2 / 2 / 2 / 2 / 2) (join_0 n _ (omega arith)))))

all_under : ℕ → (ℕ → Bool) → Bool
all_under zero p = true
all_under (suc n) p = p n && all_under n p

all_under_holds : (n : ℕ) (p : ℕ → Bool) (x : ℕ) → all_under n p ≡ true → x < n → p x ≡ true
unfolding all_under
all_under_holds zero p x h lt = absurd (omega arith)
all_under_holds (suc n) p x h lt = ground (arith, all_under_holds n p x)

-- `b & 0x80` and `b & 0x40` of a byte
pub bit_7 : (b : ℕ) → b < 256 → bit_and b 0x80 ≡ b / 128 * 128
unfolding all_under
bit_7 b h = (==_iff _ _).0 (all_under_holds 256 (λ x. bit_and x 0x80 == x / 128 * 128) b refl h)

pub bit_6 : (b : ℕ) → b < 256 → bit_and b 0x40 ≡ b / 64 % 2 * 64
unfolding all_under
bit_6 b h = (==_iff _ _).0 (all_under_holds 256 (λ x. bit_and x 0x40 == x / 64 % 2 * 64) b refl h)

-- `0x80 | b`, `0xc0 | b` and `0x40 | b` over clear bits
pub set_bit_7 : (b : ℕ) → b < 128 → bit_or 0x80 b ≡ 128 + b
unfolding all_under
set_bit_7 b h = (==_iff _ _).0 (all_under_holds 128 (λ x. bit_or 0x80 x == 128 + x) b refl h)

pub set_bits_76 : (b : ℕ) → b < 64 → bit_or 0xc0 b ≡ 192 + b
unfolding all_under
set_bits_76 b h = (==_iff _ _).0 (all_under_holds 64 (λ x. bit_or 0xc0 x == 192 + x) b refl h)

pub set_bit_6 : (b : ℕ) → b < 64 → bit_or 0x40 b ≡ 64 + b
unfolding all_under
set_bit_6 b h = (==_iff _ _).0 (all_under_holds 64 (λ x. bit_or 0x40 x == 64 + x) b refl h)
