-- ===== src/Base/Slices.antt =====
-- Go's slice expressions, which panic out of range.
use Prim.Native.Nat.{ℕ, ◌+◌, ◌-◌}
use mathlib.Core.Path.{◌≡◌}
use mathlib.Core.List.{List, ◌++◌}
use mathlib.Core.Bool.{true, ◌&&◌}
use native.Mathlib.Omega.{arith}
use ptbridge.Base.Tests.{leb, if◌then◌else◌}
use ptbridge.Base.Lists.{length, take, drop, length-append, take-append, drop-append}
use ptbridge.Base.Results.{Result, ok, panic}

-- p[lo:hi], which panics unless lo ≤ hi ≤ len(p)
unfoldable pub slice {ε ℓ} : {E : Type ε} {A : Type ℓ} → ℕ → ℕ → List A → Result E (List A)
slice lo hi p = if leb lo hi && leb hi (length p) then ok (take (hi - lo) (drop lo p)) else panic

-- A slice of the middle of a list.
pub slice-append {ε ℓ} :
    {E : Type ε} {A : Type ℓ} (lo hi : ℕ) (xs ys zs : List A)
    → length xs ≡ lo
    → lo + length ys ≡ hi
    → slice {E = E} lo hi (xs ++ (ys ++ zs)) ≡ ok ys
unfolding slice
slice-append lo hi xs ys zs e f =
    let inside : (leb lo hi && leb hi (length (xs ++ (ys ++ zs)))) ≡ true =
      ground (arith, length-append xs (ys ++ zs), length-append ys zs) in
    let size : hi - lo ≡ length ys = omega arith in
    rw (inside, size, ← e, drop-append xs (ys ++ zs), take-append ys zs)
