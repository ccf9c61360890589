-- ===== src/Base/Text.antt =====
-- Go strings are lists of bytes; a literal of the source stands for its bytes.
use Prim.Native.Nat.{ℕ, zero, suc}
use Prim.Native.Char.{code}
use Prim.Native.String.{String}
use mathlib.Core.Path.{◌≡◌, refl}
use mathlib.Core.Logic.{◌↔◌}
use mathlib.Core.Bool.{Bool, true, false, ◌&&◌}
use mathlib.Core.List.{List, [], ◌∷◌}
use native.Mathlib.Omega.{arith}
use ptbridge.Base.Tests.{◌==◌}

-- The bytes of an ASCII literal.
abbrev pub text : String → List ℕ
text String.[] = []
text (String.◌∷◌ c s) = code c ∷ text s

-- `==` on strings
infix 50 ◌=ˢ◌
unfoldable pub ◌=ˢ◌ : List ℕ → List ℕ → Bool
[] =ˢ [] = true
[] =ˢ (b ∷ t) = false
(a ∷ s) =ˢ [] = false
(a ∷ s) =ˢ (b ∷ t) = a == b && s =ˢ t

pub =ˢ_iff : (s t : List ℕ) → ((s =ˢ t) ≡ true) ↔ (s ≡ t)
unfolding ◌=ˢ◌
=ˢ_iff [] [] = (λ h. refl, λ h. refl)
=ˢ_iff [] (b ∷ t) = (λ h. cc, λ h. cc)
=ˢ_iff (a ∷ s) [] = (λ h. cc, λ h. cc)
=ˢ_iff (a ∷ s) (b ∷ t) = ground (arith, =ˢ_iff s t)

pub =ˢ_refl : (s : List ℕ) → (s =ˢ s) ≡ true
=ˢ_refl s = (=ˢ_iff s s).1 refl

-- An index into an array of fixed size, which the compiler has checked.
abbrev pub byte_at : List ℕ → ℕ → ℕ
byte_at [] i = 0
byte_at (b ∷ s) zero = b
byte_at (b ∷ s) (suc i) = byte_at s i
