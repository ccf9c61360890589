-- ===== src/Base/Results.antt =====
-- Go's pair of a value and an error, as one value.
use mathlib.Core.Path.{◌≡◌, refl, sym, ◌∙◌, subst}
use mathlib.Core.Logic.{◌⊎◌, inl, inr}
use mathlib.Core.Bool.{Bool, true, false}
use native.Mathlib.Omega.{arith}
use ptbridge.Base.Tests.{if◌then◌else◌}

-- `panic` is a run-time panic, and `out_of_fuel` the end of a model loop's fuel.
pub data Result {ℓ κ} (E : Type ℓ) (A : Type κ) : Type (ℓ ⊔ κ) where
  ok : A → Result E A
  err : E → Result E A
  panic out_of_fuel : Result E A

infixl 5 ◌>>=◌ ◌>>◌
abbrev pub ◌>>=◌ {ε ℓ κ} :
    {E : Type ε} {A : Type ℓ} {B : Type κ} → Result E A → (A → Result E B) → Result E B
ok a >>= f = f a
err e >>= f = err e
panic >>= f = panic
out_of_fuel >>= f = out_of_fuel

abbrev pub ◌>>◌ {ε κ} : {E : Type ε} {B : Type κ} → Result E (Unit {0}) → Result E B → Result E B
m >> k = m >>= λ _. k

abbrev pub map_err {ε κ ℓ} :
    {E : Type ε} {F : Type κ} {A : Type ℓ} → (E → F) → Result E A → Result F A
map_err f (ok a) = ok a
map_err f (err e) = err (f e)
map_err f panic = panic
map_err f out_of_fuel = out_of_fuel

-- `if !b { return err }`
abbrev pub guard {ε} : {E : Type ε} → Bool → E → Result E (Unit {0})
guard false x = err x
guard true x = ok tt

pub Result-cases {ε ℓ} :
    {E : Type ε} {A : Type ℓ} (r : Result E A)
    → ((a : A) × (r ≡ ok a)) ⊎ ((e : E) × (r ≡ err e)) ⊎ (r ≡ panic) ⊎ (r ≡ out_of_fuel)
Result-cases (ok a) = inl (a, refl)
Result-cases (err e) = inr (inl (e, refl))
Result-cases panic = inr (inr (inl refl))
Result-cases out_of_fuel = inr (inr (inr refl))

pub >>=-eq-ok {ε ℓ κ} :
    {E : Type ε} {A : Type ℓ} {B : Type κ} (r : Result E A) (k : A → Result E B) {y : B}
    → (r >>= k) ≡ ok y
    → (x : A) × (r ≡ ok x) × (k x ≡ ok y)
>>=-eq-ok panic k e = cc
>>=-eq-ok out_of_fuel k e = cc
>>=-eq-ok (err x) k e = cc
>>=-eq-ok (ok x) k e = (x, refl, e)

-- The call returns, with a value or with an error.
abbrev pub Settles {ε ℓ} : {E : Type ε} {A : Type ℓ} → Result E A → Type 0
Settles (ok a) = Unit
Settles (err e) = Unit
Settles panic = ⊥
Settles out_of_fuel = ⊥

module _ {ε ℓ} {E : Type ε} {A : Type ℓ} where
  pub Settles-bind {κ} :
      {B : Type κ} (m : Result E A) (f : A → Result E B)
      → Settles m
      → ((a : A) → Settles (f a))
      → Settles (m >>= f)
  Settles-bind (ok a) f h k = k a
  Settles-bind (err e) f h k = tt
  Settles-bind panic f h k = absurd h
  Settles-bind out_of_fuel f h k = absurd h

  pub Settles-map_err {κ} :
      {F : Type κ} (f : E → F) (m : Result E A) → Settles m → Settles (map_err f m)
  Settles-map_err f (ok a) h = tt
  Settles-map_err f (err e) h = tt
  Settles-map_err f panic h = absurd h
  Settles-map_err f out_of_fuel h = absurd h

  pub Settles-ne : (m : Result E A) → Settles m → (m ≡ panic → ⊥) × (m ≡ out_of_fuel → ⊥)
  Settles-ne (ok a) h = ground arith
  Settles-ne (err e) h = ground arith
  Settles-ne panic h = absurd h
  Settles-ne out_of_fuel h = absurd h

pub Settles-guard {ε κ} :
    {E : Type ε} {B : Type κ} (b : Bool) (x : E) (k : Result E B)
    → Settles k
    → Settles (guard b x >> k)
Settles-guard true x k h = h
Settles-guard false x k h = tt

pub Settles-if {ε κ} :
    {E : Type ε} {B : Type κ} (b : Bool) (x y : Result E B)
    → Settles x
    → Settles y
    → Settles (if b then x else y)
Settles-if true x y hx hy = hx
Settles-if false x y hx hy = hy

pub guard-ok {ε κ} :
    {E : Type ε} {B : Type κ} (b : Bool) (x : E) (k : Result E B) (y : B)
    → (guard b x >> k) ≡ ok y
    → (b ≡ true) × (k ≡ ok y)
guard-ok true x k y h = (refl, h)
guard-ok false x k y h = cc

-- The call returns a value, and one with the property `P`.
pub data Returns {ε ℓ κ} {E : Type ε} {A : Type ℓ} (P : A → Type κ)
    : Result E A → Type (ε ⊔ ℓ ⊔ κ) where
  returns : {a : A} → P a → Returns P (ok a)

module _ {ε ℓ κ} {E : Type ε} {A : Type ℓ} {P : A → Type κ} where
  pub Returns-ok : (r : Result E A) → Returns P r → (a : A) × (r ≡ ok a) × P a
  Returns-ok _ (returns {a = a} h) = (a, refl, h)

  pub Returns-bind {ℓ' κ'} :
      {B : Type ℓ'} {Q : B → Type κ'} (m : Result E B) (f : B → Result E A)
      → Returns Q m
      → ((b : B) → Q b → Returns P (f b))
      → Returns P (m >>= f)
  Returns-bind _ f (returns {a = b} h) k = k b h

  pub Returns-map {κ'} :
      {Q : A → Type κ'} (r : Result E A) → Returns Q r → ((a : A) → Q a → P a) → Returns P r
  Returns-map _ (returns {a = a} h) k = returns (k a h)

  pub Returns-if :
      (b : Bool) (x y : Result E A)
      → (b ≡ true → Returns P x)
      → (b ≡ false → Returns P y)
      → Returns P (if b then x else y)
  Returns-if true x y hx hy = hx refl
  Returns-if false x y hx hy = hy refl

pub ok-injective {ε ℓ} :
    {E : Type ε} {A : Type ℓ} {a b : A} → ◌≡◌ {A = Result E A} (ok a) (ok b) → a ≡ b
ok-injective e = cc

-- The property of a call that returned.
pub Returns-eq {ε ℓ κ} :
    {E : Type ε} {A : Type ℓ} {P : A → Type κ} {r : Result E A} {a : A}
    → r ≡ ok a
    → Returns P r
    → P a
Returns-eq {P = P} e h = let (b, f, p) = Returns-ok _ h in subst P (ok-injective (sym f ∙ e)) p
