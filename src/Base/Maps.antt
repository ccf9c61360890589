-- ===== src/Base/Maps.antt =====
-- Go's map with keys that are numbers, as a list of entries, and lists that are updated in place.
use Prim.Native.Nat.{ℕ, zero, suc, ◌+◌, ◌<◌}
use mathlib.Core.Path.{◌≡◌, refl, sym, ap, ◌∙◌}
use mathlib.Core.Logic.{◌≢◌, ◌⊎◌, inl, inr}
use mathlib.Core.List.{List, [], ◌∷◌, ◌++◌}
use mathlib.Core.Option.{Option, none, some}
use mathlib.Core.Bool.{true, false}
use native.Mathlib.Omega.{arith}
use ptbridge.Base.Tests.{◌==◌, if◌then◌else◌, Bool-cases, ℕ-cases, none≢some, some-injective}
use ptbridge.Base.Lists.{length, take, get_elem?, set}

module _ {ℓ} {A : Type ℓ} where
  unfoldable pub lookup : ℕ → List (ℕ × A) → Option A
  lookup k [] = none
  lookup k ((i, a) ∷ m) = if k == i then some a else lookup k m

  unfoldable pub delete : ℕ → List (ℕ × A) → List (ℕ × A)
  delete k [] = []
  delete k ((i, a) ∷ m) = let rest = delete k m in if k == i then rest else (i, a) ∷ rest

  unfoldable pub insert : ℕ → A → List (ℕ × A) → List (ℕ × A)
  insert k a m = (k, a) ∷ delete k m

  pub lookup-delete : (k : ℕ) (m : List (ℕ × A)) → lookup k (delete k m) ≡ none
  unfolding lookup delete
  lookup-delete k [] = refl
  lookup-delete k ((i, a) ∷ m) = ground (arith, lookup-delete k m)

  pub lookup-delete_other :
      (k j : ℕ) (m : List (ℕ × A)) → j ≢ k → lookup j (delete k m) ≡ lookup j m
  unfolding lookup delete
  lookup-delete_other k j [] h = refl
  lookup-delete_other k j ((i, a) ∷ m) h = ground (arith, lookup-delete_other k j m h)

  pub lookup-insert : (k : ℕ) (a : A) (m : List (ℕ × A)) → lookup k (insert k a m) ≡ some a
  unfolding lookup insert
  lookup-insert k a m = ground arith

  pub lookup-insert_other :
      (k j : ℕ) (a : A) (m : List (ℕ × A)) → j ≢ k → lookup j (insert k a m) ≡ lookup j m
  unfolding lookup insert
  lookup-insert_other k j a m h = ground (arith, lookup-delete_other k j m h)

  pub get_elem?-set :
      (xs : List A) (i : ℕ) (v x : A) → get_elem? xs i ≡ some x → get_elem? (set xs i v) i ≡ some v
  get_elem?-set [] i v x h = cc
  get_elem?-set (y ∷ xs) zero v x h = refl
  get_elem?-set (y ∷ xs) (suc i) v x h = get_elem?-set xs i v x h

  pub get_elem?-set_other :
      (xs : List A) (i j : ℕ) (v : A) → j ≢ i → get_elem? (set xs i v) j ≡ get_elem? xs j
  get_elem?-set_other [] i j v h = refl
  get_elem?-set_other (y ∷ xs) zero zero v h = absurd (h refl)
  get_elem?-set_other (y ∷ xs) zero (suc j) v h = refl
  get_elem?-set_other (y ∷ xs) (suc i) zero v h = refl
  get_elem?-set_other (y ∷ xs) (suc i) (suc j) v h =
      get_elem?-set_other xs i j v (λ e. h (omega arith))

  pub get_elem?-append :
      (xs ys : List A) (i : ℕ) (x : A) → get_elem? xs i ≡ some x → get_elem? (xs ++ ys) i ≡ some x
  get_elem?-append [] ys i x h = cc
  get_elem?-append (y ∷ xs) ys zero x h = h
  get_elem?-append (y ∷ xs) ys (suc i) x h = get_elem?-append xs ys i x h

  pub get_elem?-last : (xs : List A) (x : A) → get_elem? (xs ++ (x ∷ [])) (length xs) ≡ some x
  get_elem?-last [] x = refl
  get_elem?-last (y ∷ xs) x = get_elem?-last xs x

  pub lookup-insert_if :
      (k j : ℕ) (a : A) (m : List (ℕ × A))
      → lookup j (insert k a m) ≡ (if j == k then some a else lookup j m)
  unfolding lookup insert
  lookup-insert_if k j a m = elim (Bool-cases (j == k)) [
    | inl e ↦ rw e refl
    | inr e ↦ rw e (lookup-delete_other k j m (λ same. ground arith))
  ]

  -- The keys of a map are different.
  abbrev pub IsMap : List (ℕ × A) → Type ℓ
  IsMap [] = Unit {ℓ}
  IsMap ((i, a) ∷ m) = (lookup i m ≡ none) × IsMap m

  pub delete-IsMap : (k : ℕ) (m : List (ℕ × A)) → IsMap m → IsMap (delete k m)
  unfolding delete
  delete-IsMap k [] h = tt
  delete-IsMap k ((i, a) ∷ m) h = elim (Bool-cases (k == i)) [
    | inl e ↦ rw e (delete-IsMap k m h.1)
    | inr e ↦ rw e (lookup-delete_other k i m (λ same. ground arith) ∙ h.0, delete-IsMap k m h.1)
  ]

  pub insert-IsMap : (k : ℕ) (a : A) (m : List (ℕ × A)) → IsMap m → IsMap (insert k a m)
  unfolding insert
  insert-IsMap k a m h = (lookup-delete k m, delete-IsMap k m h)

  pub length-delete-none :
      (k : ℕ) (m : List (ℕ × A)) → lookup k m ≡ none → length (delete k m) ≡ length m
  unfolding lookup delete
  length-delete-none k [] h = refl
  length-delete-none k ((i, a) ∷ m) h = elim (Bool-cases (k == i)) [
    | inl e ↦ absurd (none≢some {a = a} (sym h ∙ rw e refl))
    | inr e ↦ rw e (ap suc (length-delete-none k m (rw e at h)))
  ]

  -- Deleting a key of a map takes one entry.
  pub length-delete :
      (k : ℕ) (a : A) (m : List (ℕ × A))
      → IsMap m
      → lookup k m ≡ some a
      → length (delete k m) + 1 ≡ length m
  unfolding lookup delete
  length-delete k a [] h found = absurd (none≢some found)
  length-delete k a ((i, b) ∷ m) h found = elim (Bool-cases (k == i)) [
    | inl e ↦
        let same : k ≡ i = ground arith in
        let others = length-delete-none k m (rw same (h.0)) in rw e (omega (arith, others))
    | inr e ↦ rw e (omega (arith, length-delete k a m h.1 (rw e at found)))
  ]

  pub length-insert-none :
      (k : ℕ) (a : A) (m : List (ℕ × A))
      → lookup k m ≡ none
      → length (insert k a m) ≡ suc (length m)
  unfolding insert
  length-insert-none k a m h = ap suc (length-delete-none k m h)

  pub length-insert-some :
      (k : ℕ) (a b : A) (m : List (ℕ × A))
      → IsMap m
      → lookup k m ≡ some b
      → length (insert k a m) ≡ length m
  unfolding insert
  length-insert-some k a b m h found = omega (arith, length-delete k b m h found)

  pub get_elem?-cases : (xs : List A) (i : ℕ) → i < length xs → (x : A) × (get_elem? xs i ≡ some x)
  get_elem?-cases [] i h = absurd (omega arith)
  get_elem?-cases (x ∷ xs) zero h = (x, refl)
  get_elem?-cases (x ∷ xs) (suc i) h = get_elem?-cases xs i (omega arith)

  pub get_elem?-lt-length : (xs : List A) (i : ℕ) (x : A) → get_elem? xs i ≡ some x → i < length xs
  get_elem?-lt-length [] i x h = absurd (none≢some h)
  get_elem?-lt-length (y ∷ xs) zero x h = omega arith
  get_elem?-lt-length (y ∷ xs) (suc i) x h = omega (arith, get_elem?-lt-length xs i x h)

  pub length-set : (xs : List A) (i : ℕ) (v : A) → length (set xs i v) ≡ length xs
  length-set [] i v = refl
  length-set (x ∷ xs) zero v = refl
  length-set (x ∷ xs) (suc i) v = ap suc (length-set xs i v)

  -- The list after two places are exchanged.
  pub get_elem?-swap :
      (xs : List A) (i j k : ℕ) (a b : A)
      → get_elem? xs i ≡ some a
      → get_elem? xs j ≡ some b
      → get_elem? (set (set xs i b) j a) k
        ≡ (if k == j then some a else if k == i then some b else get_elem? xs k)
  get_elem?-swap xs i j k a b ha hb = elim (ℕ-cases k j) [
    | inl e ↦
        let test : (k == j) ≡ true = ground arith in
        let (x, at) =
          get_elem?-cases (set xs i b) j
            (omega (arith, length-set xs i b, get_elem?-lt-length xs j b hb)) in
        rw (test, e) (get_elem?-set (set xs i b) j a x at)
    | inr e ↦
        let test : (k == j) ≡ false = ground arith in
        elim (ℕ-cases k i) [
          | inl f ↦
              let test' : (k == i) ≡ true = ground arith in
              rw test (
                get_elem?-set_other (set xs i b) j k a e
                ∙ rw (test', f) (get_elem?-set xs i b a ha))
          | inr f ↦
              let test' : (k == i) ≡ false = ground arith in
              rw test (
                get_elem?-set_other (set xs i b) j k a e
                ∙ rw test' (get_elem?-set_other xs i k b f))
        ]
  ]

  pub get_elem?-snoc :
      (xs : List A) (x : A) (k : ℕ) (y : A)
      → get_elem? (xs ++ (x ∷ [])) k ≡ some y
      → (get_elem? xs k ≡ some y) ⊎ ((k ≡ length xs) × (y ≡ x))
  get_elem?-snoc [] x zero y h = inr (refl, sym (some-injective h))
  get_elem?-snoc [] x (suc k) y h = absurd (none≢some h)
  get_elem?-snoc (z ∷ xs) x zero y h = inl h
  get_elem?-snoc (z ∷ xs) x (suc k) y h = elim (get_elem?-snoc xs x k y h) [
    | inl e ↦ inl e
    | inr (e, f) ↦ inr (ap suc e, f)
  ]

  pub get_elem?-take :
      (xs : List A) (n k : ℕ) (y : A)
      → get_elem? (take n xs) k ≡ some y
      → (k < n) × (get_elem? xs k ≡ some y)
  get_elem?-take xs zero k y h = absurd (none≢some h)
  get_elem?-take [] (suc n) k y h = absurd (none≢some h)
  get_elem?-take (x ∷ xs) (suc n) zero y h = (omega arith, h)
  get_elem?-take (x ∷ xs) (suc n) (suc k) y h =
      let (small, at) = get_elem?-take xs n k y h in (omega arith, at)

  pub get_elem?-take_lt :
      (xs : List A) (n k : ℕ) (y : A)
      → k < n
      → get_elem? xs k ≡ some y
      → get_elem? (take n xs) k ≡ some y
  get_elem?-take_lt xs zero k y small h = absurd (omega arith)
  get_elem?-take_lt [] (suc n) k y small h = absurd (none≢some h)
  get_elem?-take_lt (x ∷ xs) (suc n) zero y small h = h
  get_elem?-take_lt (x ∷ xs) (suc n) (suc k) y small h = get_elem?-take_lt xs n k y (omega arith) h

  pub get_elem?-append_lt :
      (xs ys : List A) (k : ℕ) → k < length xs → get_elem? (xs ++ ys) k ≡ get_elem? xs k
  get_elem?-append_lt [] ys k h = absurd (omega arith)
  get_elem?-append_lt (x ∷ xs) ys zero h = refl
  get_elem?-append_lt (x ∷ xs) ys (suc k) h = get_elem?-append_lt xs ys k (omega arith)

  pub get_elem?-take_below :
      (xs : List A) (n k : ℕ) → k < n → get_elem? (take n xs) k ≡ get_elem? xs k
  get_elem?-take_below xs zero k h = absurd (omega arith)
  get_elem?-take_below [] (suc n) k h = refl
  get_elem?-take_below (x ∷ xs) (suc n) zero h = refl
  get_elem?-take_below (x ∷ xs) (suc n) (suc k) h = get_elem?-take_below xs n k (omega arith)
