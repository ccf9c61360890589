-- ===== src/Turbotunnel/ClientMap/Order.antt =====
-- The heap order of the records by age, and one exchange of two of them.
use ptbridge.Base.{
  ℕ, ◌-◌, ◌/◌, ◌≤◌, ◌<◌, ◌≡◌, refl, ap, ◌∙◌, ◌≢◌, Option, none, some, List, arith, ltb, ◌==◌,
  if◌then◌else◌, length, get_elem?, set, ok, get_elem?-set_other, get_elem?-cases,
}
use ptbridge.Turbotunnel.ClientMap.{ClientRecord, ClientMapInner, less, swap}
use ptbridge.Turbotunnel.ClientMap.Index.{
  IsIndexed, swapped, swap-swapped, at_swapped, swapped-IsIndexed,
}
use ptbridge.Turbotunnel.ClientMap.Views.{IsSame, IsSame-refl, IsSame-trans, swapped-IsSame}

abbrev pub age_of : Option ClientRecord → ℕ
age_of none = 0
age_of (some r) = r.last_seen

-- The time at which the client of a place was last seen.
abbrev pub age : List ClientRecord → ℕ → ℕ
age rs i = age_of (get_elem? rs i)

abbrev pub parent : ℕ → ℕ
parent c = (c - 1) / 2

-- Of the first `n` places none is older than its parent.
abbrev pub IsHeap : ℕ → List ClientRecord → Type 0
IsHeap n rs = (c : ℕ) → 0 < c → c < n → age rs (parent c) ≤ age rs c

-- In order but for the edges at `i`, and in order across it.
pub record IsHeapBut (n i : ℕ) (rs : List ClientRecord) : Type 0 where
  pub edges : (c : ℕ) → 0 < c → c < n → c ≢ i → parent c ≢ i → age rs (parent c) ≤ age rs c
  pub across : (c : ℕ) → 0 < c → c < n → parent c ≡ i → 0 < i → age rs (parent i) ≤ age rs c

-- The clients as they were, in heap order below `n` and untouched from there.
pub record IsSifted (n : ℕ) (inner inner' : ClientMapInner) : Type 0 where
  pub indexed : IsIndexed inner'
  pub same : IsSame inner inner'
  pub heap : IsHeap n inner'.by_age
  pub above : (k : ℕ) → n ≤ k → get_elem? inner'.by_age k ≡ get_elem? inner.by_age k

pub less-age :
    (inner : ClientMapInner) (i j : ℕ)
    → i < length inner.by_age
    → j < length inner.by_age
    → less i j inner ≡ ok (ltb (age inner.by_age i) (age inner.by_age j))
unfolding less
less-age inner i j hi hj =
    let (a, ha) = get_elem?-cases inner.by_age i hi in
    let (b, hb) = get_elem?-cases inner.by_age j hj in rw (ha, hb) refl

-- What an exchange of two places does.
pub record IsSwap (i j : ℕ) (inner inner' : ClientMapInner) : Type 0 where
  pub indexed : IsIndexed inner'
  pub same : IsSame inner inner'
  pub ages :
      (k : ℕ)
      → age inner'.by_age k ≡ (
          if k == j
          then age inner.by_age i
          else if k == i
          then age inner.by_age j
          else age inner.by_age k)
  pub others : (k : ℕ) → k ≢ i → k ≢ j → get_elem? inner'.by_age k ≡ get_elem? inner.by_age k
  pub taken : get_elem? inner'.by_age j ≡ get_elem? inner.by_age i

pub swap-IsSwap :
    (inner : ClientMapInner) (i j : ℕ)
    → IsIndexed inner
    → i < length inner.by_age
    → j < length inner.by_age
    → (inner' : ClientMapInner) × (swap i j inner ≡ ok inner') × IsSwap i j inner inner'
swap-IsSwap inner i j indexed hi hj =
    let (a, ha) = get_elem?-cases inner.by_age i hi in
    let (b, hb) = get_elem?-cases inner.by_age j hj in
    (
      swapped inner i j a b,
      swap-swapped inner i j a b ha hb,
      record {
        indexed = swapped-IsIndexed inner i j a b indexed ha hb;
        same = swapped-IsSame inner i j a b indexed ha hb;
        ages = λ k. ground (arith, at_swapped inner i j a b indexed ha hb k);
        others = λ k p q. ground (arith, at_swapped inner i j a b indexed ha hb k);
        taken = ground (arith, at_swapped inner i j a b indexed ha hb j);
      },
    )

pub IsSifted-refl :
    (n : ℕ) (inner : ClientMapInner)
    → IsIndexed inner
    → IsHeap n inner.by_age
    → IsSifted n inner inner
IsSifted-refl n inner indexed heap = record {
  indexed = indexed;
  same = IsSame-refl inner;
  heap = heap;
  above = λ k h. refl;
}

pub IsSifted-swap :
    (n i j : ℕ) (inner inner' inner'' : ClientMapInner)
    → IsSwap i j inner inner'
    → i < n
    → j < n
    → IsSifted n inner' inner''
    → IsSifted n inner inner''
IsSifted-swap n i j inner inner' inner'' one hi hj rest = record {
  indexed = rest.indexed;
  same = IsSame-trans inner inner' inner'' one.same rest.same;
  heap = rest.heap;
  above = λ k h. rest.above k h ∙ one.others k (λ e. omega arith) (λ e. omega arith);
}

age-set :
    (rs : List ClientRecord) (i k : ℕ) (r : ClientRecord) → k ≢ i → age (set rs i r) k ≡ age rs k
age-set rs i k r ne = ap age_of (get_elem?-set_other rs i k r ne)

-- A heap in which one record is replaced.
pub IsHeapBut-set :
    (n i : ℕ) (rs : List ClientRecord) (r : ClientRecord) → IsHeap n rs → IsHeapBut n i (set rs i r)
IsHeapBut-set n i rs r heap = record {
  edges = λ c p q e f. omega (arith, heap c p q, age-set rs i c r e, age-set rs i (parent c) r f);
  across = λ c p q e root.
      let here : c ≢ i = λ s. omega arith in
      let above : parent i ≢ i = λ s. omega arith in
      let one = heap c p q in
      let two : age rs (parent i) ≤ age rs i = heap i root (omega arith) in
      let three : age rs i ≤ age rs c = rw e at one in
      omega (arith, age-set rs i c r here, age-set rs i (parent i) r above);
}
