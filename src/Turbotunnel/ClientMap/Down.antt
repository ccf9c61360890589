-- ===== src/Turbotunnel/ClientMap/Down.antt =====
-- heap.down restores the order below a record that became younger.
use ptbridge.Base.{
  ℕ, zero, suc, ◌+◌, ◌*◌, ◌≤◌, ◌<◌, ◌≡◌, refl, ◌⊎◌, inl, inr, true, false, List, arith, ltb, leb,
  ltb→lt, lt→ltb, Bool-cases, ℕ-cases, length, ok, Returns, returns, Returns-bind, Returns-map,
}
use ptbridge.Turbotunnel.ClientMap.{ClientRecord, ClientMapInner, child, down_loop, down}
use ptbridge.Turbotunnel.ClientMap.Index.{IsIndexed}
use ptbridge.Turbotunnel.ClientMap.Order.{
  age, parent, IsHeap, IsHeapBut, IsSifted, less-age, IsSwap, swap-IsSwap, IsSifted-refl,
  IsSifted-swap,
}

-- The record at `i` is not younger than its children.
abbrev pub IsBelow : ℕ → ℕ → List ClientRecord → Type 0
IsBelow n i rs = (c : ℕ) → 0 < c → c < n → parent c ≡ i → age rs i ≤ age rs c

-- The record at `i` is not older than its parent.
abbrev pub IsAbove : ℕ → List ClientRecord → Type 0
IsAbove i rs = 0 < i → age rs (parent i) ≤ age rs i

pub IsHeap-but :
    (n i : ℕ) (rs : List ClientRecord)
    → IsHeapBut n i rs
    → IsBelow n i rs
    → IsAbove i rs
    → IsHeap n rs
IsHeap-but n i rs but below above c p q = elim (ℕ-cases c i) [
  | inl e ↦ rw e (above (omega arith))
  | inr e ↦ elim (ℕ-cases (parent c) i) [
    | inl f ↦ rw f (below c p q f)
    | inr f ↦ but.edges c p q e f
  ]
]

-- The oldest child of `i`.
record IsChild (n i j : ℕ) (rs : List ClientRecord) : Type 0 where
  is_child : parent j ≡ i
  deeper : i < j
  inside : j < n
  oldest : (c : ℕ) → 0 < c → c < n → parent c ≡ i → age rs j ≤ age rs c

children_oldest :
    (n i j : ℕ) (rs : List ClientRecord)
    → age rs j ≤ age rs (2 * i + 1)
    → (2 * i + 1 + 1 < n → age rs j ≤ age rs (2 * i + 1 + 1))
    → (c : ℕ) → 0 < c
    → c < n
    → parent c ≡ i
    → age rs j ≤ age rs c
children_oldest n i j rs one two c p q r = elim (ℕ-cases c (2 * i + 1)) [
  | inl e ↦ rw e one
  | inr e ↦ let other : c ≡ 2 * i + 1 + 1 = omega arith in rw other (two (omega arith))
]

child-IsChild :
    (i n : ℕ) (inner : ClientMapInner)
    → 2 * i + 1 < n
    → n ≤ length inner.by_age
    → (j : ℕ) × (child i n inner ≡ ok j) × IsChild n i j inner.by_age
unfolding child
child-IsChild i n inner has_child size = elim (Bool-cases (ltb (2 * i + 1 + 1) n)) [
  | inr e ↦ (
    2 * i + 1,
    rw e refl,
    record {
      is_child = omega arith;
      deeper = omega arith;
      inside = has_child;
      oldest =
          children_oldest n i (2 * i + 1) inner.by_age (omega arith)
            (λ more. absurd (ground arith));
    },
  )
  | inl e ↦
      let both = less-age inner (2 * i + 1 + 1) (2 * i + 1) (ground arith) (omega arith) in
      elim (Bool-cases (ltb (age inner.by_age (2 * i + 1 + 1)) (age inner.by_age (2 * i + 1)))) [
        | inl f ↦ (
          2 * i + 1 + 1,
          rw (e, both, f) refl,
          record {
            is_child = omega arith;
            deeper = omega arith;
            inside = ground arith;
            oldest =
                children_oldest n i (2 * i + 1 + 1) inner.by_age (ground arith)
                  (λ more. omega arith);
          },
        )
        | inr f ↦ (
          2 * i + 1,
          rw (e, both, f) refl,
          record {
            is_child = omega arith;
            deeper = omega arith;
            inside = has_child;
            oldest =
                children_oldest n i (2 * i + 1) inner.by_age (omega arith) (λ more. ground arith);
          },
        )
      ]
]

-- One round: it stops, with the record in order, or goes on at a child with which the record was exchanged.
data Round (n i fuel : ℕ) (inner : ClientMapInner) : Type 0 where
  stops :
      down_loop (suc fuel) i n inner ≡ ok (i, inner)
      → IsBelow n i inner.by_age
      → Round n i fuel inner
  sinks :
      (j : ℕ) (inner' : ClientMapInner)
      → down_loop (suc fuel) i n inner ≡ down_loop fuel j n inner'
      → IsSwap i j inner inner'
      → i < j
      → j < n
      → IsHeapBut n j inner'.by_age
      → IsAbove j inner'.by_age
      → Round n i fuel inner

swap-IsHeapBut :
    (n i j : ℕ) (inner inner' : ClientMapInner)
    → IsHeapBut n i inner.by_age
    → IsChild n i j inner.by_age
    → age inner.by_age j < age inner.by_age i
    → IsSwap i j inner inner'
    → IsHeapBut n j inner'.by_age × IsAbove j inner'.by_age
swap-IsHeapBut n i j inner inner' but is_j older swap_i =
    let own = is_j.is_child in
    let deeper = is_j.deeper in
    let inside = is_j.inside in
    (
      record {
        edges = λ c p q r s. ground (
          arith,
          swap_i.ages c,
          swap_i.ages (parent c),
          but.edges c p q,
          but.across j,
          is_j.oldest c p q,
        );
        across =
            λ c p q r s. ground (arith, swap_i.ages c, swap_i.ages (parent j), but.edges c p q);
      },
      λ p. ground (arith, swap_i.ages j, swap_i.ages (parent j)),
    )

down_loop-Round :
    (n i fuel : ℕ) (inner : ClientMapInner)
    → IsIndexed inner
    → i < n
    → n ≤ length inner.by_age
    → IsHeapBut n i inner.by_age
    → Round n i fuel inner
unfolding down_loop
down_loop-Round n i fuel inner indexed hi size but = elim (Bool-cases (leb n (2 * i + 1))) [
  | inl e ↦ stops (rw e refl) (λ c p q r. absurd (ground arith))
  | inr e ↦
      let (j, picks, is_j) = child-IsChild i n inner (ground arith) size in
      let inside = is_j.inside in
      let compares = less-age inner j i (omega arith) (omega arith) in
      elim (Bool-cases (ltb (age inner.by_age j) (age inner.by_age i))) [
        | inl f ↦
            let (inner', swaps, swap_i) =
              swap-IsSwap inner i j indexed (omega arith) (omega arith) in
            let (but', above) =
              swap-IsHeapBut n i j inner inner' but is_j
                (ltb→lt (age inner.by_age j) (age inner.by_age i) f) swap_i in
            sinks j inner' (rw (e, picks, compares, f, swaps) refl) swap_i is_j.deeper inside but'
              above
        | inr f ↦
            stops (rw (e, picks, compares, f) refl) (λ c p q r. ground (arith, is_j.oldest c p q r))
      ]
]

module _ (n : ℕ) where
  -- The loop from a record that is not older than its parent.
  down_loop-IsSifted :
      (fuel i : ℕ) (inner : ClientMapInner)
      → n < fuel + i
      → IsIndexed inner
      → i < n
      → n ≤ length inner.by_age
      → IsHeapBut n i inner.by_age
      → IsAbove i inner.by_age
      → Returns (λ p. (i ≤ p.0) × IsSifted n inner p.1) (down_loop fuel i n inner)
  down_loop-IsSifted zero i inner h indexed hi size but above = absurd (omega arith)
  down_loop-IsSifted (suc fuel) i inner h indexed hi size but above =
      elim (down_loop-Round n i fuel inner indexed hi size but) [
        | stops e below ↦ rw e (
            returns (
              omega arith,
              IsSifted-refl n inner indexed (IsHeap-but n i inner.by_age but below above),
            ))
        | sinks j inner' e swap_i deeper inside but' above' ↦
            let size' = swap_i.same.sizes in
            rw e (
              Returns-map (down_loop fuel j n inner')
                (down_loop-IsSifted fuel j inner' (omega arith) swap_i.indexed inside (omega arith)
                  but' above')
                (λ p q.
                  (omega (arith, q.0), IsSifted-swap n i j inner inner' p.1 swap_i hi inside q.1)))
      ]

  -- The loop from any record: it stays, not younger than its children, or the heap is in order.
  abbrev pub Fixes : ℕ → ClientMapInner → ℕ × ClientMapInner → Type 0
  Fixes i inner p =
      ((p.0 ≡ i) × (p.1 ≡ inner) × IsBelow n i inner.by_age) ⊎ ((i < p.0) × IsSifted n inner p.1)

  down_loop-Fixes :
      (fuel i : ℕ) (inner : ClientMapInner)
      → n < fuel + i
      → IsIndexed inner
      → i < n
      → n ≤ length inner.by_age
      → IsHeapBut n i inner.by_age
      → Returns (Fixes i inner) (down_loop fuel i n inner)
  down_loop-Fixes zero i inner h indexed hi size but = absurd (omega arith)
  down_loop-Fixes (suc fuel) i inner h indexed hi size but =
      elim (down_loop-Round n i fuel inner indexed hi size but) [
        | stops e below ↦ rw e (returns (inl (refl, refl, below)))
        | sinks j inner' e swap_i deeper inside but' above' ↦
            let size' = swap_i.same.sizes in
            rw e (
              Returns-map (down_loop fuel j n inner')
                (down_loop-IsSifted fuel j inner' (omega arith) swap_i.indexed inside (omega arith)
                  but' above')
                (λ p q.
                  inr (
                    omega (arith, q.0),
                    IsSifted-swap n i j inner inner' p.1 swap_i hi inside q.1,
                  )))
      ]

  -- heap.down from the record at `i`, when the heap is in order but for its edges.
  pub down-Fixes :
      (i : ℕ) (inner : ClientMapInner)
      → IsIndexed inner
      → i < n
      → n ≤ length inner.by_age
      → IsHeapBut n i inner.by_age
      → Returns
          (λ p.
            ((p.0 ≡ false) × (p.1 ≡ inner) × IsBelow n i inner.by_age)
            ⊎ ((p.0 ≡ true) × IsSifted n inner p.1))
          (down i n inner)
  unfolding down
  down-Fixes i inner indexed hi size but =
      Returns-bind (down_loop (n + 1) i n inner) _
        (down_loop-Fixes (n + 1) i inner (omega arith) indexed hi size but)
        (λ p q. elim q [
          | inl (stays, same, below) ↦ returns (inl (ground arith, same, below))
          | inr (moved, sifted) ↦ returns (inr (lt→ltb i p.0 moved, sifted))
        ])
