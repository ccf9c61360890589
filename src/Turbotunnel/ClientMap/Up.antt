-- ===== src/Turbotunnel/ClientMap/Up.antt =====
-- heap.up restores the order above a record that became older.
use ptbridge.Base.{
  ℕ, zero, suc, ◌+◌, ◌≤◌, ◌<◌, ◌≡◌, ◌∙◌, ◌≢◌, inl, inr, List, arith, ltb, ◌==◌, ℕ-cases, length,
  Returns, returns, Returns-map, Returns-if,
}
use ptbridge.Turbotunnel.ClientMap.{ClientRecord, ClientMapInner, up_loop, up}
use ptbridge.Turbotunnel.ClientMap.Index.{IsIndexed}
use ptbridge.Turbotunnel.ClientMap.Order.{
  age, parent, IsSifted, less-age, IsSwap, swap-IsSwap, IsSifted-refl, IsSifted-swap,
}

-- Only the edge above `i` may be out of order.
pub record IsUp (n i : ℕ) (rs : List ClientRecord) : Type 0 where
  pub inside : i < n
  pub edges : (c : ℕ) → 0 < c → c < n → c ≢ i → age rs (parent c) ≤ age rs c
  pub across : (c : ℕ) → 0 < c → c < n → parent c ≡ i → 0 < i → age rs (parent i) ≤ age rs c

swap-IsUp :
    (n i : ℕ) (inner inner' : ClientMapInner)
    → IsUp n i inner.by_age
    → 0 < i
    → age inner.by_age i < age inner.by_age (parent i)
    → IsSwap (parent i) i inner inner'
    → IsUp n (parent i) inner'.by_age
swap-IsUp n i inner inner' up_i some_parent older swap_i = record {
  inside = omega (arith, up_i.inside);
  edges = λ c p q r. ground (
    arith,
    swap_i.ages c,
    swap_i.ages (parent c),
    up_i.edges c,
    up_i.edges (parent i),
    up_i.across c,
  );
  across = λ c p q r s. ground (
    arith,
    swap_i.ages c,
    swap_i.ages (parent (parent i)),
    up_i.edges c,
    up_i.edges (parent i),
    up_i.across c,
  );
}

module _ (n : ℕ) where
  up_loop-IsSifted :
      (fuel i : ℕ) (inner : ClientMapInner)
      → i < fuel
      → IsIndexed inner
      → length inner.by_age ≡ n
      → IsUp n i inner.by_age
      → Returns (IsSifted n inner) (up_loop fuel i inner)
  unfolding up_loop
  up_loop-IsSifted zero i inner h indexed size up_i = absurd (omega arith)
  up_loop-IsSifted (suc fuel) i inner h indexed size up_i =
      let inside = up_i.inside in
      let (inner', swaps, swap_i) =
        swap-IsSwap inner (parent i) i indexed (omega arith) (omega arith) in
      Returns-if (parent i == i) _ _
        (λ root. returns (IsSifted-refl n inner indexed (λ c p q. up_i.edges c p q (ground arith))))
        (λ below_root.
          rw (less-age inner i (parent i) (omega arith) (omega arith), swaps)
            (Returns-if (ltb (age inner.by_age i) (age inner.by_age (parent i))) _ _
              (λ older.
                Returns-map (up_loop fuel (parent i) inner')
                  (up_loop-IsSifted fuel (parent i) inner' (ground arith) swap_i.indexed
                    (swap_i.same.sizes ∙ size)
                    (swap-IsUp n i inner inner' up_i (ground arith) (ground arith) swap_i))
                  (λ inner''.
                    IsSifted-swap n (parent i) i inner inner' inner'' swap_i (omega arith) inside))
              (λ settled. returns (
                IsSifted-refl n inner indexed (λ c p q. elim (ℕ-cases c i) [
                  | inl e ↦ ground arith
                  | inr e ↦ up_i.edges c p q e
                ])))))

  -- heap.up, on a heap of `n` records in which only the one at `i` may be older than its parent.
  pub up-IsSifted :
      (i : ℕ) (inner : ClientMapInner)
      → IsIndexed inner
      → length inner.by_age ≡ n
      → IsUp n i inner.by_age
      → Returns (IsSifted n inner) (up i inner)
  unfolding up
  up-IsSifted i inner indexed size up_i =
      up_loop-IsSifted (i + 1) i inner (omega arith) indexed size up_i
