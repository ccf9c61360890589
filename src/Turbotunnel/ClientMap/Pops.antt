-- ===== src/Turbotunnel/ClientMap/Pops.antt =====
-- heap.Pop on a client map.
use ptbridge.Base.{
  ℕ, zero, suc, ◌+◌, ◌-◌, ◌≡◌, refl, sym, ap, subst, ◌∙◌, inl, inr, false, none, some, arith, ◌==◌,
  if◌then◌else◌, length, take, get_elem?, length-take, ok, Returns, returns, Returns-bind,
  Returns-map, get_elem?-take_below,
}
use ptbridge.Turbotunnel.ClientMap.{ClientRecord, ClientMapInner, pop, down_loop, down, heap_pop}
use ptbridge.Turbotunnel.ClientMap.Index.{IsIndexed}
use ptbridge.Turbotunnel.ClientMap.Views.{view}
use ptbridge.Turbotunnel.ClientMap.Updates.{popped, popped-IsIndexed, view-popped}
use ptbridge.Turbotunnel.ClientMap.Order.{
  age_of, parent, IsHeap, IsHeapBut, IsSifted, IsSwap, swap-IsSwap, IsSifted-refl,
}
use ptbridge.Turbotunnel.ClientMap.Down.{IsHeap-but, down-Fixes}
use ptbridge.Turbotunnel.ClientMap.Ops.{IsClientMap, len-length, Makes}

-- heap.down from the root, also when nothing is left below `n`.
down_root-IsSifted :
    (n : ℕ) (inner : ClientMapInner)
    → IsIndexed inner
    → length inner.by_age ≡ n + 1
    → IsHeapBut n 0 inner.by_age
    → Returns (λ p. IsSifted n inner p.1) (down 0 n inner)
down_root-IsSifted zero inner indexed size but =
    unfold down down_loop in returns (IsSifted-refl 0 inner indexed (λ c p q. absurd (omega arith)))
down_root-IsSifted (suc n) inner indexed size but =
    Returns-map (down 0 (suc n) inner)
      (down-Fixes (suc n) 0 inner indexed (omega arith) (omega arith) but)
      (λ p q. elim q [
        | inl (e, is, below) ↦ subst (IsSifted (suc n) inner) (sym is) (
            IsSifted-refl (suc n) inner indexed
              (IsHeap-but (suc n) 0 inner.by_age but below (λ h. absurd (omega arith))))
        | inr (e, sifted) ↦ sifted
      ])

-- Pop of the record `r`, at the last place.
pop-popped :
    (n : ℕ) (inner : ClientMapInner) (r : ClientRecord)
    → IsIndexed inner
    → length inner.by_age ≡ n + 1
    → get_elem? inner.by_age n ≡ some r
    → pop inner ≡ ok (popped inner n r)
unfolding pop
pop-popped n inner r indexed size last =
    let same = indexed.same_length in
    let count : length inner.by_addr ≡ n + 1 = omega arith in
    let place : n + 1 - 1 ≡ n = omega arith in
    let some_left : (n + 1 == 0) ≡ false = ground arith in rw (count, some_left, place, last) refl

popped-IsHeap :
    (n : ℕ) (inner : ClientMapInner) (r : ClientRecord)
    → length inner.by_age ≡ n + 1
    → IsHeap n inner.by_age
    → IsHeap (length (take n inner.by_age)) (take n inner.by_age)
popped-IsHeap n inner r size heap c p q =
    let count = length-take n inner.by_age in
    let here = ap age_of (get_elem?-take_below inner.by_age n c (omega arith)) in
    let above = ap age_of (get_elem?-take_below inner.by_age n (parent c) (omega arith)) in
    omega (arith, heap c p (omega arith), here, above)

module _ (inner : ClientMapInner) (well : IsClientMap inner) (r : ClientRecord) (n : ℕ)
    (size : length inner.by_age ≡ n + 1) (root : get_elem? inner.by_age 0 ≡ some r) where
  -- The heap after the exchange of the root with the last record.
  swapped-IsHeapBut :
      (inner' : ClientMapInner) → IsSwap 0 n inner inner' → IsHeapBut n 0 inner'.by_age
  swapped-IsHeapBut inner' swap_0 = record {
    edges = λ c p q e f. ground (arith, swap_0.ages c, swap_0.ages (parent c), well.heap c p);
    across = λ c p q e f. absurd (omega arith);
  }

  sunk-Makes :
      (inner' sunk : ClientMapInner)
      → IsSwap 0 n inner inner'
      → IsSifted n inner' sunk
      → Returns (Makes inner (λ x. if x == r.addr then none else view inner x) n) (pop sunk)
  sunk-Makes inner' sunk swap_0 sifted =
      let count : length sunk.by_age ≡ n + 1 = sifted.same.sizes ∙ swap_0.same.sizes ∙ size in
      let last : get_elem? sunk.by_age n ≡ some r =
        sifted.above n (omega arith) ∙ swap_0.taken ∙ root in
      rw (pop-popped n sunk r sifted.indexed count last) (
        returns (record {
          well = record {
            indexed = popped-IsIndexed sunk n r sifted.indexed count last;
            heap = popped-IsHeap n sunk r count sifted.heap;
          };
          views = λ x.
              view-popped sunk n r sifted.indexed count last x
              ∙ ap (λ o. if x == r.addr then none else o)
                  (sifted.same.views x ∙ swap_0.same.views x);
          size_is = omega (arith, length-take n sunk.by_age);
          queues = sifted.same.queues ∙ swap_0.same.queues;
        }))

  -- heap.Pop takes the record at the root.
  pub heap_pop-Makes :
      Returns (Makes inner (λ x. if x == r.addr then none else view inner x) n) (heap_pop inner)
  unfolding heap_pop
  heap_pop-Makes =
      let (inner', swaps, swap_0) =
        swap-IsSwap inner 0 n well.indexed (omega arith) (omega arith) in
      let place : n + 1 - 1 ≡ n = omega arith in
      rw (len-length inner well.indexed, size, place, swaps)
        (Returns-bind (down 0 n inner') _
          (down_root-IsSifted n inner' swap_0.indexed (swap_0.same.sizes ∙ size)
            (swapped-IsHeapBut inner' swap_0))
          (λ p sifted. sunk-Makes inner' p.1 swap_0 sifted))
