-- ===== src/Turbotunnel/ClientMap/Expiry.antt =====
-- clientmap.go: removeExpired, whatever the order of the heap.
use ptbridge.Base.{
  ℕ, zero, suc, ◌+◌, ◌≤◌, ◌<◌, ◌≡◌, refl, sym, ap, ◌∙◌, inl, inr, true, false, Option, none, some,
  List, arith, leb, ◌==◌, if◌then◌else◌, ℕ-cases, Option-cases, List-cases, length, get_elem?,
  Returns, returns, Returns-bind, Returns-map, Returns-if, lookup, get_elem?-lt-length,
}
use ptbridge.Turbotunnel.ClientMap.{
  ClientRecord, ClientMapInner, heap_pop, expired, remove_loop, remove_expired,
}
use ptbridge.Turbotunnel.ClientMap.Index.{IsIndexed}
use ptbridge.Turbotunnel.ClientMap.Views.{view, view-some}
use ptbridge.Turbotunnel.ClientMap.Order.{age_of, age, parent, IsHeap}
use ptbridge.Turbotunnel.ClientMap.Ops.{IsClientMap}
use ptbridge.Turbotunnel.ClientMap.Pops.{heap_pop-Makes}

-- What is kept of a client at the time `now`.
abbrev pub live : ℕ → ℕ → Option ClientRecord → Option ClientRecord
live now timeout none = none
live now timeout (some r) = if leb (r.last_seen + timeout) now then none else some r

-- The root of a heap is as old as any.
root-least :
    (n : ℕ) (rs : List ClientRecord) → IsHeap n rs → (k i : ℕ) → i ≤ k → i < n → age rs 0 ≤ age rs i
root-least n rs heap zero i small inside = let first : i ≡ 0 = omega arith in rw first (omega arith)
root-least n rs heap (suc k) i small inside = elim (ℕ-cases i 0) [
  | inl e ↦ rw e (omega arith)
  | inr e ↦ omega (
    arith,
    heap i (omega arith) inside,
    root-least n rs heap k (parent i) (omega arith) (omega arith),
  )
]

-- Nothing expires if the client of no place does.
live-view :
    (now timeout : ℕ) (inner : ClientMapInner)
    → IsIndexed inner
    → ((k : ℕ) (r : ClientRecord) → get_elem? inner.by_age k ≡ some r → now < r.last_seen + timeout)
    → (x : ℕ) → view inner x ≡ live now timeout (view inner x)
live-view now timeout inner indexed young x = elim (Option-cases (lookup x inner.by_addr)) [
  | inl e ↦ rw e refl
  | inr (k, e) ↦
      let (r, at, own) = indexed.to_record x k e in
      let kept : leb (r.last_seen + timeout) now ≡ false = ground (arith, young k r at) in
      rw (e, at) (sym (ap (λ b. if b then none else some r) kept))
]

-- What removeExpired leaves.
pub record IsExpired (now timeout : ℕ) (inner inner' : ClientMapInner) : Type 0 where
  pub well : IsClientMap inner'
  pub views : (x : ℕ) → view inner' x ≡ live now timeout (view inner x)
  pub queues : inner'.next_queue ≡ inner.next_queue

-- A round takes a client that is not live.
record IsRound (now timeout : ℕ) (inner popped : ClientMapInner) : Type 0 where
  well : IsClientMap popped
  views : (x : ℕ) → live now timeout (view popped x) ≡ live now timeout (view inner x)
  queues : popped.next_queue ≡ inner.next_queue
  shorter : length popped.by_age < length inner.by_age

module _ (now timeout : ℕ) (inner : ClientMapInner) (well : IsClientMap inner) where
  -- the oldest is young, and so are all
  young-views :
      expired now timeout inner.by_age ≡ false
      → (x : ℕ) → view inner x ≡ live now timeout (view inner x)
  young-views young = live-view now timeout inner well.indexed (λ k r at.
      let inside = get_elem?-lt-length inner.by_age k r at in
      let least =
        root-least (length inner.by_age) inner.by_age well.heap k k (omega arith) inside in
      let here : age inner.by_age k ≡ r.last_seen = ap age_of at in
      elim (List-cases inner.by_age) [
        | inl e ↦ absurd (omega (arith, ap length e))
        | inr (oldest, rs, e) ↦
            let first : age inner.by_age 0 ≡ oldest.last_seen = ap (λ l. age l 0) e in
            let not_old : leb (oldest.last_seen + timeout) now ≡ false =
              sym (ap (expired now timeout) e) ∙ young in
            ground arith
      ])

  -- the client of the root is not live
  live-popped :
      (oldest : ClientRecord) (x : ℕ)
      → get_elem? inner.by_age 0 ≡ some oldest
      → leb (oldest.last_seen + timeout) now ≡ true
      → live now timeout (if x == oldest.addr then none else view inner x)
        ≡ live now timeout (view inner x)
  live-popped oldest x root old = elim (ℕ-cases x oldest.addr) [
    | inl e ↦
        let seen = view-some inner 0 x oldest well.indexed root (sym e) in
        let test : (x == oldest.addr) ≡ true = ground arith in
        rw (test, seen) (sym (ap (λ b. if b then none else some oldest) old))
    | inr e ↦ let test : (x == oldest.addr) ≡ false = ground arith in rw test refl
  ]

  heap_pop-IsRound :
      expired now timeout inner.by_age ≡ true → Returns (IsRound now timeout inner) (heap_pop inner)
  heap_pop-IsRound old = elim (List-cases inner.by_age) [
    | inl e ↦ absurd (ground (arith, ap (expired now timeout) e))
    | inr (r, rs, e) ↦
        let root : get_elem? inner.by_age 0 ≡ some r = ap (λ l. get_elem? l 0) e in
        let size : length inner.by_age ≡ length rs + 1 = ap length e ∙ omega arith in
        Returns-map (heap_pop inner) (heap_pop-Makes inner well r (length rs) size root)
          (λ popped made. record {
            well = made.well;
            views = λ x.
                ap (live now timeout) (made.views x)
                ∙ live-popped r x root (sym (ap (expired now timeout) e) ∙ old);
            queues = made.queues;
            shorter = omega (arith, made.size_is);
          })
  ]

module _ (now timeout : ℕ) where
  remove_loop-IsExpired :
      (fuel : ℕ) (inner : ClientMapInner)
      → length inner.by_age < fuel
      → IsClientMap inner
      → Returns (IsExpired now timeout inner) (remove_loop fuel now timeout inner)
  unfolding remove_loop
  remove_loop-IsExpired zero inner enough well = absurd (omega arith)
  remove_loop-IsExpired (suc fuel) inner enough well =
      Returns-if (expired now timeout inner.by_age) _ _
        (λ old.
          Returns-bind (heap_pop inner) _ (heap_pop-IsRound now timeout inner well old)
            (λ popped round.
              Returns-map (remove_loop fuel now timeout popped)
                (remove_loop-IsExpired fuel popped (omega (arith, round.shorter)) round.well)
                (λ inner' left. record {
                  well = left.well;
                  views = λ x. left.views x ∙ round.views x;
                  queues = left.queues ∙ round.queues;
                })))
        (λ young.
          returns (record {
            well = well;
            views = young-views now timeout inner well young;
            queues = refl;
          }))

  -- On a client map whose index and heap are in order, removeExpired returns and leaves them in order. An address
  -- keeps its record if it was last seen less than `timeout` before `now`, and has none otherwise; the number of the
  -- next channel stays.
  pub remove_expired-IsExpired :
      (inner : ClientMapInner)
      → IsClientMap inner
      → Returns (IsExpired now timeout inner) (remove_expired now timeout inner)
  unfolding remove_expired
  remove_expired-IsExpired inner well =
      remove_loop-IsExpired (length inner.by_age + 1) inner (omega arith) well
