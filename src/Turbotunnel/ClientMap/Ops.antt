-- ===== src/Turbotunnel/ClientMap/Ops.antt =====
-- heap.Push, heap.Pop and heap.Fix on a client map.
use ptbridge.Base.{
  ℕ, ◌+◌, ◌-◌, ◌≡◌, refl, sym, ap, subst, ◌∙◌, inl, inr, true, Option, none, some, [], ◌∷◌, ◌++◌,
  arith, ◌==◌, if◌then◌else◌, ==_iff, ℕ-cases, none≢some, length, get_elem?, length-append, ok,
  Returns, returns, Returns-bind, Returns-map, lookup, get_elem?-lt-length, length-set,
  get_elem?-append_lt,
}
use ptbridge.Turbotunnel.ClientMap.{
  ClientRecord, ClientMapInner, len, push, up, down, heap_push, heap_fix,
}
use ptbridge.Turbotunnel.ClientMap.Index.{IsIndexed}
use ptbridge.Turbotunnel.ClientMap.Views.{view, pushed, pushed-IsIndexed, view-pushed}
use ptbridge.Turbotunnel.ClientMap.Updates.{replaced, replaced-IsIndexed, view-replaced}
use ptbridge.Turbotunnel.ClientMap.Down.{IsBelow, down-Fixes}
use ptbridge.Turbotunnel.ClientMap.Order.{age_of, parent, IsHeap, IsSifted, IsHeapBut-set}
use ptbridge.Turbotunnel.ClientMap.Up.{IsUp, up-IsSifted}

-- The index agrees with the records, and they are a heap by age.
pub record IsClientMap (inner : ClientMapInner) : Type 0 where
  pub indexed : IsIndexed inner
  pub heap : IsHeap (length inner.by_age) inner.by_age

pub len-length : (inner : ClientMapInner) → IsIndexed inner → len inner ≡ ok (length inner.by_age)
unfolding len
len-length inner indexed =
    let same : (length inner.by_age == length inner.by_addr) ≡ true =
      (==_iff _ _).1 indexed.same_length in
    rw same refl

-- An operation that makes the view `v`.
pub record Makes (inner : ClientMapInner) (v : ℕ → Option ClientRecord) (size : ℕ)
    (inner' : ClientMapInner) : Type 0 where
  pub well : IsClientMap inner'
  pub views : (x : ℕ) → view inner' x ≡ v x
  pub size_is : length inner'.by_age ≡ size
  pub queues : inner'.next_queue ≡ inner.next_queue

-- A client map is made of a sifted one.
Makes-IsSifted :
    (n : ℕ) (inner before inner' : ClientMapInner) (v : ℕ → Option ClientRecord)
    → length before.by_age ≡ n
    → ((x : ℕ) → view before x ≡ v x)
    → before.next_queue ≡ inner.next_queue
    → IsSifted n before inner'
    → Makes inner v n inner'
Makes-IsSifted n inner before inner' v size views queues sifted = record {
  well = record {
    indexed = sifted.indexed;
    heap = subst (λ k. IsHeap k inner'.by_age) (sym (sifted.same.sizes ∙ size)) sifted.heap;
  };
  views = λ x. sifted.same.views x ∙ views x;
  size_is = sifted.same.sizes ∙ size;
  queues = sifted.same.queues ∙ queues;
}

module _ (inner : ClientMapInner) (well : IsClientMap inner) where
  pushed-IsUp :
      (r : ClientRecord)
      → IsUp (length inner.by_age + 1) (length inner.by_age) (inner.by_age ++ (r ∷ []))
  pushed-IsUp r = record {
    inside = omega arith;
    edges = λ c p q e.
        let here = ap age_of (get_elem?-append_lt inner.by_age (r ∷ []) c (omega arith)) in
        let above =
          ap age_of (get_elem?-append_lt inner.by_age (r ∷ []) (parent c) (omega arith)) in
        omega (arith, well.heap c p (omega arith), here, above);
    across = λ c p q e f. absurd (omega arith);
  }

  -- heap.Push of a client that is not there.
  pub heap_push-Makes :
      (r : ClientRecord)
      → lookup r.addr inner.by_addr ≡ none
      → Returns
          (Makes inner
            (λ x. if x == r.addr then some r else view inner x)
            (length inner.by_age + 1))
          (heap_push r inner)
  unfolding heap_push push
  heap_push-Makes r new =
      let indexed = pushed-IsIndexed inner r well.indexed new in
      let size : length (pushed inner r).by_age ≡ length inner.by_age + 1 =
        omega (arith, length-append inner.by_age (r ∷ [])) in
      let last : length (pushed inner r).by_age - 1 ≡ length inner.by_age = omega arith in
      rw (new, len-length (pushed inner r) indexed, last)
        (Returns-map (up (length inner.by_age) (pushed inner r))
          (up-IsSifted (length inner.by_age + 1) (length inner.by_age) (pushed inner r) indexed size
            (pushed-IsUp r))
          (λ inner'.
            Makes-IsSifted (length inner.by_age + 1) inner (pushed inner r) inner' _ size
              (view-pushed inner r well.indexed new) refl))

  -- heap.Fix of a record whose time has changed.
  pub heap_fix-Makes :
      (i : ℕ) (r r' : ClientRecord)
      → get_elem? inner.by_age i ≡ some r
      → r'.addr ≡ r.addr
      → Returns
          (Makes inner (λ x. if x == r.addr then some r' else view inner x) (length inner.by_age))
          (heap_fix i (replaced inner i r'))
  unfolding heap_fix
  heap_fix-Makes i r r' at_i same =
      let after = replaced inner i r' in
      let n = length inner.by_age in
      let indexed = replaced-IsIndexed inner i r r' well.indexed at_i same in
      let size = length-set inner.by_age i r' in
      let inside = get_elem?-lt-length inner.by_age i r at_i in
      let but = IsHeapBut-set n i inner.by_age r' well.heap in
      let up_i : IsBelow n i after.by_age → IsUp n i after.by_age = λ below. record {
        inside = inside;
        edges = λ c p q e. elim (ℕ-cases (parent c) i) [
          | inl f ↦ rw f (below c p q f)
          | inr f ↦ but.edges c p q e f
        ];
        across = but.across;
      } in
      let makes = λ (inner' : ClientMapInner).
        Makes-IsSifted n inner after inner' _ size
          (view-replaced inner i r r' well.indexed at_i same) refl in
      rw (len-length after indexed, size)
        (Returns-bind (down i n after) _ (down-Fixes n i after indexed inside (omega arith) but)
          (λ (moved, inner') q. elim q [
            | inr (e, sifted) ↦ rw e (returns (makes inner' sifted))
            | inl (e, is, below) ↦
                rw (e, is)
                  (Returns-map (up i after) (up-IsSifted n i after indexed size (up_i below)) makes)
          ]))

-- NewClientMap's inner map
abbrev pub no_clients : ClientMapInner
no_clients = record { by_age = []; by_addr = []; next_queue = 0 }

pub no_clients-IsClientMap : IsClientMap no_clients
unfolding lookup
no_clients-IsClientMap = record {
  indexed = record {
    to_index = λ i r h. absurd (none≢some h);
    to_record = λ a i h. absurd (none≢some h);
    same_length = refl;
    unique = tt;
  };
  heap = λ c p q. absurd (omega arith);
}
