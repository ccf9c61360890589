-- ===== src/Turbotunnel/ClientMap/Index.antt =====
-- The index by address agrees with the heap, through Swap, Push and Pop.
use ptbridge.Base.{
  ℕ, ◌≡◌, refl, sym, ap, ◌∙◌, ◌≢◌, inl, inr, some, arith, ◌==◌, if◌then◌else◌, ℕ-cases,
  some-injective, length, get_elem?, set, ok, lookup, insert, lookup-insert_if, IsMap, insert-IsMap,
  length-insert-some, length-set, get_elem?-swap,
}
use ptbridge.Turbotunnel.ClientMap.{ClientRecord, ClientMapInner, swap}

pub record IsIndexed (inner : ClientMapInner) : Type 0 where
  pub to_index :
      (i : ℕ) (r : ClientRecord)
      → get_elem? inner.by_age i ≡ some r
      → lookup r.addr inner.by_addr ≡ some i
  pub to_record :
      (a i : ℕ)
      → lookup a inner.by_addr ≡ some i
      → (r : ClientRecord) × (get_elem? inner.by_age i ≡ some r) × (r.addr ≡ a)
  pub same_length : length inner.by_age ≡ length inner.by_addr
  pub unique : IsMap inner.by_addr

-- Two records at different places have different addresses.
pub apart :
    (inner : ClientMapInner) (k l : ℕ) (r q : ClientRecord)
    → IsIndexed inner
    → get_elem? inner.by_age k ≡ some r
    → get_elem? inner.by_age l ≡ some q
    → k ≢ l
    → r.addr ≢ q.addr
apart inner k l r q indexed hk hl ne same = ne (
    some-injective (
      sym (indexed.to_index k r hk)
      ∙ ap (λ x. lookup x inner.by_addr) same
      ∙ indexed.to_index l q hl))

module _ (inner : ClientMapInner) (i j : ℕ) (a b : ClientRecord) where
  abbrev pub swapped : ClientMapInner
  swapped = record inner {
    by_age = set (set inner.by_age i b) j a;
    by_addr = insert a.addr j (insert b.addr i inner.by_addr);
  }

  pub swap-swapped :
      get_elem? inner.by_age i ≡ some a
      → get_elem? inner.by_age j ≡ some b
      → swap i j inner ≡ ok swapped
  unfolding swap
  swap-swapped ha hb = rw (ha, hb) refl

  pub lookup-swapped :
      (x : ℕ)
      → lookup x swapped.by_addr
        ≡ (if x == a.addr then some j else if x == b.addr then some i else lookup x inner.by_addr)
  lookup-swapped x =
      lookup-insert_if a.addr x j (insert b.addr i inner.by_addr)
      ∙ ap (λ o. if x == a.addr then some j else o) (lookup-insert_if b.addr x i inner.by_addr)

  module _ (indexed : IsIndexed inner) (ha : get_elem? inner.by_age i ≡ some a)
      (hb : get_elem? inner.by_age j ≡ some b) where
    pub at_swapped :
        (k : ℕ)
        → get_elem? swapped.by_age k
          ≡ (if k == j then some a else if k == i then some b else get_elem? inner.by_age k)
    at_swapped k = get_elem?-swap inner.by_age i j k a b ha hb

    swapped-to_index :
        (k : ℕ) (r : ClientRecord)
        → get_elem? swapped.by_age k ≡ some r
        → lookup r.addr swapped.by_addr ≡ some k
    swapped-to_index k r h = lookup-swapped r.addr ∙ place k r (sym (at_swapped k) ∙ h)
      where
        place :
            (k : ℕ) (r : ClientRecord)
            → (if k == j then some a else if k == i then some b else get_elem? inner.by_age k)
              ≡ some r
            → (if r.addr == a.addr
                then some j
                else if r.addr == b.addr
                then some i
                else lookup r.addr inner.by_addr)
              ≡ some k
        place k r e = ground (
          arith,
          apart inner i j a b indexed ha hb,
          indexed.to_index k r,
          apart inner k i r a indexed,
          apart inner k j r b indexed,
        )

    swapped-to_record :
        (x k : ℕ)
        → lookup x swapped.by_addr ≡ some k
        → (r : ClientRecord) × (get_elem? swapped.by_age k ≡ some r) × (r.addr ≡ x)
    swapped-to_record x k h =
        let (r, e, f) = place (sym (lookup-swapped x) ∙ h) in (r, at_swapped k ∙ e, f)
      where
        place :
            (if x == a.addr then some j else if x == b.addr then some i else lookup x inner.by_addr)
              ≡ some k
            → (r : ClientRecord) × ((if k == j
                  then some a
                  else if k == i
                  then some b
                  else get_elem? inner.by_age k)
                ≡ some r)
              × (r.addr ≡ x)
        place e = elim (ℕ-cases x a.addr) [
          | inl p ↦ (a, ground arith, sym p)
          | inr p ↦ elim (ℕ-cases x b.addr) [
            | inl q ↦ (b, ground (arith, apart inner i j a b indexed ha hb), sym q)
            | inr q ↦
                let old : lookup x inner.by_addr ≡ some k = ground arith in
                let (r, at, same) = indexed.to_record x k old in
                (
                  r,
                  ground
                      (arith, apart inner k i r a indexed at ha, apart inner k j r b indexed at hb),
                  same,
                )
          ]
        ]

    sizes : length swapped.by_age ≡ length swapped.by_addr
    sizes =
        let m = insert b.addr i inner.by_addr in
        let one =
          length-insert-some b.addr i j inner.by_addr indexed.unique (indexed.to_index j b hb) in
        let known : lookup a.addr m ≡ some i =
          ground (arith, lookup-insert_if b.addr a.addr i inner.by_addr, indexed.to_index i a ha) in
        let two =
          length-insert-some a.addr j i m (insert-IsMap b.addr i inner.by_addr indexed.unique)
            known in
        omega (
          arith,
          one,
          two,
          indexed.same_length,
          length-set (set inner.by_age i b) j a,
          length-set inner.by_age i b,
        )

    pub swapped-IsIndexed : IsIndexed swapped
    swapped-IsIndexed = record {
      to_index = swapped-to_index;
      to_record = swapped-to_record;
      same_length = sizes;
      unique =
          insert-IsMap a.addr j (insert b.addr i inner.by_addr)
            (insert-IsMap b.addr i inner.by_addr indexed.unique);
    }
