-- ===== src/Turbotunnel/ClientMap/Updates.antt =====
-- What taking the last record and touching one do to the map.
use ptbridge.Base.{
  ℕ, ◌+◌, ◌≡◌, refl, sym, ap, ◌∙◌, ◌≢◌, inl, inr, true, false, none, some, arith, ◌==◌,
  if◌then◌else◌, ℕ-cases, Option-cases, some-injective, none≢some, length, take, get_elem?, set,
  length-take, lookup, delete, lookup-delete, lookup-delete_other, get_elem?-set,
  get_elem?-set_other, delete-IsMap, length-delete, get_elem?-lt-length, length-set, get_elem?-take,
  get_elem?-take_lt,
}
use ptbridge.Turbotunnel.ClientMap.{ClientRecord, ClientMapInner}
use ptbridge.Turbotunnel.ClientMap.Index.{IsIndexed, apart}
use ptbridge.Turbotunnel.ClientMap.Views.{record_at, view, view-some}

-- Pop of the last record.
abbrev pub popped : ClientMapInner → ℕ → ClientRecord → ClientMapInner
popped inner n r = record inner {
  by_age = take n inner.by_age;
  by_addr = delete r.addr inner.by_addr;
}

module _ (inner : ClientMapInner) (n : ℕ) (r : ClientRecord) (indexed : IsIndexed inner)
    (size : length inner.by_age ≡ n + 1) (last : get_elem? inner.by_age n ≡ some r) where
  popped-to_record :
      (x k : ℕ)
      → lookup x (popped inner n r).by_addr ≡ some k
      → (q : ClientRecord) × (get_elem? (take n inner.by_age) k ≡ some q) × (q.addr ≡ x)
  popped-to_record x k h = elim (ℕ-cases x r.addr) [
    | inl e ↦ absurd (
        none≢some (
          sym (lookup-delete r.addr inner.by_addr)
          ∙ ap (λ y. lookup y (delete r.addr inner.by_addr)) (sym e)
          ∙ h))
    | inr e ↦
        let (q, at, own) =
          indexed.to_record x k (sym (lookup-delete_other r.addr x inner.by_addr e) ∙ h) in
        let small = get_elem?-lt-length inner.by_age k q at in
        let other : k ≢ n = λ same. e (
          sym own
          ∙ ap (λ y. y.addr) (some-injective (sym at ∙ ap (get_elem? inner.by_age) same ∙ last))) in
        (q, get_elem?-take_lt inner.by_age n k q (omega arith) at, own)
  ]

  pub popped-IsIndexed : IsIndexed (popped inner n r)
  popped-IsIndexed = record {
    to_index = λ k q h.
        let (small, at) = get_elem?-take inner.by_age n k q h in
        let ne : q.addr ≢ r.addr = apart inner k n q r indexed at last (omega arith) in
        lookup-delete_other r.addr q.addr inner.by_addr ne ∙ indexed.to_index k q at;
    to_record = popped-to_record;
    same_length = omega (
      arith,
      length-take n inner.by_age,
      indexed.same_length,
      length-delete r.addr n inner.by_addr indexed.unique (indexed.to_index n r last),
    );
    unique = delete-IsMap r.addr inner.by_addr indexed.unique;
  }

  -- The address of the record is not seen any more, and the others are as before.
  pub view-popped :
      (x : ℕ) → view (popped inner n r) x ≡ (if x == r.addr then none else view inner x)
  view-popped x = elim (ℕ-cases x r.addr) [
    | inl e ↦
        let test : (x == r.addr) ≡ true = ground arith in
        rw test (
          ap (record_at (take n inner.by_age)) (
            ap (λ y. lookup y (delete r.addr inner.by_addr)) e
            ∙ lookup-delete r.addr inner.by_addr))
    | inr e ↦
        let test : (x == r.addr) ≡ false = ground arith in
        let same : lookup x (popped inner n r).by_addr ≡ lookup x inner.by_addr =
          lookup-delete_other r.addr x inner.by_addr e in
        rw test (elim (Option-cases (lookup x inner.by_addr)) [
          | inl missing ↦ rw (same, missing) refl
          | inr (k, found) ↦
              let (q, at, own) = popped-to_record x k (same ∙ found) in
              let old = get_elem?-take inner.by_age n k q at in
              view-some (popped inner n r) k x q popped-IsIndexed at own
              ∙ sym (view-some inner k x q indexed old.1 own)
        ])
  ]

-- A record that is replaced by one of the same address.
abbrev pub replaced : ClientMapInner → ℕ → ClientRecord → ClientMapInner
replaced inner i r = record inner { by_age = set inner.by_age i r }

module _ (inner : ClientMapInner) (i : ℕ) (r r' : ClientRecord) (indexed : IsIndexed inner)
    (at_i : get_elem? inner.by_age i ≡ some r) (same : r'.addr ≡ r.addr) where
  -- a place of the list after, and the record there before
  at_replaced :
      (k : ℕ) (q : ClientRecord)
      → get_elem? (set inner.by_age i r') k ≡ some q
      → (p : ClientRecord) × (get_elem? inner.by_age k ≡ some p) × (q.addr ≡ p.addr)
  at_replaced k q h = elim (ℕ-cases k i) [
    | inl e ↦
        let is : q ≡ r' = some-injective (
          sym h
          ∙ ap (get_elem? (set inner.by_age i r')) e
          ∙ get_elem?-set inner.by_age i r' r at_i) in
        (r, ap (get_elem? inner.by_age) e ∙ at_i, ap (λ y. y.addr) is ∙ same)
    | inr e ↦ (q, sym (get_elem?-set_other inner.by_age i k r' e) ∙ h, refl)
  ]

  replaced-to_record :
      (x k : ℕ)
      → lookup x inner.by_addr ≡ some k
      → (q : ClientRecord) × (get_elem? (set inner.by_age i r') k ≡ some q) × (q.addr ≡ x)
  replaced-to_record x k h =
      let (q, at, own) = indexed.to_record x k h in
      elim (ℕ-cases k i) [
        | inl e ↦
            let is : q ≡ r = some-injective (sym at ∙ ap (get_elem? inner.by_age) e ∙ at_i) in
            (
              r',
              ap (get_elem? (set inner.by_age i r')) e ∙ get_elem?-set inner.by_age i r' r at_i,
              same ∙ ap (λ y. y.addr) (sym is) ∙ own,
            )
        | inr e ↦ (q, get_elem?-set_other inner.by_age i k r' e ∙ at, own)
      ]

  pub replaced-IsIndexed : IsIndexed (replaced inner i r')
  replaced-IsIndexed = record {
    to_index = λ k q h.
        let (p, at, own) = at_replaced k q h in
        ap (λ y. lookup y inner.by_addr) own ∙ indexed.to_index k p at;
    to_record = replaced-to_record;
    same_length = length-set inner.by_age i r' ∙ indexed.same_length;
    unique = indexed.unique;
  }

  pub view-replaced :
      (x : ℕ) → view (replaced inner i r') x ≡ (if x == r.addr then some r' else view inner x)
  view-replaced x = elim (ℕ-cases x r.addr) [
    | inl e ↦
        let test : (x == r.addr) ≡ true = ground arith in
        rw test (
          view-some (replaced inner i r') i x r' replaced-IsIndexed
            (get_elem?-set inner.by_age i r' r at_i) (same ∙ sym e))
    | inr e ↦
        let test : (x == r.addr) ≡ false = ground arith in
        rw test (elim (Option-cases (lookup x inner.by_addr)) [
          | inl missing ↦ rw missing refl
          | inr (k, found) ↦
              let (q, at, own) = indexed.to_record x k found in
              let other : k ≢ i = λ p. e (
                sym own
                ∙ ap (λ y. y.addr)
                    (some-injective (sym at ∙ ap (get_elem? inner.by_age) p ∙ at_i))) in
              rw found (get_elem?-set_other inner.by_age i k r' other)
        ])
  ]
