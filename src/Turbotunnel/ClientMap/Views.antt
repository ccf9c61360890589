-- ===== src/Turbotunnel/ClientMap/Views.antt =====
-- The map from addresses to records that the heap and its index stand for, and what each operation does to it.
use ptbridge.Base.{
  ℕ, ◌≡◌, refl, sym, ap, ◌∙◌, ◌≢◌, ◌⊎◌, inl, inr, true, false, Option, none, some, List, [], ◌∷◌,
  ◌++◌, arith, ◌==◌, if◌then◌else◌, ℕ-cases, Option-cases, none≢some, length, get_elem?, set,
  length-append, lookup, insert, get_elem?-append, get_elem?-last, lookup-insert_if, insert-IsMap,
  length-insert-none, length-set, get_elem?-snoc,
}
use ptbridge.Turbotunnel.ClientMap.{ClientRecord, ClientMapInner}
use ptbridge.Turbotunnel.ClientMap.Index.{
  IsIndexed, swapped, lookup-swapped, at_swapped, swapped-IsIndexed,
}

abbrev pub record_at : List ClientRecord → Option ℕ → Option ClientRecord
record_at rs none = none
record_at rs (some i) = get_elem? rs i

-- The record of an address.
abbrev pub view : ClientMapInner → ℕ → Option ClientRecord
view inner x = record_at inner.by_age (lookup x inner.by_addr)

-- The same clients, whatever their order.
pub record IsSame (inner inner' : ClientMapInner) : Type 0 where
  pub views : (x : ℕ) → view inner' x ≡ view inner x
  pub sizes : length inner'.by_age ≡ length inner.by_age
  pub queues : inner'.next_queue ≡ inner.next_queue

pub IsSame-refl : (inner : ClientMapInner) → IsSame inner inner
IsSame-refl inner = record { views = λ x. refl; sizes = refl; queues = refl }

pub IsSame-trans : (p q r : ClientMapInner) → IsSame p q → IsSame q r → IsSame p r
IsSame-trans p q r one two = record {
  views = λ x. two.views x ∙ one.views x;
  sizes = two.sizes ∙ one.sizes;
  queues = two.queues ∙ one.queues;
}

pub view-some :
    (inner : ClientMapInner) (k x : ℕ) (r : ClientRecord)
    → IsIndexed inner
    → get_elem? inner.by_age k ≡ some r
    → r.addr ≡ x
    → view inner x ≡ some r
view-some inner k x r indexed h same =
    ap (record_at inner.by_age)
      (ap (λ y. lookup y inner.by_addr) (sym same) ∙ indexed.to_index k r h)
    ∙ h

-- Maps that have the same records, at any places, and no others have the same views.
pub IsSame-views :
    (p q : ClientMapInner) (x : ℕ)
    → IsIndexed p
    → IsIndexed q
    → (lookup x p.by_addr ≡ none → lookup x q.by_addr ≡ none)
    → ((k : ℕ) (r : ClientRecord)
        → get_elem? p.by_age k ≡ some r
        → (l : ℕ) × (get_elem? q.by_age l ≡ some r))
    → view q x ≡ view p x
IsSame-views p q x hp hq gone moved = elim (Option-cases (lookup x p.by_addr)) [
  | inl e ↦ ap (record_at q.by_age) (gone e) ∙ sym (ap (record_at p.by_age) e)
  | inr (k, e) ↦
      let (r, at, same) = hp.to_record x k e in
      let (l, at') = moved k r at in
      view-some q l x r hq at' same ∙ sym (view-some p k x r hp at same)
]

pub swapped-IsSame :
    (inner : ClientMapInner) (i j : ℕ) (a b : ClientRecord)
    → IsIndexed inner
    → get_elem? inner.by_age i ≡ some a
    → get_elem? inner.by_age j ≡ some b
    → IsSame inner (swapped inner i j a b)
swapped-IsSame inner i j a b indexed ha hb = record {
  views = λ x.
      IsSame-views inner (swapped inner i j a b) x indexed
        (swapped-IsIndexed inner i j a b indexed ha hb) (gone x) moved;
  sizes = length-set (set inner.by_age i b) j a ∙ length-set inner.by_age i b;
  queues = refl;
}
  where
    gone : (x : ℕ) → lookup x inner.by_addr ≡ none → lookup x (swapped inner i j a b).by_addr ≡ none
    gone x e =
        let not_a : x ≢ a.addr =
          λ s. none≢some (sym e ∙ ap (λ y. lookup y inner.by_addr) s ∙ indexed.to_index i a ha) in
        let not_b : x ≢ b.addr =
          λ s. none≢some (sym e ∙ ap (λ y. lookup y inner.by_addr) s ∙ indexed.to_index j b hb) in
        ground (arith, lookup-swapped inner i j a b x)

    moved :
        (k : ℕ) (r : ClientRecord)
        → get_elem? inner.by_age k ≡ some r
        → (l : ℕ) × (get_elem? (swapped inner i j a b).by_age l ≡ some r)
    moved k r h = elim (ℕ-cases k i) [
      | inl e ↦ (j, ground (arith, at_swapped inner i j a b indexed ha hb j))
      | inr e ↦ elim (ℕ-cases k j) [
        | inl f ↦ (i, ground (arith, at_swapped inner i j a b indexed ha hb i))
        | inr f ↦ (k, ground (arith, at_swapped inner i j a b indexed ha hb k))
      ]
    ]

-- Push behind the last record.
abbrev pub pushed : ClientMapInner → ClientRecord → ClientMapInner
pushed inner r = record inner {
  by_age = inner.by_age ++ (r ∷ []);
  by_addr = insert r.addr (length inner.by_age) inner.by_addr;
}

module _ (inner : ClientMapInner) (r : ClientRecord) (indexed : IsIndexed inner)
    (new : lookup r.addr inner.by_addr ≡ none) where
  -- a place of the longer list is a place of the list or the last one
  at_pushed :
      (k : ℕ) (q : ClientRecord)
      → get_elem? (inner.by_age ++ (r ∷ [])) k ≡ some q
      → (get_elem? inner.by_age k ≡ some q) ⊎ ((k ≡ length inner.by_age) × (q ≡ r))
  at_pushed k q h = get_elem?-snoc inner.by_age r k q h

  old-addr : (x k : ℕ) → lookup x inner.by_addr ≡ some k → x ≢ r.addr
  old-addr x k h same = none≢some (sym new ∙ ap (λ y. lookup y inner.by_addr) (sym same) ∙ h)

  lookup-pushed :
      (x : ℕ)
      → lookup x (pushed inner r).by_addr
        ≡ (if x == r.addr then some (length inner.by_age) else lookup x inner.by_addr)
  lookup-pushed x = lookup-insert_if r.addr x (length inner.by_age) inner.by_addr

  pushed-to_record :
      (x k : ℕ)
      → lookup x (pushed inner r).by_addr ≡ some k
      → (q : ClientRecord) × (get_elem? (inner.by_age ++ (r ∷ [])) k ≡ some q) × (q.addr ≡ x)
  pushed-to_record x k h = elim (ℕ-cases x r.addr) [
    | inl e ↦
        let last : k ≡ length inner.by_age = ground (arith, lookup-pushed x) in
        (r, ap (get_elem? (inner.by_age ++ (r ∷ []))) last ∙ get_elem?-last inner.by_age r, sym e)
    | inr e ↦
        let old : lookup x inner.by_addr ≡ some k = ground (arith, lookup-pushed x) in
        let (q, at, same) = indexed.to_record x k old in
        (q, get_elem?-append inner.by_age (r ∷ []) k q at, same)
  ]

  pub pushed-IsIndexed : IsIndexed (pushed inner r)
  pushed-IsIndexed = record {
    to_index = λ k q h. lookup-pushed q.addr ∙ (elim (at_pushed k q h) [
      | inl old ↦
          ground (arith, old-addr q.addr k (indexed.to_index k q old), indexed.to_index k q old)
      | inr (last, same) ↦ ground arith
    ]);
    to_record = pushed-to_record;
    same_length = omega (
      arith,
      length-append inner.by_age (r ∷ []),
      indexed.same_length,
      length-insert-none r.addr (length inner.by_age) inner.by_addr new,
    );
    unique = insert-IsMap r.addr (length inner.by_age) inner.by_addr indexed.unique;
  }

  -- The new record is seen under its address, and the others as before.
  pub view-pushed :
      (x : ℕ) → view (pushed inner r) x ≡ (if x == r.addr then some r else view inner x)
  view-pushed x = elim (ℕ-cases x r.addr) [
    | inl e ↦
        let test : (x == r.addr) ≡ true = ground arith in
        rw test (
          view-some (pushed inner r) (length inner.by_age) x r pushed-IsIndexed
            (get_elem?-last inner.by_age r) (sym e))
    | inr e ↦
        let test : (x == r.addr) ≡ false = ground arith in
        let same : lookup x (pushed inner r).by_addr ≡ lookup x inner.by_addr =
          rw test at (lookup-pushed x) in
        rw test (elim (Option-cases (lookup x inner.by_addr)) [
          | inl missing ↦ rw (same, missing) refl
          | inr (k, found) ↦
              let (q, at, own) = indexed.to_record x k found in
              view-some (pushed inner r) k x q pushed-IsIndexed
                (get_elem?-append inner.by_age (r ∷ []) k q at) own
              ∙ sym (view-some inner k x q indexed at own)
        ])
  ]
