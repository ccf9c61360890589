-- ===== src/Dpi/Dns/Cache.antt =====
-- How long the resolver keeps an address, and what it returns meanwhile.
use ptbridge.Base.{
  ℕ, ◌+◌, ◌*◌, ◌==◌, ◌≤◌, ◌<◌, ◌≡◌, refl, sym, ap, min, none≢some, ◌∙◌, List, [], ◌∷◌, ◌++◌, Option,
  some, none, false, ◌||◌, ok, ltb, if◌then◌else◌, =ˢ_refl, arith, All,
}
use ptbridge.Dpi.Dns.{
  Entry, find, lookup_entry, cache_lookup, second, cache_ttl, cache_store, Answer, ttl_of,
  min_ttl_loop, min_ttl_seconds, first_a, resolve_reply, resolve_miss, resolve_lookup, resolve,
}

-- An entry is kept for a second at least and five minutes at most.
pub cache_ttl_bounds : (s : ℕ) → (second ≤ cache_ttl s) × (cache_ttl s ≤ 300 * second)
unfolding cache_ttl
cache_ttl_bounds s = ground arith

find-cache_store :
    (now : ℕ) (name ip : List ℕ) (ttl : ℕ) (cache : List (List ℕ × Entry))
    → find name (cache_store now name ip ttl cache)
      ≡ some (record { ip = ip; expires = now + cache_ttl ttl })
unfolding find cache_store
find-cache_store now name ip ttl cache = rw (=ˢ_refl name) refl

resolve_lookup-miss :
    (later : ℕ) (name ip : List ℕ) (answers : List Answer) (l : Option (List ℕ))
    (c : List (List ℕ × Entry))
    → l ≡ none
    → first_a answers ≡ some ip
    → resolve_lookup later name (some answers) (l, c)
      ≡ (ok ip, cache_store later name ip (min_ttl_seconds answers 60) c)
unfolding resolve_lookup resolve_miss resolve_reply
resolve_lookup-miss later name ip answers none c h found = rw found refl
resolve_lookup-miss later name ip answers (some j) c h found = absurd (none≢some (sym h))

-- A name that is not in the cache, and whose reply has an A record, is resolved to the first one; until the time to
-- live that was stored has passed, any later Resolve of the name gives the same address, whatever a new reply
-- would say, and leaves the cache as it is.
pub resolve-resolve :
    (now later now2 later2 : ℕ) (name ip : List ℕ) (answers : List Answer)
    (reply2 : Option (List Answer)) (cache : List (List ℕ × Entry))
    → (cache_lookup now name cache).0 ≡ none
    → first_a answers ≡ some ip
    → now2 ≤ later + cache_ttl (min_ttl_seconds answers 60)
    → let after = resolve now later name (some answers) cache in
      (after.0 ≡ ok ip) × (resolve now2 later2 name reply2 after.1 ≡ (ok ip, after.1))
unfolding resolve
resolve-resolve now later now2 later2 name ip answers reply2 cache miss found fresh =
    let before = cache_lookup now name cache in
    let stored = cache_store later name ip (min_ttl_seconds answers 60) before.1 in
    let first = resolve_lookup-miss later name ip answers before.0 before.1 miss found in
    let alive : ltb (later + cache_ttl (min_ttl_seconds answers 60)) now2 ≡ false = ground arith in
    let hit : cache_lookup now2 name stored ≡ (some ip, stored) =
      unfold cache_lookup lookup_entry in
      rw (find-cache_store later name ip (min_ttl_seconds answers 60) before.1, alive) refl in
    let returns : resolve_lookup later2 name reply2 (some ip, stored) ≡ (ok ip, stored) =
      unfold resolve_lookup in refl in
    (
      ap (λ r. r.0) first,
      ap (λ r. resolve_lookup later2 name reply2 (cache_lookup now2 name r.1)) first
          ∙ ap (resolve_lookup later2 name reply2) hit
          ∙ returns
          ∙ ap (λ r. (ok ip, r.1)) (sym first),
    )

min_ttl_loop-append :
    (t : ℕ) (before after : List Answer)
    → min_ttl_loop t (before ++ after) ≡ min_ttl_loop (min_ttl_loop t before) after
unfolding min_ttl_loop
min_ttl_loop-append t [] after = refl
min_ttl_loop-append t (a ∷ before) after =
    min_ttl_loop-append (if t == 0 || ltb (ttl_of a) t then ttl_of a else t) before after

min_ttl_loop-zero :
    (t : ℕ) (a : Answer) (after : List Answer)
    → ttl_of a ≡ 0
    → min_ttl_loop t (a ∷ after) ≡ min_ttl_loop 0 after
unfolding min_ttl_loop
min_ttl_loop-zero t a after h =
    let reset : (if t == 0 || ltb (ttl_of a) t then ttl_of a else t) ≡ 0 = ground arith in
    ap (λ u. min_ttl_loop u after) reset

-- An answer with a TTL of 0 makes minTTLSeconds forget it and all answers before it.
pub min_ttl_seconds-zero :
    (before : List Answer) (a : Answer) (after : List Answer) (fallback : ℕ)
    → ttl_of a ≡ 0
    → min_ttl_seconds (before ++ (a ∷ after)) fallback ≡ min_ttl_seconds after fallback
unfolding min_ttl_seconds
min_ttl_seconds-zero before a after fallback h =
    let same : min_ttl_loop 0 (before ++ (a ∷ after)) ≡ min_ttl_loop 0 after =
      min_ttl_loop-append 0 before (a ∷ after)
      ∙ min_ttl_loop-zero (min_ttl_loop 0 before) a after h in
    ap (λ t. if t == 0 then fallback else t) same

abbrev pub least_ttl : ℕ → List Answer → ℕ
least_ttl t [] = t
least_ttl t (a ∷ answers) = least_ttl (min t (ttl_of a)) answers

min_ttl_loop-least_ttl :
    (t : ℕ) (answers : List Answer)
    → 0 < t
    → All (λ a. 0 < ttl_of a) answers
    → (min_ttl_loop t answers ≡ least_ttl t answers) × (0 < least_ttl t answers)
unfolding min_ttl_loop
min_ttl_loop-least_ttl t [] h hs = (refl, h)
min_ttl_loop-least_ttl t (a ∷ answers) h hs =
    let low = hs.0 in
    let same : (if t == 0 || ltb (ttl_of a) t then ttl_of a else t) ≡ min t (ttl_of a) =
      ground arith in
    let rest = min_ttl_loop-least_ttl (min t (ttl_of a)) answers (omega arith) hs.1 in
    (ap (λ u. min_ttl_loop u answers) same ∙ rest.0, rest.1)

-- Where there is an answer and no TTL is 0, minTTLSeconds is the least TTL of the answers.
pub min_ttl_seconds-least_ttl :
    (a : Answer) (answers : List Answer) (fallback : ℕ)
    → 0 < ttl_of a
    → All (λ b. 0 < ttl_of b) answers
    → min_ttl_seconds (a ∷ answers) fallback ≡ least_ttl (ttl_of a) answers
unfolding min_ttl_seconds
min_ttl_seconds-least_ttl a answers fallback h hs =
    let (same, low) = min_ttl_loop-least_ttl (ttl_of a) answers h hs in
    let one : min_ttl_loop 0 (a ∷ answers) ≡ min_ttl_loop (ttl_of a) answers =
      unfold min_ttl_loop in refl in
    let start : min_ttl_loop 0 (a ∷ answers) ≡ least_ttl (ttl_of a) answers = one ∙ same in
    let more : (least_ttl (ttl_of a) answers == 0) ≡ false = ground arith in
    ap (λ t. if t == 0 then fallback else t) start ∙ rw more refl
