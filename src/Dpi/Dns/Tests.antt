-- ===== src/Dpi/Dns/Tests.antt =====
-- The resolver at concrete inputs.
use ptbridge.Base.{◌+◌, ◌≤◌, ◌≡◌, refl, List, [], ◌∷◌, ◌++◌, some, none, ok, text, arith}
use ptbridge.Dpi.Dns.{
  Answer, a_record, other_record, first_a, find, lookup_entry, cache_lookup, cache_ttl,
  min_ttl_seconds, min_ttl_loop, resolve, second,
}
use ptbridge.Dpi.Dns.Cache.{resolve-resolve, min_ttl_seconds-zero}

abbrev answers : List Answer
answers = other_record 30 ∷ a_record (1 ∷ 2 ∷ 3 ∷ 4 ∷ []) 20 ∷ []

missing : (cache_lookup 5 (text "a") []).0 ≡ none
unfolding cache_lookup find lookup_entry
missing = refl

fresh : second ≤ 5 + cache_ttl (min_ttl_seconds answers 60)
unfolding cache_ttl min_ttl_seconds min_ttl_loop
fresh = omega arith

found : first_a answers ≡ some (1 ∷ 2 ∷ 3 ∷ 4 ∷ [])
unfolding first_a
found = refl

resolve-resolve_example :
    let after = resolve 5 5 (text "a") (some answers) [] in
    (after.0 ≡ ok (1 ∷ 2 ∷ 3 ∷ 4 ∷ []))
    × (resolve second second (text "a") none after.1 ≡ (ok (1 ∷ 2 ∷ 3 ∷ 4 ∷ []), after.1))
resolve-resolve_example =
    resolve-resolve 5 5 second second (text "a") (1 ∷ 2 ∷ 3 ∷ 4 ∷ []) answers none [] missing found
      fresh

min_ttl_seconds-zero_example :
    min_ttl_seconds ((other_record 5 ∷ []) ++ (other_record 0 ∷ other_record 7 ∷ [])) 60
    ≡ min_ttl_seconds (other_record 7 ∷ []) 60
min_ttl_seconds-zero_example =
    min_ttl_seconds-zero (other_record 5 ∷ []) (other_record 0) (other_record 7 ∷ []) 60 refl
