-- ===== src/Dpi/Dns.antt =====
-- The resolver of dpi/client/dns_resolver.go: its cache, and the frames of DNS over TCP. Times are in
-- nanoseconds. The messages are a DNS library's: a reply is the list of its answers.
pub mod Cache
pub mod Frames
mod Tests
use ptbridge.Base.{
  ℕ, ◌+◌, ◌*◌, ◌^◌, ◌==◌, List, [], ◌∷◌, ◌++◌, length, Option, some, none, Bool, true, false, not,
  ◌||◌, Result, ok, err, ◌>>=◌, ◌>>◌, guard, map_err, IoError, read_full, byte_at, u16, put_u16,
  leb, ltb, if◌then◌else◌, text, ◌=ˢ◌,
}

pub record Entry : Type 0 where
  pub ip : List ℕ
  pub expires : ℕ

-- The map of the cache, by name.
unfoldable pub find : List ℕ → List (List ℕ × Entry) → Option Entry
find name [] = none
find name ((key, e) ∷ cache) = let later = find name cache in if name =ˢ key then some e else later

unfoldable pub remove : List ℕ → List (List ℕ × Entry) → List (List ℕ × Entry)
remove name [] = []
remove name ((key, e) ∷ cache) =
    let rest = remove name cache in if name =ˢ key then rest else (key, e) ∷ rest

unfoldable pub lookup_entry :
    ℕ → List ℕ → Option Entry → List (List ℕ × Entry) → Option (List ℕ) × List (List ℕ × Entry)
lookup_entry now name none cache = (none, cache)
lookup_entry now name (some e) cache =
    if ltb e.expires now then (none, remove name cache) else (some e.ip, cache)

unfoldable pub cache_lookup :
    ℕ → List ℕ → List (List ℕ × Entry) → Option (List ℕ) × List (List ℕ × Entry)
cache_lookup now name cache = lookup_entry now name (find name cache) cache

abbrev pub second : ℕ
second = 10 ^ 9

-- The duration that an entry is kept: a minute for none, five minutes at most.
unfoldable pub cache_ttl : ℕ → ℕ
cache_ttl ttl_seconds =
    let ttl = if ttl_seconds * second == 0 then 60 * second else ttl_seconds * second in
    if ltb (5 * (60 * second)) ttl then 5 * (60 * second) else ttl

unfoldable pub cache_store : ℕ → List ℕ → List ℕ → ℕ → List (List ℕ × Entry) → List (List ℕ × Entry)
cache_store now name ip ttl_seconds cache =
    (name, record { ip = ip; expires = now + cache_ttl ttl_seconds }) ∷ remove name cache

-- An answer of a reply: an A record with its address, or another, each with the TTL of its header, which
-- the DNS library never leaves nil.
pub data Answer : Type 0 where
  a_record : List ℕ → ℕ → Answer
  other_record : ℕ → Answer

abbrev pub ttl_of : Answer → ℕ
ttl_of (a_record ip ttl) = ttl
ttl_of (other_record ttl) = ttl

-- The loop of minTTLSeconds, in which 0 stands for "none yet".
unfoldable pub min_ttl_loop : ℕ → List Answer → ℕ
min_ttl_loop ttl [] = ttl
min_ttl_loop ttl (a ∷ answers) =
    min_ttl_loop (if ttl == 0 || ltb (ttl_of a) ttl then ttl_of a else ttl) answers

unfoldable pub min_ttl_seconds : List Answer → ℕ → ℕ
min_ttl_seconds answers fallback =
    let ttl = min_ttl_loop 0 answers in if ttl == 0 then fallback else ttl

pub data Error : Type 0 where
  no_a_record query_too_large empty_response : Error
  exchange_failed : Error
  io : IoError → Error

unfoldable pub first_a : List Answer → Option (List ℕ)
first_a [] = none
first_a (a_record ip ttl ∷ answers) = some ip
first_a (other_record ttl ∷ answers) = first_a answers

-- Resolve after a miss: the reply's first A record is stored and returned.
unfoldable pub resolve_reply :
    ℕ
    → List ℕ
    → List Answer
    → Option (List ℕ)
    → List (List ℕ × Entry)
    → Result Error (List ℕ) × List (List ℕ × Entry)
resolve_reply now name answers none cache = (err no_a_record, cache)
resolve_reply now name answers (some ip) cache =
    (ok ip, cache_store now name ip (min_ttl_seconds answers 60) cache)

unfoldable pub resolve_miss :
    ℕ
    → List ℕ
    → Option (List Answer)
    → List (List ℕ × Entry)
    → Result Error (List ℕ) × List (List ℕ × Entry)
resolve_miss now name none cache = (err exchange_failed, cache)
resolve_miss now name (some answers) cache = resolve_reply now name answers (first_a answers) cache

unfoldable pub resolve_lookup :
    ℕ
    → List ℕ
    → Option (List Answer)
    → Option (List ℕ) × List (List ℕ × Entry)
    → Result Error (List ℕ) × List (List ℕ × Entry)
resolve_lookup now name reply (some ip, cache) = (ok ip, cache)
resolve_lookup now name reply (none, cache) = resolve_miss now name reply cache

-- Resolve of the cache's key `name`, with what the exchange would give, or `none` for its error. The cache
-- is looked at at `now` and stored to at `later`.
unfoldable pub resolve :
    ℕ
    → ℕ
    → List ℕ
    → Option (List Answer)
    → List (List ℕ × Entry)
    → Result Error (List ℕ) × List (List ℕ × Entry)
resolve now later name reply cache = resolve_lookup later name reply (cache_lookup now name cache)

-- The frame of exchangeTCP, and the reply that it reads.
unfoldable pub tcp_frame : List ℕ → Result Error (List ℕ)
tcp_frame query = do
  guard (not (ltb 0xffff (length query))) query_too_large
  ok (put_u16 (length query) ++ query)

unfoldable pub read_tcp_reply : IoError → List ℕ → Result Error (List ℕ × List ℕ)
read_tcp_reply stop src = do
  (len_buf, rest) ← map_err io (read_full stop 2 src)
  let resp_len = u16 (byte_at len_buf 0) (byte_at len_buf 1)
  guard (not (resp_len == 0)) empty_response
  map_err io (read_full stop resp_len rest)
