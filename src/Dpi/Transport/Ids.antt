-- ===== src/Dpi/Transport/Ids.antt =====
-- The connection ids that a transport gives out.
use ptbridge.Base.{ℕ, zero, suc, ◌+◌, ◌-◌, ◌%◌, ◌^◌, ◌≤◌, ◌<◌, ◌≡◌, ◌==◌, ◌∙◌, if◌then◌else◌, arith}
use ptbridge.Dpi.Transport.{Transport, next_conn_id}

-- The transport after `k` calls.
unfoldable pub after_calls : ℕ → Transport → Transport
after_calls zero t = t
after_calls (suc k) t = after_calls k (next_conn_id t).1

-- From a counter of `g`, at least 1, call number `k` gives 1 + (g - 1 + k) % (2 ^ 32 - 1): the ids count up from `g`,
-- and 2 ^ 32 - 1 is followed by 1, never by 0.
pub next_conn_id-after_calls :
    (k : ℕ) (t : Transport)
    → 1 ≤ t.conn_id_gen
    → t.conn_id_gen < 2 ^ 32
    → (next_conn_id (after_calls k t)).0 ≡ 1 + (t.conn_id_gen - 1 + k) % (2 ^ 32 - 1)
unfolding after_calls next_conn_id
next_conn_id-after_calls zero t low high = omega arith
next_conn_id-after_calls (suc k) t low high =
    let g = t.conn_id_gen in
    let gen = if (g + 1) % 2 ^ 32 == 0 then 1 else (g + 1) % 2 ^ 32 in
    let range : (1 ≤ gen) × (gen < 2 ^ 32) × ((gen - 1) ≡ g % (2 ^ 32 - 1)) = ground arith in
    next_conn_id-after_calls k (record t { conn_id_gen = gen }) range.0 range.1
    ∙ omega (arith, range.2)
