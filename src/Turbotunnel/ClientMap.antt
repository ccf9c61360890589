-- ===== src/Turbotunnel/ClientMap.antt =====
-- snowflake/common/turbotunnel/clientmap.go: a heap of clients by age, and the index of each by its address.
-- The functions of container/heap are Go's, over Len, Less, Swap, Push and Pop. An address is a number,
-- a time is one in nanoseconds, and a send queue is the number of its channel. An index out of range is a panic.
pub mod Index
pub mod Views
pub mod Updates
pub mod Order
pub mod Up
pub mod Down
pub mod Ops
pub mod Pops
pub mod Calls
pub mod Expiry
mod Tests
use ptbridge.Base.{
  ℕ, zero, suc, ◌+◌, ◌-◌, ◌*◌, ◌/◌, Bool, false, Option, none, some, List, [], ◌∷◌, ◌++◌, ltb, leb,
  ◌==◌, if◌then◌else◌, length, take, get_elem?, set, Result, ok, panic, out_of_fuel, ◌>>=◌, lookup,
  delete, insert,
}

pub record ClientRecord : Type 0 where
  pub addr : ℕ
  pub last_seen : ℕ
  pub send_queue : ℕ

-- clientMapInner, and the number of the next channel that is made.
pub record ClientMapInner : Type 0 where
  pub by_age : List ClientRecord
  pub by_addr : List (ℕ × ℕ)
  pub next_queue : ℕ

-- A run has no error, but may panic.
abbrev pub Run {ℓ} : Type ℓ → Type ℓ
Run A = Result ⊥ A

unfoldable pub len : ClientMapInner → Run ℕ
len inner = if length inner.by_age == length inner.by_addr then ok (length inner.by_age) else panic

abbrev pub less_by : Option ClientRecord → Option ClientRecord → Run Bool
less_by (some a) (some b) = ok (ltb a.last_seen b.last_seen)
less_by (some a) none = panic
less_by none b = panic

unfoldable pub less : ℕ → ℕ → ClientMapInner → Run Bool
less i j inner = less_by (get_elem? inner.by_age i) (get_elem? inner.by_age j)

abbrev pub swap_by :
    ℕ → ℕ → ClientMapInner → Option ClientRecord → Option ClientRecord → Run ClientMapInner
swap_by i j inner (some a) (some b) = ok (record inner {
  by_age = set (set inner.by_age i b) j a;
  by_addr = insert a.addr j (insert b.addr i inner.by_addr);
})
swap_by i j inner (some a) none = panic
swap_by i j inner none b = panic

unfoldable pub swap : ℕ → ℕ → ClientMapInner → Run ClientMapInner
swap i j inner = swap_by i j inner (get_elem? inner.by_age i) (get_elem? inner.by_age j)

abbrev pub push_by : ClientRecord → ClientMapInner → Option ℕ → Run ClientMapInner
push_by r inner (some i) = panic
push_by r inner none = ok (record inner {
  by_age = inner.by_age ++ (r ∷ []);
  by_addr = insert r.addr (length inner.by_age) inner.by_addr;
})

unfoldable pub push : ClientRecord → ClientMapInner → Run ClientMapInner
push r inner = push_by r inner (lookup r.addr inner.by_addr)

abbrev pub pop_by : ℕ → ClientMapInner → Option ClientRecord → Run ClientMapInner
pop_by n inner (some r) =
    ok (record inner { by_age = take n inner.by_age; by_addr = delete r.addr inner.by_addr })
pop_by n inner none = panic

-- Pop, without the record that it returns, which heap.Pop's caller drops.
unfoldable pub pop : ClientMapInner → Run ClientMapInner
pop inner =
    let n = length inner.by_addr in
    if n == 0 then panic else pop_by (n - 1) inner (get_elem? inner.by_age (n - 1))

-- heap.up: an index is at most halved in a round.
unfoldable pub up_loop : ℕ → ℕ → ClientMapInner → Run ClientMapInner
up_loop zero j inner = out_of_fuel
up_loop (suc fuel) j inner = do
  let i = (j - 1) / 2
  let go = do swapped ← swap i j inner; up_loop fuel i swapped
  let decide = do below ← less j i inner; if below then go else ok inner
  if i == j then ok inner else decide

unfoldable pub up : ℕ → ClientMapInner → Run ClientMapInner
up j inner = up_loop (j + 1) j inner

-- The child of `i` that heap.down looks at: the younger one of those below `n`.
unfoldable pub child : ℕ → ℕ → ClientMapInner → Run ℕ
child i n inner = do
  let second = do
    below ← less (2 * i + 1 + 1) (2 * i + 1) inner
    ok (if below then 2 * i + 1 + 1 else 2 * i + 1)
  if ltb (2 * i + 1 + 1) n then second else ok (2 * i + 1)

-- The loop of heap.down, with the index that it ends at: an index doubles in a round.
unfoldable pub down_loop : ℕ → ℕ → ℕ → ClientMapInner → Run (ℕ × ClientMapInner)
down_loop zero i n inner = out_of_fuel
down_loop (suc fuel) i n inner = do
  let go = do
    j ← child i n inner
    below ← less j i inner
    let sink = do swapped ← swap i j inner; down_loop fuel j n swapped
    if below then sink else ok (i, inner)
  if leb n (2 * i + 1) then ok (i, inner) else go

-- heap.down, and whether it moved.
unfoldable pub down : ℕ → ℕ → ClientMapInner → Run (Bool × ClientMapInner)
down i n inner = do (i', inner') ← down_loop (n + 1) i n inner; ok (ltb i i', inner')

-- heap.Push, heap.Pop and heap.Fix
unfoldable pub heap_push : ClientRecord → ClientMapInner → Run ClientMapInner
heap_push r inner = do pushed ← push r inner; n ← len pushed; up (n - 1) pushed

unfoldable pub heap_pop : ClientMapInner → Run ClientMapInner
heap_pop inner = do
  n ← len inner
  swapped ← swap 0 (n - 1) inner
  (moved, sunk) ← down 0 (n - 1) swapped
  pop sunk

unfoldable pub heap_fix : ℕ → ClientMapInner → Run ClientMapInner
heap_fix i inner = do
  n ← len inner
  (moved, sunk) ← down i n inner
  let rise = up i sunk
  if moved then ok sunk else rise

-- The test of removeExpired's loop: the oldest is not younger than `timeout`.
abbrev pub expired : ℕ → ℕ → List ClientRecord → Bool
expired now timeout [] = false
expired now timeout (r ∷ rs) = leb (r.last_seen + timeout) now

-- removeExpired; each round takes one record.
unfoldable pub remove_loop : ℕ → ℕ → ℕ → ClientMapInner → Run ClientMapInner
remove_loop zero now timeout inner = out_of_fuel
remove_loop (suc fuel) now timeout inner = do
  let rest = do popped ← heap_pop inner; remove_loop fuel now timeout popped
  if expired now timeout inner.by_age then rest else ok inner

unfoldable pub remove_expired : ℕ → ℕ → ClientMapInner → Run ClientMapInner
remove_expired now timeout inner = remove_loop (length inner.by_age + 1) now timeout inner

abbrev pub touch : ℕ → ℕ → ClientRecord → ClientMapInner → ClientMapInner
touch i now r inner = record inner { by_age = set inner.by_age i (record r { last_seen = now }) }

abbrev pub send_queue_at : ℕ → ℕ → ClientMapInner → Option ClientRecord → Run (ℕ × ClientMapInner)
send_queue_at i now inner none = panic
send_queue_at i now inner (some r) = do
  fixed ← heap_fix i (touch i now r inner)
  ok (r.send_queue, fixed)

abbrev pub send_queue_by : ℕ → ℕ → ClientMapInner → Option ℕ → Run (ℕ × ClientMapInner)
send_queue_by addr now inner (some i) = send_queue_at i now inner (get_elem? inner.by_age i)
send_queue_by addr now inner none = do
  let q = inner.next_queue
  pushed ←
      heap_push (record { addr = addr; last_seen = now; send_queue = q })
        (record inner { next_queue = q + 1 })
  ok (q, pushed)

-- SendQueue: the channel of the client, which is made if there is none.
unfoldable pub send_queue : ℕ → ℕ → ClientMapInner → Run (ℕ × ClientMapInner)
send_queue addr now inner = send_queue_by addr now inner (lookup addr inner.by_addr)
