-- ===== src/Dpi/Tunnel.antt =====
-- tunnelConn of dpi/client/proxy.go: the bytes that Read hands out, and the batches of pumpWrite.
pub mod Reads
pub mod Sends
pub mod Batches
pub mod ReadPump
pub mod Streams
mod Tests
use ptbridge.Base.{
  ℕ, ◌+◌, ◌*◌, ◌==◌, List, [], ◌∷◌, ◌++◌, length, take, drop, Bool, true, false, Result, ok, err,
  panic, out_of_fuel, IoError, eof, leb, ltb, if◌then◌else◌,
}

-- The reading side: the rest of a chunk, the chunks in the channel, and whether the channel is closed.
pub record Incoming : Type 0 where
  pub read_buf : List ℕ
  pub read_ch : List (List ℕ)
  pub closed : Bool

unfoldable pub read_chunk : ℕ → List (List ℕ) → Bool → Result IoError (List ℕ × Incoming)
read_chunk n [] true = err eof
read_chunk n [] false = out_of_fuel
read_chunk n (chunk ∷ chunks) closed =
    let got = take n chunk in
    ok (
      got,
      record {
        read_buf = if ltb (length got) (length chunk) then drop (length got) chunk else [];
        read_ch = chunks;
        closed = closed;
      },
    )

-- tunnelConn.Read into a buffer of `n` bytes; `out_of_fuel` is a Read that waits for a chunk.
unfoldable pub read : ℕ → Incoming → Result IoError (List ℕ × Incoming)
read n c =
    let got = take n c.read_buf in
    if ltb 0 (length c.read_buf)
    then ok (got, record c { read_buf = drop (length got) c.read_buf })
    else read_chunk n c.read_ch c.closed

-- The flush timer: none, one that will fire, or one that has fired and is still held.
pub data Timer : Type 0 where
  unset armed spent : Timer

-- What the select of pumpWrite takes: a request with the number of its acknowledgement, the timer, or the end.
pub data Event : Type 0 where
  request : List ℕ → ℕ → Event
  timer_fired close_ch : Event

-- The writing side. `attempts` are the arguments of SendData, and `acked` the acknowledgements and whether
-- each is a success, both in order.
pub record Pump : Type 0 where
  pub batch : List ℕ
  pub acks : List ℕ
  pub timer : Timer
  pub attempts : List (List ℕ)
  pub acked : List (ℕ × Bool)
  pub running : Bool

abbrev pub max_batch_bytes : ℕ
max_batch_bytes = 64 * 1024

abbrev pub idle : Pump
idle = record { batch = []; acks = []; timer = unset; attempts = []; acked = []; running = true }

unfoldable pub answer_all : Bool → List ℕ → List (ℕ × Bool)
answer_all success [] = []
answer_all success (a ∷ acks) = (a, success) ∷ answer_all success acks

unfoldable pub flush : Bool → Pump → Pump
flush success p = record p {
  batch = [];
  acks = [];
  timer = unset;
  acked = p.acked ++ answer_all success p.acks;
}

-- sendBatch, when SendData succeeds or not; a failure ends the loop.
unfoldable pub send_batch : Bool → Pump → Pump
send_batch success p =
    let tried = record p { attempts = p.attempts ++ (p.batch ∷ []) } in
    if length p.batch == 0
    then p
    else if success
    then flush true tried
    else record (flush false tried) { running = false }

abbrev pub start_timer : Timer → Timer
start_timer unset = armed
start_timer armed = armed
start_timer spent = spent

-- Only an armed timer fires.
unfoldable pub fire : Timer → Bool → Pump → Pump
fire unset success p = p
fire armed success p = send_batch success (record p { timer = spent })
fire spent success p = p

-- One round of the loop. `success` is what SendData would give.
unfoldable pub pump_step : Event → Bool → Pump → Pump
pump_step (request chunk ack) success p =
    let added = record p { batch = p.batch ++ chunk; acks = p.acks ++ (ack ∷ []) } in
    if leb max_batch_bytes (length added.batch)
    then send_batch success added
    else record added { timer = start_timer p.timer }
pump_step timer_fired success p = fire p.timer success p
pump_step close_ch success p =
    let last = if ltb 0 (length p.batch) then send_batch success p else p in
    record last { running = false }

unfoldable pub pump_run : List (Event × Bool) → Pump → Pump
pump_run [] p = p
pump_run ((e, success) ∷ events) p =
    let rest = pump_run events (pump_step e success p) in if p.running then rest else p
