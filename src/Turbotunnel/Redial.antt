-- ===== src/Turbotunnel/Redial.antt =====
-- snowflake/common/turbotunnel/redialpacketconn.go: a packet connection over one transient connection after another.
-- What a transient connection, its dial and the scheduler do is any step of the relation `Step`: a transient
-- connection is one exchange, with its two goroutines, which may outlive it. Of a select, any case that is ready is
-- taken, and its default only when none is. A send on the unbuffered readErrCh or writeErrCh waits for a receiver.
pub mod Turns
pub mod Bounds
pub mod Leaks
mod Tests
use ptbridge.Base.{
  ℕ, ◌≤◌, ◌≡◌, ◌≢◌, Bool, true, false, Option, none, some, List, [], ◌∷◌, ◌++◌, if◌then◌else◌,
  length, take, Result, ok,
}
use ptbridge.Turbotunnel.PacketConn.{
  CloseError, op_read, op_write, op_close, OpError, offer, op_error, or_closed,
}

-- RedialPacketConn
pub record Redial : Type 0 where
  pub recv_queue : List (List ℕ)
  pub send_queue : List (List ℕ)
  pub closed : Bool
  pub close_err : Option CloseError

abbrev pub new_redial : Redial
new_redial = record { recv_queue = []; send_queue = []; closed = false; close_err = none }

-- closeWithError
unfoldable pub close_with_error : Option CloseError → Redial → Result OpError Redial
close_with_error e c =
    if c.closed
    then op_error op_close c.close_err
    else ok (record c { closed = true; close_err = some (or_closed e) })

-- Its effect, for a caller that drops the error.
unfoldable pub shut : Option CloseError → Redial → Redial
shut e c = if c.closed then c else record c { closed = true; close_err = some (or_closed e) }

abbrev pub read_next : Redial → ℕ → List (List ℕ) → Option (List ℕ × Redial)
read_next c size [] = none
read_next c size (buf ∷ rest) = some (take size buf, record c { recv_queue = rest })

-- ReadFrom into a buffer of `size` bytes; `none` is a call that waits.
unfoldable pub read_from : ℕ → Redial → Result OpError (Option (List ℕ × Redial))
read_from size c =
    if c.closed then op_error op_read c.close_err else ok (read_next c size c.recv_queue)

unfoldable pub write_to : List ℕ → Redial → Result OpError (ℕ × Redial)
write_to p c =
    if c.closed
    then op_error op_write c.close_err
    else ok (length p, record c { send_queue = offer p c.send_queue })

-- The places of the reading goroutine: its first select, the read of the connection, the send of the error, the end.
pub data Reader : Type 0 where
  checks reads reports ends : Reader

-- The places of the writing goroutine: its select, the write of a packet, the send of the error, the end.
pub data Writer : Type 0 where
  selects fails finishes : Writer
  writes : List ℕ → Writer

-- The exchange's own select has returned or has not.
pub data Exchange : Type 0 where
  exchange : Reader → Writer → Bool → Exchange

abbrev pub max_packet : ℕ
max_packet = 1500

-- exchange: its goroutines and its last select
pub data Turn : Redial → Exchange → Redial → Exchange → Type 0 where
  reader_closed :
      {c : Redial} {w : Writer} {o : Bool}
      → c.closed ≡ true
      → Turn c (exchange checks w o) c (exchange ends w o)
  reader_takes :
      {c : Redial} {o : Bool} → Turn c (exchange checks fails o) c (exchange ends finishes o)
  reader_sees :
      {c : Redial} {o : Bool} → Turn c (exchange checks finishes o) c (exchange ends finishes o)
  reader_goes :
      {c : Redial} {w : Writer} {o : Bool}
      → c.closed ≡ false
      → w ≢ fails
      → w ≢ finishes
      → Turn c (exchange checks w o) c (exchange reads w o)
  reader_reads :
      {c : Redial} {w : Writer} {o : Bool} (p : List ℕ)
      → length p ≤ max_packet
      → Turn c
          (exchange reads w o)
          (record c { recv_queue = offer p c.recv_queue })
          (exchange checks w o)
  reader_fails :
      {c : Redial} {w : Writer} {o : Bool} → Turn c (exchange reads w o) c (exchange reports w o)
  writer_closed :
      {c : Redial} {r : Reader} {o : Bool}
      → c.closed ≡ true
      → Turn c (exchange r selects o) c (exchange r finishes o)
  writer_takes :
      {c : Redial} {o : Bool} → Turn c (exchange reports selects o) c (exchange ends finishes o)
  writer_sees :
      {c : Redial} {o : Bool} → Turn c (exchange ends selects o) c (exchange ends finishes o)
  writer_starts :
      {c : Redial} {r : Reader} {o : Bool} (p : List ℕ) (rest : List (List ℕ))
      → c.send_queue ≡ p ∷ rest
      → Turn c (exchange r selects o) (record c { send_queue = rest }) (exchange r (writes p) o)
  writer_writes :
      {c : Redial} {r : Reader} {o : Bool} {p : List ℕ}
      → Turn c (exchange r (writes p) o) c (exchange r selects o)
  writer_fails :
      {c : Redial} {r : Reader} {o : Bool} {p : List ℕ}
      → Turn c (exchange r (writes p) o) c (exchange r fails o)
  main_takes_read :
      {c : Redial} {w : Writer} → Turn c (exchange reports w false) c (exchange ends w true)
  main_sees_read :
      {c : Redial} {w : Writer} → Turn c (exchange ends w false) c (exchange ends w true)
  main_takes_write :
      {c : Redial} {r : Reader} → Turn c (exchange r fails false) c (exchange r finishes true)
  main_sees_write :
      {c : Redial} {r : Reader} → Turn c (exchange r finishes false) c (exchange r finishes true)

-- The places of dialLoop: its select, the dial, the call of exchange, the end.
pub data Loop : Type 0 where
  looks dials exchanges stops : Loop

-- The exchanges so far, the latest one first.
pub record State : Type 0 where
  pub conn : Redial
  pub loop : Loop
  pub turns : List Exchange

abbrev pub start : State
start = record { conn = new_redial; loop = looks; turns = [] }

pub data Step : State → State → Type 0 where
  loop_closed :
      {c : Redial} {es : List Exchange}
      → c.closed ≡ true
      → Step
          (record { conn = c; loop = looks; turns = es })
          (record { conn = c; loop = stops; turns = es })
  loop_dials :
      {c : Redial} {es : List Exchange}
      → c.closed ≡ false
      → Step
          (record { conn = c; loop = looks; turns = es })
          (record { conn = c; loop = dials; turns = es })
  dial_fails :
      {c : Redial} {es : List Exchange} (e : CloseError)
      → Step
          (record { conn = c; loop = dials; turns = es })
          (record { conn = shut (some e) c; loop = stops; turns = es })
  dialed :
      {c : Redial} {es : List Exchange}
      → Step
          (record { conn = c; loop = dials; turns = es })
          (record { conn = c; loop = exchanges; turns = exchange checks selects false ∷ es })
  exchanged :
      {c : Redial} {es : List Exchange} {r : Reader} {w : Writer}
      → Step
          (record { conn = c; loop = exchanges; turns = exchange r w true ∷ es })
          (record { conn = c; loop = looks; turns = exchange r w true ∷ es })
  turned :
      {c c' : Redial} {l : Loop} {e e' : Exchange} (before after : List Exchange)
      → Turn c e c' e'
      → Step
          (record { conn = c; loop = l; turns = before ++ (e ∷ after) })
          (record { conn = c'; loop = l; turns = before ++ (e' ∷ after) })
  wrote :
      {c c' : Redial} {l : Loop} {es : List Exchange} {n : ℕ} (p : List ℕ)
      → write_to p c ≡ ok (n, c')
      → Step
          (record { conn = c; loop = l; turns = es })
          (record { conn = c'; loop = l; turns = es })
  read :
      {c c' : Redial} {l : Loop} {es : List Exchange} {p : List ℕ} (size : ℕ)
      → read_from size c ≡ ok (some (p, c'))
      → Step
          (record { conn = c; loop = l; turns = es })
          (record { conn = c'; loop = l; turns = es })
  shuts :
      {c c' : Redial} {l : Loop} {es : List Exchange} (e : Option CloseError)
      → close_with_error e c ≡ ok c'
      → Step
          (record { conn = c; loop = l; turns = es })
          (record { conn = c'; loop = l; turns = es })

pub data Steps : State → State → Type 0 where
  no_steps : {s : State} → Steps s s
  and_then : {s t u : State} → Steps s t → Step t u → Steps s u
