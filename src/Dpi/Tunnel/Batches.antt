-- ===== src/Dpi/Tunnel/Batches.antt =====
-- What pumpWrite sends, and the flush timer.
use ptbridge.Base.{
  ℕ, ◌+◌, ◌<◌, ◌≡◌, refl, sym, subst, ap, ◌∙◌, List, [], ◌∷◌, ◌++◌, append-nil, append_assoc,
  length, length-append, All, Bool, Bool-cases, true, false, leb, ltb, if◌then◌else◌, inl, inr,
  arith, ltb→lt,
}
use ptbridge.Dpi.Tunnel.{
  Timer, unset, armed, spent, Event, request, timer_fired, close_ch, Pump, idle, max_batch_bytes,
  send_batch, fire, pump_step, pump_run, start_timer,
}
use ptbridge.Dpi.Tunnel.Reads.{concat_chunks}
use ptbridge.Dpi.Tunnel.Sends.{
  IsTimed, IsPump, HasBytes, bytes_of, stream_of, answered, acks_of, ack_of, send_batch-Sent,
}

IsPump-flushed : (p : Pump) → p.batch ≡ [] → p.timer ≡ unset → IsPump p
IsPump-flushed p e f = rw (e, f) (omega arith, refl)

IsTimed-start :
    (t : Timer) (batch chunk : List ℕ)
    → IsTimed t batch
    → 0 < length chunk
    → IsTimed (start_timer t) (batch ++ chunk)
IsTimed-start unset batch chunk h some_byte = omega (arith, length-append batch chunk)
IsTimed-start armed batch chunk h some_byte = omega (arith, length-append batch chunk)
IsTimed-start spent batch chunk h some_byte = absurd h

-- A round: the bytes and the acknowledgement of its event are behind those before, and the pump stays well-formed.
abbrev pub IsRound : Event → Pump → Pump → Type 0
IsRound e p q =
    (stream_of q ≡ stream_of p ++ bytes_of e) × (acks_of q ≡ acks_of p ++ ack_of e) × IsPump q

IsRound-request :
    (chunk : List ℕ) (ack : ℕ) (success : Bool) (p : Pump)
    → IsPump p
    → 0 < length chunk
    → IsRound (request chunk ack) p (pump_step (request chunk ack) success p)
unfolding pump_step
IsRound-request chunk ack success p (below, timed) some_byte =
    elim (Bool-cases (leb max_batch_bytes (length added.batch))) [
      | inl e ↦
          let (sent, empty, off) =
            send_batch-Sent success added (omega (arith, length-append p.batch chunk)) in
          rw e (sent.0 ∙ stream, sent.1 ∙ acks, IsPump-flushed (send_batch success added) empty off)
      | inr e ↦
          rw e (stream, acks, (ground arith, IsTimed-start p.timer p.batch chunk timed some_byte))
    ]
  where
    added : Pump
    added = record p { batch = p.batch ++ chunk; acks = p.acks ++ (ack ∷ []) }

    stream : stream_of added ≡ stream_of p ++ chunk
    stream = sym (append_assoc (concat_chunks p.attempts) p.batch chunk)

    acks : acks_of added ≡ acks_of p ++ (ack ∷ [])
    acks = sym (append_assoc (answered p.acked) p.acks (ack ∷ []))

-- A batch that is sent or empty, and nothing new.
IsRound-sent :
    (success : Bool) (t : Timer) (p : Pump)
    → 0 < length p.batch
    → let q = send_batch success (record p { timer = t }) in
      (stream_of q ≡ stream_of p ++ []) × (acks_of q ≡ acks_of p ++ []) × IsPump q
IsRound-sent success t p some_byte =
    let (sent, empty, off) = send_batch-Sent success (record p { timer = t }) some_byte in
    (
      sent.0 ∙ sym (append-nil (stream_of p)),
      sent.1 ∙ sym (append-nil (acks_of p)),
      IsPump-flushed (send_batch success (record p { timer = t })) empty off,
    )

IsRound-fired :
    (t : Timer) (success : Bool) (p : Pump)
    → p.timer ≡ t
    → IsPump p
    → IsRound timer_fired p (fire t success p)
unfolding fire
IsRound-fired unset success p e valid =
    (sym (append-nil (stream_of p)), sym (append-nil (acks_of p)), valid)
IsRound-fired armed success p e (below, timed) =
    let some_byte : 0 < length p.batch = subst (λ t. IsTimed t p.batch) e timed in
    IsRound-sent success spent p some_byte
IsRound-fired spent success p e (below, timed) = absurd (subst (λ t. IsTimed t p.batch) e timed)

IsRound-closed :
    (success : Bool) (p : Pump) → IsPump p → IsRound close_ch p (pump_step close_ch success p)
unfolding pump_step
IsRound-closed success p valid = elim (Bool-cases (ltb 0 (length p.batch))) [
  | inl e ↦ rw e (IsRound-sent success p.timer p (ltb→lt 0 (length p.batch) e))
  | inr e ↦ rw e (sym (append-nil (stream_of p)), sym (append-nil (acks_of p)), valid)
]

-- A round of pumpWrite on an event that brings bytes, or on the timer or the end, whether SendData succeeds or
-- not: what was handed to SendData and the batch are those before and then the event's bytes, the acknowledgements
-- that were answered and that wait are those before and then the event's, each once and in order, the batch
-- is below 64 KiB, and the timer will fire exactly if the batch holds bytes.
pub pump_step-IsRound :
    (e : Event) (success : Bool) (p : Pump)
    → IsPump p
    → HasBytes e
    → IsRound e p (pump_step e success p)
unfolding pump_step
pump_step-IsRound (request chunk ack) success p valid some_byte =
    IsRound-request chunk ack success p valid some_byte
pump_step-IsRound timer_fired success p valid h = IsRound-fired p.timer success p refl valid
pump_step-IsRound close_ch success p valid h = IsRound-closed success p valid

-- The events that a run takes: those up to its end.
unfoldable pub taken : List (Event × Bool) → Pump → List Event
taken [] p = []
taken ((e, success) ∷ events) p =
    let rest = taken events (pump_step e success p) in if p.running then e ∷ rest else []

abbrev pub bytes_of_all : List Event → List ℕ
bytes_of_all [] = []
bytes_of_all (e ∷ es) = bytes_of e ++ bytes_of_all es

abbrev pub acks_of_all : List Event → List ℕ
acks_of_all [] = []
acks_of_all (e ∷ es) = ack_of e ++ acks_of_all es

-- A run of pumpWrite over events whose requests all bring bytes, with any results of SendData: what was handed to SendData
-- and the batch are the bytes of the requests that were taken, in order, their acknowledgements are answered or
-- wait, each once and in order, and the pump is well-formed at its end.
pub pump_run-stream :
    (events : List (Event × Bool)) (p : Pump)
    → IsPump p
    → All (λ x. HasBytes x.0) events
    → (stream_of (pump_run events p) ≡ stream_of p ++ bytes_of_all (taken events p))
      × (acks_of (pump_run events p) ≡ acks_of p ++ acks_of_all (taken events p))
      × IsPump (pump_run events p)
unfolding pump_run taken
pump_run-stream [] p valid h = (sym (append-nil (stream_of p)), sym (append-nil (acks_of p)), valid)
pump_run-stream ((e, success) ∷ events) p valid h =
    let p1 = pump_step e success p in
    elim (Bool-cases p.running) [
      | inl up ↦
          let runs = ap (λ b. if b then pump_run events p1 else p) up in
          let takes = ap (λ b. if b then e ∷ taken events p1 else []) up in
          let (stream, acks, valid') = pump_step-IsRound e success p valid h.0 in
          let (streams, all_acks, valid'') = pump_run-stream events p1 valid' h.1 in
          (
            ap stream_of runs
                ∙ streams
                ∙ ap (λ r. r ++ bytes_of_all (taken events p1)) stream
                ∙ append_assoc (stream_of p) (bytes_of e) (bytes_of_all (taken events p1))
                ∙ ap (λ t. stream_of p ++ bytes_of_all t) (sym takes),
            ap acks_of runs
                ∙ all_acks
                ∙ ap (λ r. r ++ acks_of_all (taken events p1)) acks
                ∙ append_assoc (acks_of p) (ack_of e) (acks_of_all (taken events p1))
                ∙ ap (λ t. acks_of p ++ acks_of_all t) (sym takes),
            subst IsPump (sym runs) valid'',
          )
      | inr down ↦
          let runs = ap (λ b. if b then pump_run events p1 else p) down in
          let takes = ap (λ b. if b then e ∷ taken events p1 else []) down in
          (
            ap stream_of runs
                ∙ sym (append-nil (stream_of p))
                ∙ ap (λ t. stream_of p ++ bytes_of_all t) (sym takes),
            ap acks_of runs
                ∙ sym (append-nil (acks_of p))
                ∙ ap (λ t. acks_of p ++ acks_of_all t) (sym takes),
            subst IsPump (sym runs) valid,
          )
    ]

-- Events that do not end the pump, and what they bring.
abbrev pub GoesOn : Event → Type 0
GoesOn (request chunk ack) = Unit
GoesOn timer_fired = Unit
GoesOn close_ch = ⊥

abbrev pub events_of : List (Event × Bool) → List Event
events_of [] = []
events_of ((e, success) ∷ events) = e ∷ events_of events

-- A pump that has never called SendData, and whose timer has fired and is held.
abbrev pub held : (batch acks : List ℕ) → Pump
held batch acks = record {
  batch = batch;
  acks = acks;
  timer = spent;
  attempts = [];
  acked = [];
  running = true;
}

-- Its rounds only add to the batch, as long as that is below 64 KiB.
pump_run-held :
    (events : List (Event × Bool)) (batch acks : List ℕ)
    → All (λ x. GoesOn x.0) events
    → length batch + length (bytes_of_all (events_of events)) < max_batch_bytes
    → pump_run events (held batch acks)
      ≡ held (batch ++ bytes_of_all (events_of events)) (acks ++ acks_of_all (events_of events))
unfolding pump_run pump_step fire
pump_run-held [] batch acks on small = rw (append-nil batch, append-nil acks) refl
pump_run-held ((request chunk ack, success) ∷ events) batch acks on small =
    let bytes = bytes_of_all (events_of events) in
    let total = length-append chunk bytes in
    let joined = length-append batch chunk in
    let fits : leb max_batch_bytes (length (batch ++ chunk)) ≡ false = ground arith in
    rw fits (
      pump_run-held events (batch ++ chunk) (acks ++ (ack ∷ [])) on.1 (omega arith)
      ∙ rw
          (
            append_assoc batch chunk bytes,
            append_assoc acks (ack ∷ []) (acks_of_all (events_of events)),
          )
          refl)
pump_run-held ((timer_fired, success) ∷ events) batch acks on small =
    pump_run-held events batch acks on.1 small
pump_run-held ((close_ch, success) ∷ events) batch acks on small = absurd on.0

-- A Write of no bytes, and then the timer: the timer is held and fires no more. Whatever requests and firings follow,
-- in any number and order, as long as the requests have less than 64 KiB together: SendData is never called, all their
-- bytes stay in the batch, and no request is answered, neither the empty one nor one of those.
pub pump_run-empty_write :
    (a : ℕ) (s1 s2 : Bool) (events : List (Event × Bool))
    → All (λ x. GoesOn x.0) events
    → length (bytes_of_all (events_of events)) < max_batch_bytes
    → pump_run ((request [] a, s1) ∷ (timer_fired, s2) ∷ events) idle ≡ record {
      batch = bytes_of_all (events_of events);
      acks = a ∷ acks_of_all (events_of events);
      timer = spent;
      attempts = [];
      acked = [];
      running = true;
    }
unfolding pump_run pump_step fire send_batch
pump_run-empty_write a s1 s2 events on small = pump_run-held events [] (a ∷ []) on (omega arith)
