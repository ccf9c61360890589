-- ===== src/Dpi/Tunnel/Sends.antt =====
-- What sendBatch does with a batch and its acknowledgements.
use ptbridge.Base.{
  ℕ, ◌==◌, ◌<◌, ◌≡◌, refl, sym, ap, ◌∙◌, List, [], ◌∷◌, ◌++◌, append-nil, append_assoc, length,
  Bool, true, false, arith,
}
use ptbridge.Dpi.Tunnel.{
  Timer, unset, armed, spent, Event, request, timer_fired, close_ch, Pump, max_batch_bytes,
  answer_all, flush, send_batch,
}
use ptbridge.Dpi.Tunnel.Reads.{concat_chunks}

-- Between rounds the batch is below the limit, and the timer will fire exactly if the batch holds bytes.
abbrev pub IsTimed : Timer → List ℕ → Type 0
IsTimed unset batch = batch ≡ []
IsTimed armed batch = 0 < length batch
IsTimed spent batch = ⊥

abbrev pub IsPump : Pump → Type 0
IsPump p = (length p.batch < max_batch_bytes) × IsTimed p.timer p.batch

abbrev pub HasBytes : Event → Type 0
HasBytes (request chunk ack) = 0 < length chunk
HasBytes timer_fired = Unit
HasBytes close_ch = Unit

-- The bytes that an event brings.
abbrev pub bytes_of : Event → List ℕ
bytes_of (request chunk ack) = chunk
bytes_of timer_fired = []
bytes_of close_ch = []

pub concat-append :
    (xs ys : List (List ℕ)) → concat_chunks (xs ++ ys) ≡ concat_chunks xs ++ concat_chunks ys
concat-append [] ys = refl
concat-append (x ∷ xs) ys =
    ap (λ r. x ++ r) (concat-append xs ys)
    ∙ sym (append_assoc x (concat_chunks xs) (concat_chunks ys))

-- What has been handed to SendData, and the batch behind it.
abbrev pub stream_of : Pump → List ℕ
stream_of p = concat_chunks p.attempts ++ p.batch

-- The acknowledgements that were answered, and those that wait.
abbrev pub answered : List (ℕ × Bool) → List ℕ
answered [] = []
answered (a ∷ rest) = a.0 ∷ answered rest

abbrev pub acks_of : Pump → List ℕ
acks_of p = answered p.acked ++ p.acks

abbrev pub ack_of : Event → List ℕ
ack_of (request chunk ack) = ack ∷ []
ack_of timer_fired = []
ack_of close_ch = []

answered-append : (xs ys : List (ℕ × Bool)) → answered (xs ++ ys) ≡ answered xs ++ answered ys
answered-append [] ys = refl
answered-append (x ∷ xs) ys = ap (λ r. x.0 ∷ r) (answered-append xs ys)

answered-answer_all : (success : Bool) (acks : List ℕ) → answered (answer_all success acks) ≡ acks
unfolding answer_all
answered-answer_all success [] = refl
answered-answer_all success (a ∷ acks) = ap (λ r. a ∷ r) (answered-answer_all success acks)

-- The effect of sendBatch on both, and on the timer.
abbrev Sent : Pump → Pump → Type 0
Sent p q = (stream_of q ≡ stream_of p) × (acks_of q ≡ acks_of p)

send_batch-empty : (success : Bool) (p : Pump) → p.batch ≡ [] → send_batch success p ≡ p
unfolding send_batch
send_batch-empty success p e = rw e refl

pub send_batch-Sent :
    (success : Bool) (p : Pump)
    → 0 < length p.batch
    → Sent p (send_batch success p)
      × ((send_batch success p).batch ≡ [])
      × ((send_batch success p).timer ≡ unset)
unfolding send_batch flush
send_batch-Sent true p h =
    let more : (length p.batch == 0) ≡ false = ground arith in
    rw more (
      (
        append-nil _
            ∙ concat-append p.attempts (p.batch ∷ [])
            ∙ ap (λ r. concat_chunks p.attempts ++ r) (append-nil p.batch),
        append-nil _
            ∙ answered-append p.acked _
            ∙ ap (λ r. answered p.acked ++ r) (answered-answer_all true p.acks),
      ),
      refl,
      refl,
    )
send_batch-Sent false p h =
    let more : (length p.batch == 0) ≡ false = ground arith in
    rw more (
      (
        append-nil _
            ∙ concat-append p.attempts (p.batch ∷ [])
            ∙ ap (λ r. concat_chunks p.attempts ++ r) (append-nil p.batch),
        append-nil _
            ∙ answered-append p.acked _
            ∙ ap (λ r. answered p.acked ++ r) (answered-answer_all false p.acks),
      ),
      refl,
      refl,
    )
