-- ===== src/Turbotunnel/PacketConn/Closing.antt =====
-- queuepacketconn.go: the incoming queue, and a connection that is closed.
use ptbridge.Base.{
  ℕ, zero, suc, ◌+◌, ◌-◌, ◌≡◌, refl, sym, ap, subst, ◌∙◌, inl, inr, true, false, Option, some, List,
  [], ◌∷◌, ◌++◌, append-nil, append_assoc, arith, ltb, if◌then◌else◌, Bool-cases, Option-cases,
  length, take, length-append, err, Settles, Returns, returns, Returns-if,
}
use ptbridge.Turbotunnel.PacketConn.{
  queue_size, CloseError, op_read, op_write, op_close, TaggedPacket, QueuePacketConn, offer,
  queue_incoming, read_from, write_to, or_closed, close_with_error,
}
use ptbridge.Turbotunnel.PacketConn.Queues.{HasError, IsConn}

-- What a closed connection answers, with the error `e` that closed it.
pub record IsShut (e : CloseError) (c : QueuePacketConn) : Type 0 where
  pub reads : (size : ℕ) → read_from size c ≡ err (record { op = op_read; cause = e })
  pub writes :
      (p : List ℕ) (addr now : ℕ)
      → write_to p addr now c ≡ err (record { op = op_write; cause = e })
  pub closes :
      (e' : Option CloseError) → close_with_error e' c ≡ err (record { op = op_close; cause = e })
  pub drops : (p : List ℕ) (source : ℕ) → queue_incoming p source c ≡ c

pub closed-IsShut :
    (c : QueuePacketConn) (e : CloseError) → c.closed ≡ true → c.close_err ≡ some e → IsShut e c
unfolding read_from write_to close_with_error queue_incoming
closed-IsShut c e shut reason = record {
  reads = λ size. rw (shut, reason) refl;
  writes = λ p addr now. rw (shut, reason) refl;
  closes = λ e'. rw (shut, reason) refl;
  drops = λ p source.
      ap
        (λ b.
          if b
          then c
          else record c { recv_queue = offer (record { p = p; source = source }) c.recv_queue })
        shut;
}

-- An open connection is closed without an error, and from then on every read, write and close gives the error that
-- it was closed with, and every incoming packet is dropped.
pub close_with_error-IsShut :
    (e : Option CloseError) (c : QueuePacketConn)
    → c.closed ≡ false
    → Returns (IsShut (or_closed e)) (close_with_error e c)
unfolding close_with_error
close_with_error-IsShut e c is_open =
    Returns-if c.closed _ _ (λ shut. absurd (ground arith))
      (λ q. returns (
        closed-IsShut (record c { closed = true; close_err = some (or_closed e) }) (or_closed e)
          refl refl))

-- A connection that can be used has the error of each call that fails.
pub Settles-calls :
    (c : QueuePacketConn) (size : ℕ) (e : Option CloseError)
    → IsConn c
    → Settles (read_from size c) × Settles (close_with_error e c)
unfolding read_from close_with_error
Settles-calls c size e well = elim (Bool-cases c.closed) [
  | inl shut ↦ elim (Option-cases c.close_err) [
    | inl missing ↦ absurd (subst HasError missing (well.reason shut))
    | inr (r, has) ↦ rw (shut, has) (tt, tt)
  ]
  | inr is_open ↦ rw is_open (tt, tt)
]

-- Packets that come one after the other.
abbrev pub queue_all : List TaggedPacket → QueuePacketConn → QueuePacketConn
queue_all [] c = c
queue_all (t ∷ ts) c = queue_all ts (queue_incoming t.p t.source c)

queue_incoming-offer :
    (t : TaggedPacket) (c : QueuePacketConn)
    → c.closed ≡ false
    → ((queue_incoming t.p t.source c).closed ≡ false)
      × ((queue_incoming t.p t.source c).recv_queue ≡ offer t c.recv_queue)
unfolding queue_incoming
queue_incoming-offer t c is_open =
    let queued : QueuePacketConn = record c { recv_queue = offer t c.recv_queue } in
    (
      ap (λ b. (if b then c else queued).closed) is_open ∙ is_open,
      ap (λ b. (if b then c else queued).recv_queue) is_open,
    )

-- Offers to a queue that has room for `room` more.
queue_all-room :
    (ts : List TaggedPacket) (room : ℕ) (c : QueuePacketConn)
    → c.closed ≡ false
    → length c.recv_queue + room ≡ queue_size
    → (queue_all ts c).recv_queue ≡ c.recv_queue ++ take room ts
unfolding offer
queue_all-room [] zero c is_open size = sym (append-nil c.recv_queue)
queue_all-room [] (suc room) c is_open size = sym (append-nil c.recv_queue)
queue_all-room (t ∷ ts) zero c is_open size =
    let (still, queue) = queue_incoming-offer t c is_open in
    let full : ltb (length c.recv_queue) queue_size ≡ false = ground arith in
    let same = queue ∙ ap (λ b. if b then c.recv_queue ++ (t ∷ []) else c.recv_queue) full in
    queue_all-room ts zero (queue_incoming t.p t.source c) still (omega (arith, ap length same))
    ∙ ap (λ q. q ++ []) same
queue_all-room (t ∷ ts) (suc room) c is_open size =
    let (still, queue) = queue_incoming-offer t c is_open in
    let free : ltb (length c.recv_queue) queue_size ≡ true = ground arith in
    let longer = queue ∙ ap (λ b. if b then c.recv_queue ++ (t ∷ []) else c.recv_queue) free in
    queue_all-room ts room (queue_incoming t.p t.source c) still
      (omega (arith, ap length longer, length-append c.recv_queue (t ∷ [])))
    ∙ ap (λ q. q ++ take room ts) longer
    ∙ append_assoc c.recv_queue (t ∷ []) (take room ts)

-- A well-formed open connection takes incoming packets in order until its queue has 32 of them, and drops the
-- others.
pub queue_all-take :
    (ts : List TaggedPacket) (c : QueuePacketConn)
    → IsConn c
    → c.closed ≡ false
    → (queue_all ts c).recv_queue ≡ c.recv_queue ++ take (queue_size - length c.recv_queue) ts
queue_all-take ts c well is_open =
    queue_all-room ts (queue_size - length c.recv_queue) c is_open (omega (arith, well.received))
