-- ===== src/Turbotunnel/PacketConn/Sent.antt =====
-- queuepacketconn.go: the client map after SendQueue, under the packets of each address.
use ptbridge.Base.{
  ℕ, ◌+◌, ◌≤◌, ◌<◌, ◌≡◌, refl, sym, ap, ◌∙◌, ◌≢◌, inl, inr, true, false, some, arith, ◌==◌, ℕ-cases,
  Option-cases, some-injective, Returns, returns, Returns-bind,
}
use ptbridge.Turbotunnel.ClientMap.{ClientRecord, ClientMapInner, Run, send_queue}
use ptbridge.Turbotunnel.ClientMap.Views.{view}
use ptbridge.Turbotunnel.ClientMap.Calls.{queue_of, next_of, IsSent, send_queue-IsSent}
use ptbridge.Turbotunnel.PacketConn.{QueuePacketConn, contents, run, outgoing_queue}
use ptbridge.Turbotunnel.PacketConn.Queues.{IsConn, outgoing_by, outgoing}

pub Returns-run {ℓ κ} : {A : Type ℓ} {P : A → Type κ} (r : Run A) → Returns P r → Returns P (run r)
Returns-run _ (returns h) = returns h

-- A client map after SendQueue, under the channels as they were.
module _ (c : QueuePacketConn) (well : IsConn c) (addr now q : ℕ) (clients' : ClientMapInner)
    (sent : IsSent addr now c.clients (q, clients')) where
  pub packets-q : contents q c.channels ≡ outgoing addr c
  packets-q = elim (Option-cases (view c.clients addr)) [
    | inl e ↦
        let is : q ≡ c.clients.next_queue = sent.queue ∙ ap (queue_of c.clients.next_queue) e in
        well.fresh q (omega arith) ∙ sym (ap (λ o. outgoing_by o c.channels) e)
    | inr (r, e) ↦
        let is : q ≡ r.send_queue = sent.queue ∙ ap (queue_of c.clients.next_queue) e in
        ap (λ k. contents k c.channels) is ∙ sym (ap (λ o. outgoing_by o c.channels) e)
  ]

  pub q-lt-next : (q < clients'.next_queue) × (c.clients.next_queue ≤ clients'.next_queue)
  q-lt-next = elim (Option-cases (view c.clients addr)) [
    | inl e ↦
        let is : q ≡ c.clients.next_queue = sent.queue ∙ ap (queue_of c.clients.next_queue) e in
        let next : clients'.next_queue ≡ c.clients.next_queue + 1 =
          sent.next ∙ ap (next_of c.clients.next_queue) e in
        (omega arith, omega arith)
    | inr (r, e) ↦
        let is : q ≡ r.send_queue = sent.queue ∙ ap (queue_of c.clients.next_queue) e in
        let next : clients'.next_queue ≡ c.clients.next_queue =
          sent.next ∙ ap (next_of c.clients.next_queue) e in
        let below = well.made addr r e in (omega arith, omega arith)
  ]

  view-other : (x : ℕ) → x ≢ addr → view clients' x ≡ view c.clients x
  view-other x ne = let test : (x == addr) ≡ false = ground arith in rw test at (sent.views x)

  pub view-own : view clients' addr ≡ some (record { addr = addr; last_seen = now; send_queue = q })
  view-own = let test : (addr == addr) ≡ true = ground arith in rw test at (sent.views addr)

  -- no other client has the channel
  other-queue : (x : ℕ) (r : ClientRecord) → x ≢ addr → view clients' x ≡ some r → r.send_queue ≢ q
  other-queue x r ne seen same = elim (Option-cases (view c.clients addr)) [
    | inl e ↦
        let is : q ≡ c.clients.next_queue = sent.queue ∙ ap (queue_of c.clients.next_queue) e in
        let below = well.made x r (sym (view-other x ne) ∙ seen) in absurd (omega arith)
    | inr (s, e) ↦
        let is : q ≡ s.send_queue = sent.queue ∙ ap (queue_of c.clients.next_queue) e in
        ne (well.own x addr r s (sym (view-other x ne) ∙ seen) e (same ∙ is))
  ]

  own-queue : (r : ClientRecord) → view clients' addr ≡ some r → r.send_queue ≡ q
  own-queue r seen = ap (λ s. s.send_queue) (some-injective (sym seen ∙ view-own))

  pub sent-IsConn : IsConn (record c { clients = clients' })
  sent-IsConn = record {
    clients_well = sent.well;
    made = λ x r seen. elim (ℕ-cases x addr) [
      | inl e ↦
          let is = own-queue r (ap (view clients') (sym e) ∙ seen) in omega (arith, q-lt-next.0)
      | inr e ↦
          let below = well.made x r (sym (view-other x e) ∙ seen) in omega (arith, q-lt-next.1)
    ];
    own = λ x y r s hx hy same. elim (ℕ-cases x addr) [
      | inl e ↦ elim (ℕ-cases y addr) [
        | inl f ↦ e ∙ sym f
        | inr f ↦
            absurd (other-queue y s f hy (sym same ∙ own-queue r (ap (view clients') (sym e) ∙ hx)))
      ]
      | inr e ↦ elim (ℕ-cases y addr) [
        | inl f ↦
            absurd (other-queue x r e hx (same ∙ own-queue s (ap (view clients') (sym f) ∙ hy)))
        | inr f ↦ well.own x y r s (sym (view-other x e) ∙ hx) (sym (view-other y f) ∙ hy) same
      ]
    ];
    fresh = λ k h. well.fresh k (omega (arith, q-lt-next.1));
    bounded = well.bounded;
    received = well.received;
    reason = well.reason;
  }

  pub outgoing-sent : (x : ℕ) → outgoing x (record c { clients = clients' }) ≡ outgoing x c
  outgoing-sent x = elim (ℕ-cases x addr) [
    | inl e ↦ rw (e, view-own) packets-q
    | inr e ↦ ap (λ o. outgoing_by o c.channels) (view-other x e)
  ]

-- The channel that OutgoingQueue gives for a client holds the client's packets, and is the one of later calls.
pub record IsOpened (addr now : ℕ) (c : QueuePacketConn) (p : ℕ × QueuePacketConn) : Type 0 where
  pub well : IsConn p.1
  pub packets : contents p.0 (p.1).channels ≡ outgoing addr c
  pub there :
      view (p.1).clients addr ≡ some (record { addr = addr; last_seen = now; send_queue = p.0 })
  pub outgoings : (x : ℕ) → outgoing x p.1 ≡ outgoing x c
  pub known : p.0 < (p.1).clients.next_queue
  pub rest :
      ((p.1).recv_queue ≡ c.recv_queue)
      × ((p.1).closed ≡ c.closed)
      × ((p.1).close_err ≡ c.close_err)

pub outgoing_queue-IsOpened :
    (addr now : ℕ) (c : QueuePacketConn)
    → IsConn c
    → Returns (IsOpened addr now c) (outgoing_queue addr now c)
unfolding outgoing_queue
outgoing_queue-IsOpened addr now c well =
    Returns-bind (run (send_queue addr now c.clients)) _
      (Returns-run _ (send_queue-IsSent addr now c.clients well.clients_well))
      (λ (q, clients') sent. returns (record {
        well = sent-IsConn c well addr now q clients' sent;
        packets = packets-q c well addr now q clients' sent;
        there = view-own c well addr now q clients' sent;
        outgoings = outgoing-sent c well addr now q clients' sent;
        known = (q-lt-next c well addr now q clients' sent).0;
        rest = (refl, refl, refl);
      }))
