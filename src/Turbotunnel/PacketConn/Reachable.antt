-- ===== src/Turbotunnel/PacketConn/Reachable.antt =====
-- queuepacketconn.go: the calls as steps, of the users of the connection and of the goroutine that expires clients.
use ptbridge.Base.{
  ℕ, ◌≤◌, ◌<◌, ◌≡◌, refl, sym, ap, subst, ◌∙◌, inl, inr, Bool, true, false, Option, none, some,
  List, [], ◌∷◌, arith, ltb, if◌then◌else◌, Bool-cases, some-injective, none≢some, length, ok,
  Returns-eq, lookup,
}
use ptbridge.Turbotunnel.ClientMap.Ops.{no_clients-IsClientMap}
use ptbridge.Turbotunnel.PacketConn.{
  queue_size, CloseError, Op, op_read, op_write, op_close, TaggedPacket, QueuePacketConn,
  new_queue_packet_conn, offer, contents, op_error, queue_incoming, outgoing_queue, read_next,
  read_from, write_to, or_closed, close_with_error, expire, receive_by, receive,
}
use ptbridge.Turbotunnel.PacketConn.Queues.{HasError, IsConn, length-offer, open-ok}
use ptbridge.Turbotunnel.PacketConn.Sent.{outgoing_queue-IsOpened}
use ptbridge.Turbotunnel.PacketConn.Calls.{put-IsConn, write_to-Leaves, expire-Leaves}

pub data Reachable : QueuePacketConn → Type 0 where
  start : Reachable new_queue_packet_conn
  incoming :
      {c : QueuePacketConn}
      → Reachable c
      → (p : List ℕ) (source : ℕ) → Reachable (queue_incoming p source c)
  opened :
      {c c' : QueuePacketConn} {q : ℕ}
      → Reachable c
      → (addr now : ℕ) → outgoing_queue addr now c ≡ ok (q, c')
      → Reachable c'
  taken :
      {c c' : QueuePacketConn} {p : List ℕ} {source : ℕ}
      → Reachable c
      → (size : ℕ) → read_from size c ≡ ok (some (p, source, c'))
      → Reachable c'
  written :
      {c c' : QueuePacketConn} {n : ℕ}
      → Reachable c
      → (p : List ℕ) (addr now : ℕ) → write_to p addr now c ≡ ok (n, c')
      → Reachable c'
  received :
      {c c' : QueuePacketConn} {p : List ℕ}
      → Reachable c
      → (q : ℕ) → receive q c ≡ some (p, c')
      → Reachable c'
  shut :
      {c c' : QueuePacketConn}
      → Reachable c
      → (e : Option CloseError) → close_with_error e c ≡ ok c'
      → Reachable c'
  swept :
      {c c' : QueuePacketConn}
      → Reachable c
      → (now timeout : ℕ) → expire now timeout c ≡ ok c'
      → Reachable c'

pub new-IsConn : IsConn new_queue_packet_conn
unfolding lookup
new-IsConn = record {
  clients_well = no_clients-IsClientMap;
  made = λ x r h. absurd (none≢some h);
  own = λ x y r s h. absurd (none≢some h);
  fresh = λ q h. refl;
  bounded = λ q. omega arith;
  received = omega arith;
  reason = λ h. absurd (ground arith);
}

-- the incoming queue may change within its bound, and the connection may close with an error
renewed-IsConn :
    (c : QueuePacketConn) (rq : List TaggedPacket) (b : Bool) (e : Option CloseError)
    → IsConn c
    → length rq ≤ queue_size
    → (b ≡ true → HasError e)
    → IsConn (record c { recv_queue = rq; closed = b; close_err = e })
renewed-IsConn c rq b e well small reason = record {
  clients_well = well.clients_well;
  made = well.made;
  own = well.own;
  fresh = well.fresh;
  bounded = well.bounded;
  received = small;
  reason = reason;
}

op_error-ne {ℓ} : {A : Type ℓ} (op : Op) (e : Option CloseError) (a : A) → op_error op e ≡ ok a → ⊥
op_error-ne op none a h = cc
op_error-ne op (some e) a h = cc

module _ (c : QueuePacketConn) (well : IsConn c) where
  read_next-IsConn :
      (size : ℕ) (xs : List TaggedPacket) (p : List ℕ) (source : ℕ) (c' : QueuePacketConn)
      → length xs ≤ queue_size
      → read_next c size xs ≡ some (p, source, c')
      → IsConn c'
  read_next-IsConn size [] p source c' small e = absurd (none≢some e)
  read_next-IsConn size (x ∷ xs) p source c' small e =
      subst IsConn (ap (λ r. r.2) (some-injective e))
        (renewed-IsConn c xs c.closed c.close_err well (omega arith) well.reason)

  read_from-IsConn :
      (size : ℕ) (p : List ℕ) (source : ℕ) (c' : QueuePacketConn)
      → read_from size c ≡ ok (some (p, source, c'))
      → IsConn c'
  unfolding read_from
  read_from-IsConn size p source c' e =
      read_next-IsConn size c.recv_queue p source c' well.received
        (open-ok c.closed op_read c.close_err (read_next c size c.recv_queue) _ e).1

  write_to-closed :
      (p : List ℕ) (addr now : ℕ)
      → c.closed ≡ true
      → write_to p addr now c ≡ op_error op_write c.close_err
  unfolding write_to
  write_to-closed p addr now is_shut = rw is_shut refl

  write_to-IsConn :
      (p : List ℕ) (addr now n : ℕ) (c' : QueuePacketConn)
      → write_to p addr now c ≡ ok (n, c')
      → IsConn c'
  write_to-IsConn p addr now n c' e = elim (Bool-cases c.closed) [
    | inl is_shut ↦
        absurd (op_error-ne op_write c.close_err _ (sym (write_to-closed p addr now is_shut) ∙ e))
    | inr is_open ↦ (Returns-eq e (write_to-Leaves p addr now c well is_open)).1.well
  ]

  receive_by-IsConn :
      (q : ℕ) (xs : List (List ℕ)) (p : List ℕ) (c' : QueuePacketConn)
      → contents q c.channels ≡ xs
      → receive_by q c xs ≡ some (p, c')
      → IsConn c'
  receive_by-IsConn q [] p c' is e = absurd (none≢some e)
  receive_by-IsConn q (x ∷ xs) p c' is e =
      let known : q < c.clients.next_queue = elim (Bool-cases (ltb q c.clients.next_queue)) [
        | inl h ↦ ground arith
        | inr h ↦ absurd (ground (arith, sym is ∙ well.fresh q (ground arith)))
      ] in
      subst IsConn (ap (λ r. r.1) (some-injective e))
        (put-IsConn q xs c well known (omega (arith, well.bounded q, ap length is)))

  close_with_error-IsConn :
      (r : Option CloseError) (c' : QueuePacketConn) → close_with_error r c ≡ ok c' → IsConn c'
  unfolding close_with_error
  close_with_error-IsConn r c' e =
      subst IsConn
        (open-ok c.closed op_close c.close_err
          (record c { closed = true; close_err = some (or_closed r) }) c' e).1
        (renewed-IsConn c c.recv_queue true (some (or_closed r)) well well.received (λ h. tt))

  pub queue_incoming-IsConn : (p : List ℕ) (source : ℕ) → IsConn (queue_incoming p source c)
  unfolding queue_incoming
  queue_incoming-IsConn p source = IsConn-if c.closed c _ well (
      renewed-IsConn c (offer (record { p = p; source = source }) c.recv_queue) c.closed c.close_err
        well (length-offer _ c.recv_queue well.received) well.reason)
    where
      IsConn-if :
          (b : Bool) (x y : QueuePacketConn) → IsConn x → IsConn y → IsConn (if b then x else y)
      IsConn-if true x y hx hy = hx
      IsConn-if false x y hx hy = hy

-- Whatever calls were made on a new connection, with whatever arguments and in whatever order: its client map is
-- in order, each client has a channel of its own that was made before, no channel and no incoming queue has more
-- than 32 packets, a channel that is not made yet is empty, and a connection that is closed has an error.
pub Reachable-IsConn : (c : QueuePacketConn) → Reachable c → IsConn c
unfolding receive
Reachable-IsConn _ start = new-IsConn
Reachable-IsConn _ (incoming {c = c} h p source) =
    queue_incoming-IsConn c (Reachable-IsConn c h) p source
Reachable-IsConn _ (opened {c = c} h addr now e) =
    (Returns-eq e (outgoing_queue-IsOpened addr now c (Reachable-IsConn c h))).well
Reachable-IsConn _ (taken {c = c} h size e) = read_from-IsConn c (Reachable-IsConn c h) size _ _ _ e
Reachable-IsConn _ (written {c = c} h p addr now e) =
    write_to-IsConn c (Reachable-IsConn c h) p addr now _ _ e
Reachable-IsConn _ (received {c = c} {p = p} h q e) =
    receive_by-IsConn c (Reachable-IsConn c h) q (contents q c.channels) p _ refl e
Reachable-IsConn _ (shut {c = c} h r e) = close_with_error-IsConn c (Reachable-IsConn c h) r _ e
Reachable-IsConn _ (swept {c = c} h now timeout e) =
    (Returns-eq e (expire-Leaves now timeout c (Reachable-IsConn c h))).well
