-- ===== src/Turbotunnel/Redial/Turns.antt =====
-- redialpacketconn.go: what one turn of an exchange does.
use ptbridge.Base.{ℕ, ◌+◌, ◌≤◌, ◌≡◌, refl, ap, true, false, List, [], ◌∷◌, ◌++◌, arith, length}
use ptbridge.Turbotunnel.Redial.{
  Redial, Exchange, exchange, Turn, reader_closed, reader_takes, reader_sees, reader_goes,
  reader_reads, reader_fails, writer_closed, writer_takes, writer_sees, writer_starts,
  writer_writes, writer_fails, main_takes_read, main_sees_read, main_takes_write, main_sees_write,
  Loop, looks, dials, exchanges, stops,
}
use ptbridge.Turbotunnel.PacketConn.{queue_size}
use ptbridge.Turbotunnel.PacketConn.Queues.{HasError, length-offer}

-- Bounded queues, and an error once the connection is closed.
pub record IsRedial (c : Redial) : Type 0 where
  pub received : length c.recv_queue ≤ queue_size
  pub sent : length c.send_queue ≤ queue_size
  pub reason : c.closed ≡ true → HasError c.close_err

-- An exchange whose select has not returned.
abbrev pub current : Exchange → ℕ
current (exchange r w true) = 0
current (exchange r w false) = 1

abbrev pub currents : List Exchange → ℕ
currents [] = 0
currents (e ∷ es) = current e + currents es

-- Only the latest exchange is current, and only while the loop waits for it.
abbrev pub IsCurrent : Loop → List Exchange → Type 0
IsCurrent exchanges [] = ⊥
IsCurrent exchanges (e ∷ es) = currents es ≡ 0
IsCurrent looks es = currents es ≡ 0
IsCurrent dials es = currents es ≡ 0
IsCurrent stops es = currents es ≡ 0

pub currents-append :
    (before : List Exchange) (e : Exchange) (after : List Exchange)
    → currents (before ++ (e ∷ after)) ≡ currents before + current e + currents after
currents-append [] e after = omega arith
currents-append (x ∷ before) e after = omega (arith, currents-append before e after)

-- A turn keeps the queues bounded, does not close the connection, and makes no exchange current.
pub record IsTurn (c : Redial) (e : Exchange) (c' : Redial) (e' : Exchange) : Type 0 where
  pub well : IsRedial c → IsRedial c'
  pub current_is : current e' ≤ current e
  pub shut_is : c'.closed ≡ c.closed

same-IsTurn : (c : Redial) (e e' : Exchange) → current e' ≤ current e → IsTurn c e c e'
same-IsTurn c e e' h = record { well = λ w. w; current_is = h; shut_is = refl }

pub Turn-IsTurn :
    (c : Redial) (e : Exchange) (c' : Redial) (e' : Exchange) → Turn c e c' e' → IsTurn c e c' e'
Turn-IsTurn c _ _ _ (reader_closed {o = o} h) = same-IsTurn c _ _ (ground arith)
Turn-IsTurn c _ _ _ (reader_takes {o = o}) = same-IsTurn c _ _ (ground arith)
Turn-IsTurn c _ _ _ (reader_sees {o = o}) = same-IsTurn c _ _ (ground arith)
Turn-IsTurn c _ _ _ (reader_goes {o = o} h f g) = same-IsTurn c _ _ (ground arith)
Turn-IsTurn c _ _ _ (reader_reads {o = o} p h) = record {
  well = λ w. record {
    received = length-offer p c.recv_queue w.received;
    sent = w.sent;
    reason = w.reason;
  };
  current_is = ground arith;
  shut_is = refl;
}
Turn-IsTurn c _ _ _ (reader_fails {o = o}) = same-IsTurn c _ _ (ground arith)
Turn-IsTurn c _ _ _ (writer_closed {o = o} h) = same-IsTurn c _ _ (ground arith)
Turn-IsTurn c _ _ _ (writer_takes {o = o}) = same-IsTurn c _ _ (ground arith)
Turn-IsTurn c _ _ _ (writer_sees {o = o}) = same-IsTurn c _ _ (ground arith)
Turn-IsTurn c _ _ _ (writer_starts {o = o} p rest h) = record {
  well = λ w. record {
    received = w.received;
    sent = omega (arith, w.sent, ap length h);
    reason = w.reason;
  };
  current_is = ground arith;
  shut_is = refl;
}
Turn-IsTurn c _ _ _ (writer_writes {o = o}) = same-IsTurn c _ _ (ground arith)
Turn-IsTurn c _ _ _ (writer_fails {o = o}) = same-IsTurn c _ _ (ground arith)
Turn-IsTurn c _ _ _ main_takes_read = same-IsTurn c _ _ (omega arith)
Turn-IsTurn c _ _ _ main_sees_read = same-IsTurn c _ _ (omega arith)
Turn-IsTurn c _ _ _ main_takes_write = same-IsTurn c _ _ (omega arith)
Turn-IsTurn c _ _ _ main_sees_write = same-IsTurn c _ _ (omega arith)

pub turned-IsCurrent :
    (l : Loop) (before : List Exchange) (e e' : Exchange) (after : List Exchange)
    → current e' ≤ current e
    → IsCurrent l (before ++ (e ∷ after))
    → IsCurrent l (before ++ (e' ∷ after))
turned-IsCurrent exchanges [] e e' after h is = is
turned-IsCurrent exchanges (x ∷ before) e e' after h is =
    omega (arith, currents-append before e after, currents-append before e' after)
turned-IsCurrent looks before e e' after h is =
    omega (arith, currents-append before e after, currents-append before e' after)
turned-IsCurrent dials before e e' after h is =
    omega (arith, currents-append before e after, currents-append before e' after)
turned-IsCurrent stops before e e' after h is =
    omega (arith, currents-append before e after, currents-append before e' after)
