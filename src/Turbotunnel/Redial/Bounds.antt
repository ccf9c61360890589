-- ===== src/Turbotunnel/Redial/Bounds.antt =====
-- redialpacketconn.go: what holds of the connection at any step.
use ptbridge.Base.{
  ℕ, ◌≤◌, ◌≡◌, refl, ap, subst, ◌∙◌, inl, inr, Bool, true, false, Option, some, List, [], ◌∷◌,
  arith, if◌then◌else◌, Bool-cases, some-injective, none≢some, length, ok,
}
use ptbridge.Turbotunnel.Redial.{
  Redial, close_with_error, shut, read_next, read_from, write_to, Exchange, Loop, looks, dials,
  exchanges, stops, State, start, Step, loop_closed, loop_dials, dial_fails, dialed, exchanged,
  turned, wrote, read, shuts, Steps, no_steps, and_then,
}
use ptbridge.Turbotunnel.Redial.Turns.{IsRedial, IsCurrent, Turn-IsTurn, turned-IsCurrent}
use ptbridge.Turbotunnel.PacketConn.{
  queue_size, CloseError, op_read, op_write, op_close, offer, or_closed,
}
use ptbridge.Turbotunnel.PacketConn.Queues.{length-offer, open-ok}

-- The loop stops when the connection is closed, and no earlier.
abbrev pub IsStopped : Loop → Bool → Type 0
IsStopped stops b = b ≡ true
IsStopped looks b = Unit
IsStopped dials b = Unit
IsStopped exchanges b = Unit

pub record IsState (s : State) : Type 0 where
  pub conn_well : IsRedial s.conn
  pub one : IsCurrent s.loop s.turns
  pub stopped : IsStopped s.loop (s.conn).closed

shut-closed : (e : Option CloseError) (c : Redial) → (shut e c).closed ≡ true
unfolding shut
shut-closed e c = elim (Bool-cases c.closed) [
  | inl h ↦
      ap (λ b. (if b then c else record c { closed = true; close_err = some (or_closed e) }).closed)
        h
      ∙ h
  | inr h ↦
      ap (λ b. (if b then c else record c { closed = true; close_err = some (or_closed e) }).closed)
        h
]

IsRedial-if : (b : Bool) (x y : Redial) → IsRedial x → IsRedial y → IsRedial (if b then x else y)
IsRedial-if true x y hx hy = hx
IsRedial-if false x y hx hy = hy

shut-IsRedial : (e : Option CloseError) (c : Redial) → IsRedial c → IsRedial (shut e c)
unfolding shut
shut-IsRedial e c w =
    IsRedial-if c.closed c _ w (record { received = w.received; sent = w.sent; reason = λ h. tt })

-- A call of the user keeps the connection well-formed, and does not open it again.
record IsCalled (c c' : Redial) : Type 0 where
  well : IsRedial c'
  still : c.closed ≡ true → c'.closed ≡ true

module _ (c c' : Redial) (w : IsRedial c) where
  write_to-IsCalled : (p : List ℕ) (n : ℕ) → write_to p c ≡ ok (n, c') → IsCalled c c'
  unfolding write_to
  write_to-IsCalled p n h =
      let (is_open, e) =
        open-ok c.closed op_write c.close_err
          (length p, record c { send_queue = offer p c.send_queue }) (n, c') h in
      subst (IsCalled c) (ap (λ r. r.1) e) (record {
        well = record {
          received = w.received;
          sent = length-offer p c.send_queue w.sent;
          reason = w.reason;
        };
        still = λ s. s;
      })

  read_next-IsCalled :
      (size : ℕ) (xs : List (List ℕ)) (p : List ℕ)
      → length xs ≤ queue_size
      → read_next c size xs ≡ some (p, c')
      → IsCalled c c'
  read_next-IsCalled size [] p small e = absurd (none≢some e)
  read_next-IsCalled size (x ∷ xs) p small e =
      subst (IsCalled c) (ap (λ r. r.1) (some-injective e)) (record {
        well = record { received = omega arith; sent = w.sent; reason = w.reason };
        still = λ s. s;
      })

  read_from-IsCalled :
      (size : ℕ) (p : List ℕ) → read_from size c ≡ ok (some (p, c')) → IsCalled c c'
  unfolding read_from
  read_from-IsCalled size p h =
      read_next-IsCalled size c.recv_queue p w.received
        (open-ok c.closed op_read c.close_err (read_next c size c.recv_queue) _ h).1

  close_with_error-IsCalled : (e : Option CloseError) → close_with_error e c ≡ ok c' → IsCalled c c'
  unfolding close_with_error
  close_with_error-IsCalled e h =
      subst (IsCalled c)
        (open-ok c.closed op_close c.close_err
          (record c { closed = true; close_err = some (or_closed e) }) c' h).1
        (record {
          well = record { received = w.received; sent = w.sent; reason = λ s. tt };
          still = λ s. refl;
        })

IsStopped-map : (l : Loop) (b b' : Bool) → (b ≡ true → b' ≡ true) → IsStopped l b → IsStopped l b'
IsStopped-map stops b b' f h = f h
IsStopped-map looks b b' f h = tt
IsStopped-map dials b b' f h = tt
IsStopped-map exchanges b b' f h = tt

called-IsState :
    (c c' : Redial) (l : Loop) (es : List Exchange)
    → IsState (record { conn = c; loop = l; turns = es })
    → (IsRedial c → IsCalled c c')
    → IsState (record { conn = c'; loop = l; turns = es })
called-IsState c c' l es s called = record {
  conn_well = (called s.conn_well).well;
  one = s.one;
  stopped = IsStopped-map l c.closed c'.closed (called s.conn_well).still s.stopped;
}

Step-IsState : (s t : State) → Step s t → IsState s → IsState t
Step-IsState _ _ (loop_closed h) s = record { conn_well = s.conn_well; one = s.one; stopped = h }
Step-IsState _ _ (loop_dials h) s = record { conn_well = s.conn_well; one = s.one; stopped = tt }
Step-IsState _ _ (dial_fails {c = c} e) s = record {
  conn_well = shut-IsRedial (some e) c s.conn_well;
  one = s.one;
  stopped = shut-closed (some e) c;
}
Step-IsState _ _ dialed s = record { conn_well = s.conn_well; one = s.one; stopped = tt }
Step-IsState _ _ exchanged s = record {
  conn_well = s.conn_well;
  one = omega (arith, s.one);
  stopped = tt;
}
Step-IsState _ _ (turned {c = c} {c' = c'} {l = l} {e = e} {e' = e'} before after t) s =
    let turn = Turn-IsTurn c e c' e' t in
    record {
      conn_well = turn.well s.conn_well;
      one = turned-IsCurrent l before e e' after turn.current_is s.one;
      stopped = IsStopped-map l c.closed c'.closed (λ h. turn.shut_is ∙ h) s.stopped;
    }
Step-IsState _ _ (wrote {c = c} {c' = c'} {l = l} {es = es} {n = n} p h) s =
    called-IsState c c' l es s (λ w. write_to-IsCalled c c' w p n h)
Step-IsState _ _ (read {c = c} {c' = c'} {l = l} {es = es} {p = p} size h) s =
    called-IsState c c' l es s (λ w. read_from-IsCalled c c' w size p h)
Step-IsState _ _ (shuts {c = c} {c' = c'} {l = l} {es = es} e h) s =
    called-IsState c c' l es s (λ w. close_with_error-IsCalled c c' w e h)

-- In every state that steps reach from the start, whatever the dials, the transient connections and the scheduler
-- do: each queue has at most 32 packets, a connection that is closed has an error, the loop has stopped only if
-- the connection is closed, and no exchange has yet to return but the latest one while the loop waits for it.
pub Steps-IsState : (s : State) → Steps start s → IsState s
Steps-IsState s ss = from start s ss (record {
  conn_well = record {
    received = omega arith;
    sent = omega arith;
    reason = λ h. absurd (ground arith);
  };
  one = refl;
  stopped = tt;
})
  where
    from : (a b : State) → Steps a b → IsState a → IsState b
    from _ _ no_steps h = h
    from a u (and_then {t = t} more step) h = Step-IsState t u step (from a t more h)
