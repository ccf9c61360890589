-- ===== src/Turbotunnel/Redial/Leaks.antt =====
-- redialpacketconn.go: the reading goroutines of exchange that never end.
use ptbridge.Base.{ℕ, ◌+◌, ◌≤◌, ◌≡◌, refl, Bool, true, false, List, [], ◌∷◌, ◌++◌, arith}
use ptbridge.Turbotunnel.Redial.{
  Redial, Reader, reads, reports, Writer, selects, fails, finishes, writes, Exchange, exchange,
  Turn, reader_closed, reader_takes, reader_sees, reader_goes, reader_reads, reader_fails,
  writer_closed, writer_takes, writer_sees, writer_starts, writer_writes, writer_fails,
  main_takes_read, main_sees_read, main_takes_write, main_sees_write, Loop, looks, exchanges, State,
  Step, loop_closed, loop_dials, dial_fails, dialed, exchanged, turned, wrote, read, shuts, Steps,
  no_steps, and_then,
}

-- A reading goroutine that sends its error when nobody is left to receive it.
abbrev pub waits_for_ever : Exchange → ℕ
waits_for_ever (exchange reports finishes true) = 1
waits_for_ever _ = 0

abbrev pub leaks : List Exchange → ℕ
leaks [] = 0
leaks (e ∷ es) = waits_for_ever e + leaks es

leaks-append :
    (before : List Exchange) (e : Exchange) (after : List Exchange)
    → leaks (before ++ (e ∷ after)) ≡ leaks before + waits_for_ever e + leaks after
leaks-append [] e after = omega arith
leaks-append (x ∷ before) e after = omega (arith, leaks-append before e after)

selects_refl : (r : Reader) (o : Bool) → waits_for_ever (exchange r selects o) ≡ 0
selects_refl r o = ground arith

writes_refl : (r : Reader) (p : List ℕ) (o : Bool) → waits_for_ever (exchange r (writes p) o) ≡ 0
writes_refl r p o = ground arith

false_refl : (r : Reader) (w : Writer) → waits_for_ever (exchange r w false) ≡ 0
false_refl r w = ground arith

-- No turn is left to such an exchange.
stays :
    (c : Redial) (e : Exchange) (c' : Redial) (e' : Exchange)
    → Turn c e c' e'
    → waits_for_ever e ≡ 0
stays _ _ _ _ (reader_closed h) = refl
stays _ _ _ _ reader_takes = refl
stays _ _ _ _ reader_sees = refl
stays _ _ _ _ (reader_goes h f g) = refl
stays _ _ _ _ (reader_reads p h) = refl
stays _ _ _ _ reader_fails = refl
stays _ _ _ _ (writer_closed {r = r} {o = o} h) = selects_refl r o
stays _ _ _ _ (writer_takes {o = o}) = selects_refl reports o
stays _ _ _ _ writer_sees = refl
stays _ _ _ _ (writer_starts {r = r} {o = o} p rest h) = selects_refl r o
stays _ _ _ _ (writer_writes {r = r} {o = o} {p = p}) = writes_refl r p o
stays _ _ _ _ (writer_fails {r = r} {o = o} {p = p}) = writes_refl r p o
stays _ _ _ _ (main_takes_read {w = w}) = false_refl reports w
stays _ _ _ _ main_sees_read = refl
stays _ _ _ _ (main_takes_write {r = r}) = false_refl r fails
stays _ _ _ _ (main_sees_write {r = r}) = false_refl r finishes

Step-leaks : (s t : State) → Step s t → leaks s.turns ≤ leaks t.turns
Step-leaks _ _ (loop_closed h) = omega arith
Step-leaks _ _ (loop_dials h) = omega arith
Step-leaks _ _ (dial_fails e) = omega arith
Step-leaks _ _ dialed = omega arith
Step-leaks _ _ exchanged = omega arith
Step-leaks _ _ (turned {c = c} {c' = c'} {e = e} {e' = e'} before after t) =
    omega (arith, leaks-append before e after, leaks-append before e' after, stays c e c' e' t)
Step-leaks _ _ (wrote p h) = omega arith
Step-leaks _ _ (read size h) = omega arith
Step-leaks _ _ (shuts e h) = omega arith

pub Steps-leaks : (s t : State) → Steps s t → leaks s.turns ≤ leaks t.turns
Steps-leaks _ _ no_steps = omega arith
Steps-leaks s u (and_then {t = t} ss step) = omega (arith, Steps-leaks s t ss, Step-leaks t u step)

-- From any state in which the current exchange is reading and is writing a packet, the steps of a failed write
-- lead back to the loop's select, to a state after which, whatever follows, one reading goroutine more than among
-- the earlier exchanges waits for good to send its error.
pub failed_write-leaks :
    (c : Redial) (p : List ℕ) (es : List Exchange)
    → (t : State) × Steps
        (record { conn = c; loop = exchanges; turns = exchange reads (writes p) false ∷ es })
        t
      × (t.loop ≡ looks)
      × ((u : State) → Steps t u → 1 + leaks es ≤ leaks u.turns)
failed_write-leaks c p es =
    let at : Loop → Exchange → State = λ l e. record { conn = c; loop = l; turns = e ∷ es } in
    let failed = and_then no_steps (
      turned {c = c} {c' = c} {l = exchanges} [] es
        (writer_fails {r = reads} {o = false} {p = p})) in
    let seen = and_then failed (turned [] es main_takes_write) in
    let back = and_then seen exchanged in
    let stuck = and_then back (turned [] es reader_fails) in
    (at looks (exchange reports finishes true), stuck, refl, λ u more. Steps-leaks _ u more)
