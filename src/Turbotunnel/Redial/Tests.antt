-- ===== src/Turbotunnel/Redial/Tests.antt =====
-- A redialed connection at concrete inputs.
use ptbridge.Base.{◌+◌, ◌≤◌, ◌≡◌, refl, subst, true, false, some, [], ◌∷◌}
use ptbridge.Turbotunnel.Redial.{
  new_redial, shut, reads, writes, exchange, looks, exchanges, stops, State, start, loop_dials,
  dial_fails, Steps, no_steps, and_then,
}
use ptbridge.Turbotunnel.PacketConn.{given}
use ptbridge.Turbotunnel.Redial.Bounds.{IsState, Steps-IsState}
use ptbridge.Turbotunnel.Redial.Leaks.{leaks, failed_write-leaks}

-- A dial that fails closes the connection.
abbrev failed : State
failed = record {
  conn = record { recv_queue = []; send_queue = []; closed = true; close_err = some (given 3) };
  loop = stops;
  turns = [];
}

shut_new : shut (some (given 3)) new_redial ≡ failed.conn
unfolding shut
shut_new = refl

Steps-IsState_example : IsState failed
Steps-IsState_example = Steps-IsState failed (
    subst (λ c. Steps start (record { conn = c; loop = stops; turns = [] })) shut_new
      (and_then (and_then no_steps (loop_dials refl)) (dial_fails (given 3))))

failed_write-leaks_example :
    (t : State) × Steps
      (record {
        conn = new_redial;
        loop = exchanges;
        turns = exchange reads (writes (1 ∷ [])) false ∷ [];
      })
      t
    × (t.loop ≡ looks)
    × ((u : State) → Steps t u → 1 + leaks [] ≤ leaks u.turns)
failed_write-leaks_example = failed_write-leaks new_redial (1 ∷ []) []
