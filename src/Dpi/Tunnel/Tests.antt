-- ===== src/Dpi/Tunnel/Tests.antt =====
-- A tunnel connection at concrete inputs.
use ptbridge.Base.{ℕ, ◌≡◌, refl, Bool, true, false, List, [], ◌∷◌, ◌++◌, arith, ok, out_of_fuel}
use ptbridge.Dpi.Tunnel.{
  Incoming, read_chunk, read, spent, Event, request, timer_fired, close_ch, idle, pump_run,
}
use ptbridge.Dpi.Tunnel.ReadPump.{
  checks, reads, Pumped, start, checks_open, body_gives, sends_chunk, calls_read, Steps, no_steps,
  and_then, close-waits,
}
use ptbridge.Dpi.Tunnel.Streams.{IsStream, Steps-IsStream}
use ptbridge.Dpi.Tunnel.Sends.{IsPump, stream_of, acks_of}
use ptbridge.Dpi.Tunnel.Batches.{
  taken, bytes_of_all, acks_of_all, pump_run-stream, pump_run-empty_write,
}

abbrev incoming : Incoming
incoming = record { read_buf = []; read_ch = (7 ∷ 8 ∷ 9 ∷ []) ∷ []; closed = true }

abbrev events : List (Event × Bool)
events =
    (request (7 ∷ 8 ∷ []) 1, true)
    ∷ (request (9 ∷ []) 2, true)
    ∷ (timer_fired, true)
    ∷ (request (5 ∷ []) 3, true)
    ∷ (close_ch, false)
    ∷ []

pump_run-stream_example :
    (stream_of (pump_run events idle) ≡ stream_of idle ++ bytes_of_all (taken events idle))
    × (acks_of (pump_run events idle) ≡ acks_of idle ++ acks_of_all (taken events idle))
    × IsPump (pump_run events idle)
pump_run-stream_example = pump_run-stream events idle (omega arith, refl) (omega arith)

abbrev later : List (Event × Bool)
later = (request (7 ∷ []) 2, true) ∷ (timer_fired, true) ∷ (request (8 ∷ []) 3, true) ∷ []

pump_run-empty_write_example :
    pump_run ((request [] 1, true) ∷ (timer_fired, true) ∷ later) idle ≡ record {
      batch = 7 ∷ 8 ∷ [];
      acks = 1 ∷ 2 ∷ 3 ∷ [];
      timer = spent;
      attempts = [];
      acked = [];
      running = true;
    }
pump_run-empty_write_example = pump_run-empty_write 1 true true later (omega arith) (omega arith)

-- A chunk that was read from the body, and of which two bytes were handed out.
abbrev read_two : Pumped
read_two = record {
  incoming = record { read_buf = 3 ∷ []; read_ch = []; closed = false };
  close_ch = false;
  place = checks;
  got = 1 ∷ 2 ∷ 3 ∷ [];
  given = 1 ∷ 2 ∷ [];
}

abbrev one_chunk : Incoming
one_chunk = record { read_buf = []; read_ch = (1 ∷ 2 ∷ 3 ∷ []) ∷ []; closed = false }

reads_two :
    read 2 one_chunk ≡ ok (1 ∷ 2 ∷ [], record { read_buf = 3 ∷ []; read_ch = []; closed = false })
unfolding read read_chunk
reads_two = refl

Steps-IsStream_example : IsStream read_two
Steps-IsStream_example = Steps-IsStream read_two (
    and_then
      (and_then
        (and_then (and_then no_steps (checks_open refl refl))
          (body_gives (1 ∷ 2 ∷ 3 ∷ []) false refl))
        (sends_chunk (1 ∷ 2 ∷ 3 ∷ []) false refl (omega arith)))
      (calls_read 2 reads_two))

abbrev reading : Pumped
reading = record start { place = reads }

close-waits_example :
    (t : Pumped) × Steps reading t
    × ((u : Pumped) → Steps t u → (n : ℕ) → read n u.incoming ≡ out_of_fuel)
close-waits_example = close-waits reading refl refl
