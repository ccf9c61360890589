-- ===== src/Session/Tests.antt =====
-- A client's packets at concrete inputs.
use ptbridge.Base.{
  ℕ, ◌≡◌, refl, true, false, none, some, List, [], ◌∷◌, ◌++◌, arith, ok, Returns, lookup, eof, Sink,
}
use ptbridge.Encapsulation.{io}
use ptbridge.Session.{token, number_of, wrap_dial, read_error, serve, write_loop}
use ptbridge.Session.Downlink.{read_all, read_all-write_loop}
use ptbridge.Session.Ends.{serve-Returns}
use ptbridge.Session.Sessions.{
  Sessions, accept_session, session_ended, is_live, session_ended-evicts,
}
use ptbridge.Turbotunnel.PacketConn.Queues.{IsConn}
use ptbridge.Session.Relay.{write_all, tagged, serve-write_all}
use ptbridge.Turbotunnel.PacketConn.{QueuePacketConn, new_queue_packet_conn}
use ptbridge.Turbotunnel.PacketConn.Reachable.{new-IsConn}

abbrev client_id : List ℕ
client_id = 1 ∷ 2 ∷ 3 ∷ 4 ∷ 5 ∷ 6 ∷ 7 ∷ 8 ∷ []

abbrev packets : List (List ℕ)
packets = (10 ∷ 11 ∷ []) ∷ (12 ∷ []) ∷ []

serve-write_all_example :
    (raw s : Sink) × (c' : QueuePacketConn) × (wrap_dial client_id
        (record { written = []; room = 100 })
      ≡ some raw)
    × (write_all packets raw ≡ ok s)
    × (serve eof s.written new_queue_packet_conn ≡ ok (read_error (io eof), c'))
    × (c'.recv_queue ≡ tagged (number_of client_id) packets)
serve-write_all_example =
    serve-write_all eof client_id packets 100 new_queue_packet_conn refl
      (omega arith, (omega arith, tt)) (omega arith) new-IsConn refl

-- The token, a client number, and a chunk that is cut.
abbrev cut_bytes : List ℕ
cut_bytes = token ++ (client_id ++ (0x82 ∷ 10 ∷ 11 ∷ 0x85 ∷ 12 ∷ []))

serve-Returns_example : Returns (λ r. IsConn r.1) (serve eof cut_bytes new_queue_packet_conn)
serve-Returns_example = serve-Returns eof cut_bytes new_queue_packet_conn (omega arith) new-IsConn

abbrev no_sessions : Sessions
no_sessions = record { smux_sessions = []; live = []; next_session = 0 }

session_ended-evicts_example :
    let two = accept_session 7 (accept_session 7 no_sessions) in
    let after = session_ended 7 0 two in
    (lookup 7 two.smux_sessions ≡ some 1)
    × (is_live 1 two.live ≡ true)
    × (is_live 0 two.live ≡ false)
    × (is_live 0 after.live ≡ false)
    × (lookup 7 after.smux_sessions ≡ none)
    × (is_live 1 after.live ≡ true)
    × (is_live 1 (accept_session 7 after).live ≡ true)
session_ended-evicts_example = session_ended-evicts 7 no_sessions

read_all-write_loop_example :
    (s : Sink) × (write_loop packets (record { written = []; room = 50 }) ≡ (none, s))
    × (read_all 2 eof 1 s.written ≡ ok ((10 ∷ []) ∷ (12 ∷ []) ∷ [], []))
read_all-write_loop_example =
    read_all-write_loop eof 1 50 packets (omega arith, (omega arith, tt)) (omega arith)
