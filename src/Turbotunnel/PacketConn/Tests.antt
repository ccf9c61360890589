-- ===== src/Turbotunnel/PacketConn/Tests.antt =====
-- A packet connection at concrete inputs.
use ptbridge.Base.{
  ◌≡◌, refl, false, none, some, List, [], ◌∷◌, ◌==◌, if◌then◌else◌, ok, Returns, lookup, delete,
  insert,
}
use ptbridge.Turbotunnel.ClientMap.{len, less, swap, push, up_loop, up, heap_push, send_queue}
use ptbridge.Turbotunnel.PacketConn.{
  given, TaggedPacket, QueuePacketConn, new_queue_packet_conn, offer, outgoing_queue, write_to,
  close_with_error,
}
use ptbridge.Turbotunnel.PacketConn.Queues.{IsConn, outgoing}
use ptbridge.Turbotunnel.PacketConn.Calls.{Leaves, write_to-Leaves}
use ptbridge.Turbotunnel.PacketConn.Closing.{IsShut, close_with_error-IsShut}
use ptbridge.Turbotunnel.PacketConn.Reachable.{start, written, Reachable-IsConn}

-- One packet for the client 7.
abbrev written_one : QueuePacketConn
written_one = record {
  clients = record {
    by_age = (record { addr = 7; last_seen = 100; send_queue = 0 }) ∷ [];
    by_addr = (7, 0) ∷ [];
    next_queue = 1;
  };
  channels = (0, (1 ∷ 2 ∷ []) ∷ []) ∷ [];
  recv_queue = [];
  closed = false;
  close_err = none;
}

writes_one : write_to (1 ∷ 2 ∷ []) 7 100 new_queue_packet_conn ≡ ok (2, written_one)
unfolding write_to outgoing_queue send_queue heap_push push len up up_loop less swap lookup insert
    delete offer
writes_one = refl

Reachable-IsConn_example : IsConn written_one
Reachable-IsConn_example =
    Reachable-IsConn written_one (written start (1 ∷ 2 ∷ []) 7 100 writes_one)

well : IsConn written_one
well = Reachable-IsConn written_one (written start (1 ∷ 2 ∷ []) 7 100 writes_one)

write_to-Leaves_example :
    Returns
      (λ r.
        (r.0 ≡ 1)
        × Leaves
            (λ x.
              if x == 7 then offer (3 ∷ []) (outgoing 7 written_one) else outgoing x written_one)
            r.1)
      (write_to (3 ∷ []) 7 110 written_one)
write_to-Leaves_example = write_to-Leaves (3 ∷ []) 7 110 written_one well refl

close_with_error-IsShut_example :
    Returns (IsShut (given 5)) (close_with_error (some (given 5)) written_one)
close_with_error-IsShut_example = close_with_error-IsShut (some (given 5)) written_one refl

abbrev incoming_two : List TaggedPacket
incoming_two = (record { p = 1 ∷ []; source = 7 }) ∷ (record { p = 2 ∷ []; source = 9 }) ∷ []
