-- ===== src/Turbotunnel/ClientMap/Tests.antt =====
-- A client map at concrete inputs: the client that is seen later is older, and comes to the root of the heap.
use ptbridge.Base.{◌≡◌, refl, [], ◌∷◌, ok, Returns, Returns-eq, lookup, delete, insert}
use ptbridge.Turbotunnel.ClientMap.{
  ClientMapInner, len, less, swap, push, up_loop, up, heap_push, remove_expired, send_queue,
}
use ptbridge.Turbotunnel.ClientMap.Ops.{IsClientMap, no_clients, no_clients-IsClientMap}
use ptbridge.Turbotunnel.ClientMap.Expiry.{IsExpired, remove_expired-IsExpired}
use ptbridge.Turbotunnel.ClientMap.Calls.{IsSent, send_queue-IsSent}

abbrev one : ClientMapInner
one = record {
  by_age = (record { addr = 7; last_seen = 100; send_queue = 0 }) ∷ [];
  by_addr = (7, 0) ∷ [];
  next_queue = 1;
}

abbrev two : ClientMapInner
two = record {
  by_age =
      (record { addr = 9; last_seen = 50; send_queue = 1 })
      ∷ (record { addr = 7; last_seen = 100; send_queue = 0 })
      ∷ [];
  by_addr = (7, 1) ∷ (9, 0) ∷ [];
  next_queue = 2;
}

send_one : send_queue 7 100 no_clients ≡ ok (0, one)
unfolding send_queue heap_push push len up up_loop less swap lookup insert delete
send_one = refl

one-IsClientMap : IsClientMap one
one-IsClientMap =
    (Returns-eq send_one (send_queue-IsSent 7 100 no_clients no_clients-IsClientMap)).well

send_two : send_queue 9 50 one ≡ ok (1, two)
unfolding send_queue heap_push push len up up_loop less swap lookup insert delete
send_two = refl

two-IsClientMap : IsClientMap two
two-IsClientMap = (Returns-eq send_two (send_queue-IsSent 9 50 one one-IsClientMap)).well

send_queue-IsSent_example : Returns (IsSent 9 50 one) (send_queue 9 50 one)
send_queue-IsSent_example = send_queue-IsSent 9 50 one one-IsClientMap

remove_expired-IsExpired_example : Returns (IsExpired 130 60 two) (remove_expired 130 60 two)
remove_expired-IsExpired_example = remove_expired-IsExpired 130 60 two two-IsClientMap
