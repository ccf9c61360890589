-- ===== src/Turbotunnel/PacketConn.antt =====
-- snowflake/common/turbotunnel/queuepacketconn.go: a packet connection made of one queue of incoming packets and
-- of one queue of outgoing packets for each client. A queue is a channel of `queue_size` places; a send with a
-- `default` case drops the packet when they are taken, and a receive from an empty channel waits.
-- A call is one step of the connection: a close that comes while ReadFrom waits is a ReadFrom after the close.
pub mod Queues
pub mod Sent
pub mod Calls
pub mod Closing
pub mod Reachable
mod Tests
use ptbridge.Base.{
  ℕ, Bool, true, false, Option, none, some, List, [], ◌∷◌, ◌++◌, ltb, if◌then◌else◌, length, take,
  Result, ok, err, panic, ◌>>=◌, map_err, lookup, insert,
}
use ptbridge.Turbotunnel.ClientMap.{ClientMapInner, Run, remove_expired, send_queue}

abbrev pub queue_size : ℕ
queue_size = 32

-- The error of a closed connection, or the one that the caller of closeWithError gave.
pub data CloseError : Type 0 where
  err_closed_packet_conn : CloseError
  given : ℕ → CloseError

pub data Op : Type 0 where
  op_read op_write op_close : Op

-- net.OpError
pub record OpError : Type 0 where
  pub op : Op
  pub cause : CloseError

pub record TaggedPacket : Type 0 where
  pub p : List ℕ
  pub source : ℕ

-- The contents of the send queues stand with the number of each channel.
pub record QueuePacketConn : Type 0 where
  pub clients : ClientMapInner
  pub channels : List (ℕ × List (List ℕ))
  pub recv_queue : List TaggedPacket
  pub closed : Bool
  pub close_err : Option CloseError

-- NewQueuePacketConn, with the client map of NewClientMap
abbrev pub new_queue_packet_conn : QueuePacketConn
new_queue_packet_conn = record {
  clients = record { by_age = []; by_addr = []; next_queue = 0 };
  channels = [];
  recv_queue = [];
  closed = false;
  close_err = none;
}

-- A send that does not wait.
unfoldable pub offer {ℓ} : {A : Type ℓ} → A → List A → List A
offer x xs = if ltb (length xs) queue_size then xs ++ (x ∷ []) else xs

abbrev pub contents_by : Option (List (List ℕ)) → List (List ℕ)
contents_by none = []
contents_by (some xs) = xs

-- The packets in a channel; a new channel has none.
abbrev pub contents : ℕ → List (ℕ × List (List ℕ)) → List (List ℕ)
contents q channels = contents_by (lookup q channels)

-- `c.err.Load().(error)` of an error that was not stored is a panic.
abbrev pub op_error {ℓ} : {A : Type ℓ} → Op → Option CloseError → Result OpError A
op_error op none = panic
op_error op (some e) = err (record { op = op; cause = e })

unfoldable pub queue_incoming : List ℕ → ℕ → QueuePacketConn → QueuePacketConn
queue_incoming p source c =
    if c.closed
    then c
    else record c { recv_queue = offer (record { p = p; source = source }) c.recv_queue }

-- A call of the client map, which has no error.
abbrev pub run {ℓ} : {A : Type ℓ} → Run A → Result OpError A
run r = map_err (λ e. absurd e) r

-- OutgoingQueue: the number of the channel.
unfoldable pub outgoing_queue : ℕ → ℕ → QueuePacketConn → Result OpError (ℕ × QueuePacketConn)
outgoing_queue addr now c = do
  (q, clients') ← run (send_queue addr now c.clients)
  ok (q, record c { clients = clients' })

abbrev pub read_next :
    QueuePacketConn → ℕ → List TaggedPacket → Option (List ℕ × ℕ × QueuePacketConn)
read_next c size [] = none
read_next c size (packet ∷ rest) =
    some (take size packet.p, packet.source, record c { recv_queue = rest })

-- ReadFrom into a buffer of `size` bytes; `none` is a call that waits.
unfoldable pub read_from :
    ℕ → QueuePacketConn → Result OpError (Option (List ℕ × ℕ × QueuePacketConn))
read_from size c =
    if c.closed then op_error op_read c.close_err else ok (read_next c size c.recv_queue)

-- WriteTo
unfoldable pub write_to : List ℕ → ℕ → ℕ → QueuePacketConn → Result OpError (ℕ × QueuePacketConn)
write_to p addr now c = do
  let send = do
    (q, c') ← outgoing_queue addr now c
    ok (length p, record c' { channels = insert q (offer p (contents q c'.channels)) c'.channels })
  if c.closed then op_error op_write c.close_err else send

abbrev pub or_closed : Option CloseError → CloseError
or_closed none = err_closed_packet_conn
or_closed (some e) = e

-- closeWithError; the body of closeOnce.Do runs in the first call.
unfoldable pub close_with_error :
    Option CloseError → QueuePacketConn → Result OpError QueuePacketConn
close_with_error e c =
    if c.closed
    then op_error op_close c.close_err
    else ok (record c { closed = true; close_err = some (or_closed e) })

abbrev pub close : QueuePacketConn → Result OpError QueuePacketConn
close c = close_with_error none c

-- The round of NewClientMap's goroutine.
unfoldable pub expire : ℕ → ℕ → QueuePacketConn → Result OpError QueuePacketConn
expire now timeout c = do
  clients' ← run (remove_expired now timeout c.clients)
  ok (record c { clients = clients' })

-- A receive from the channel of OutgoingQueue, of which `none` waits.
abbrev pub receive_by : ℕ → QueuePacketConn → List (List ℕ) → Option (List ℕ × QueuePacketConn)
receive_by q c [] = none
receive_by q c (p ∷ rest) = some (p, record c { channels = insert q rest c.channels })

unfoldable pub receive : ℕ → QueuePacketConn → Option (List ℕ × QueuePacketConn)
receive q c = receive_by q c (contents q c.channels)
