-- ===== src/Session.antt =====
-- snowflake/common/standalone: a client's packets over a WebSocket connection, from the dial of session.go and the
-- packet connection of encap.go to the handler of handler.go, which queues them under the client's number.
-- The WebSocket connection is the bytes that pass. A bufio.Writer that is flushed passes them on in order, and fails
-- as the connection below it does. A client number, eight bytes of crypto/rand, is an argument.
pub mod Relay
pub mod Ends
pub mod Downlink
pub mod Sessions
mod Tests
use ptbridge.Base.{
  ℕ, zero, suc, ◌+◌, ◌*◌, Option, none, some, List, [], ◌∷◌, if◌then◌else◌, length, take, Result,
  ok, err, panic, out_of_fuel, ◌>>=◌, ◌=ˢ◌, IoError, failed, read_full, Sink, write,
}
use ptbridge.Encapsulation
use ptbridge.Encapsulation.{Error, read_data, write_data}
use ptbridge.Turbotunnel.ClientMap.{Run}
use ptbridge.Turbotunnel.PacketConn.{QueuePacketConn, queue_incoming}

-- turbotunnel.Token
abbrev pub token : List ℕ
token = 0x12 ∷ 0x93 ∷ 0x60 ∷ 0x5d ∷ 0x27 ∷ 0x81 ∷ 0x75 ∷ 0xf5 ∷ []

-- A client number as the address that a packet connection keys it by.
abbrev pub number_of : List ℕ → ℕ
number_of [] = 0
number_of (b ∷ bs) = b + 256 * number_of bs

-- The dial of WrapWebSocketDial, over a connection that was dialed; `none` is an error, after which it is closed.
unfoldable pub wrap_dial : List ℕ → Sink → Option Sink
wrap_dial client_id raw =
    let t = write token raw in
    let c = write client_id t.sink in
    if t.failed then none else if c.failed then none else some c.sink

abbrev pub written_by :
    ℕ → Sink → Option Encapsulation.Error → Result Encapsulation.Error (ℕ × Sink)
written_by n s none = ok (n, s)
written_by n s (some e) = err e

-- EncapsulationPacketConn.WriteTo
unfoldable pub encap_write_to : List ℕ → Sink → Result Encapsulation.Error (ℕ × Sink)
encap_write_to p s = written_by (length p) (write_data s p).sink (write_data s p).failure

-- EncapsulationPacketConn.ReadFrom into a buffer of `size` bytes, and the bytes left to read.
unfoldable pub encap_read_from : IoError → ℕ → List ℕ → Result Encapsulation.Error (List ℕ × List ℕ)
encap_read_from stop size src = do (p, rest) ← read_data stop src; ok (take size p, rest)

-- Why serveHTTP returns.
pub data ServeEnd : Type 0 where
  no_token no_client_id : IoError → ServeEnd
  wrong_token : ServeEnd
  read_error : Encapsulation.Error → ServeEnd

-- What a round does with what ReadData returns: QueueIncoming and the rounds after it.
abbrev pub next_packet :
    ℕ
    → QueuePacketConn
    → (List ℕ → QueuePacketConn → Run (ServeEnd × QueuePacketConn))
    → Result Encapsulation.Error (List ℕ × List ℕ)
    → Run (ServeEnd × QueuePacketConn)
next_packet client c rounds (ok (p, rest)) = rounds rest (queue_incoming p client c)
next_packet client c rounds (err e) = ok (read_error e, c)
next_packet client c rounds panic = panic
next_packet client c rounds out_of_fuel = out_of_fuel

-- serveHTTP's reading goroutine
unfoldable pub read_loop :
    ℕ → IoError → ℕ → List ℕ → QueuePacketConn → Run (ServeEnd × QueuePacketConn)
read_loop zero stop client src c = out_of_fuel
read_loop (suc fuel) stop client src c =
    next_packet client c (read_loop fuel stop client) (read_data stop src)

abbrev pub serve_client :
    IoError → QueuePacketConn → Result IoError (List ℕ × List ℕ) → Run (ServeEnd × QueuePacketConn)
serve_client stop c (err e) = ok (no_client_id e, c)
serve_client stop c panic = panic
serve_client stop c out_of_fuel = out_of_fuel
serve_client stop c (ok (client_id, rest)) =
    read_loop (length rest + 1) stop (number_of client_id) rest c

abbrev pub serve_token :
    IoError → QueuePacketConn → Result IoError (List ℕ × List ℕ) → Run (ServeEnd × QueuePacketConn)
serve_token stop c (err e) = ok (no_token e, c)
serve_token stop c panic = panic
serve_token stop c out_of_fuel = out_of_fuel
serve_token stop c (ok (t, rest)) =
    if t =ˢ token then serve_client stop c (read_full stop 8 rest) else ok (wrong_token, c)

-- serveHTTP, as far as it reads: each round of its loop takes a byte at least.
unfoldable pub serve : IoError → List ℕ → QueuePacketConn → Run (ServeEnd × QueuePacketConn)
serve stop src c = serve_token stop c (read_full stop 8 src)

-- serveHTTP's writing goroutine, on the packets that it takes from the client's channel: it ends when one cannot
-- be written.
unfoldable pub write_loop : List (List ℕ) → Sink → Option Encapsulation.Error × Sink
write_loop [] s = (none, s)
write_loop (p ∷ ps) s = elim (write_data s p).failure [
  | none ↦ write_loop ps (write_data s p).sink
  | some e ↦ (some e, (write_data s p).sink)
]
