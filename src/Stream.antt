-- ===== src/Stream.antt =====
-- snowflake/common/standalone/stream.go: the header of a stream, which names the target that the
-- other side dials. `w` and `r` are the two directions of a connection.
pub mod Target
mod Tests
use ptbridge.Base.{
  ℕ, ◌+◌, ◌*◌, ◌/◌, ◌%◌, ◌^◌, ◌≡◌, List, [], ◌∷◌, ◌++◌, Option, some, none, Bool, true, false,
  if◌then◌else◌, ◌==◌, ltb, Result, ok, err, ◌>>=◌, ◌>>◌, length, byte_at, put_u16, text,
}
use ptbridge.Socks5.{
  Net, Ip, v4, v6, ip_bytes, Error, hostname_too_long, Conn, receive, send, read_host, read_port,
}
use ptbridge.Socks5

abbrev pub stream_client_dial : ℕ
stream_client_dial = 1

abbrev pub stream_server_dial : ℕ
stream_server_dial = 2

abbrev pub stream_forward : ℕ
stream_forward = 3

abbrev pub no_target : Socks5.Target
no_target = record { network = []; host = []; port = 0 }

-- The address type and the bytes of the address, by what ParseIP finds in the host.
abbrev pub address_by : Option Ip → List ℕ → ℕ × List ℕ
address_by (some (v4 b)) host = (0x01, b)
address_by (some (v6 b)) host = (0x04, b)
address_by none host = (0x03, host)

abbrev pub address_of : Net → List ℕ → ℕ × List ℕ
address_of net host = address_by (net.parse_ip host) host

-- The second switch of WriteTarget; of the three types only a name has a length before it.
unfoldable pub write_address : ℕ → List ℕ → Conn → Result Error Conn
write_address atyp addr c =
    let name : Result Error Conn = do c' ← send ((length addr % 256) ∷ []) c; send addr c'
    in if atyp == 0x03
      then (if ltb 255 (length addr) then err hostname_too_long else name)
      else send addr c

unfoldable pub write_target : Net → ℕ → Socks5.Target → Conn → Result Error Conn
write_target net stream_type target c = do
  c1 ← send (stream_type ∷ []) c
  let address = address_of net target.host
  let rest : Result Error Conn = do
    c2 ← send (address.0 ∷ []) c1
    c3 ← write_address address.0 address.1 c2
    send (put_u16 target.port) c3
  if stream_type == stream_forward then ok c1 else rest

-- ReadTarget reads the host as HandshakeServer does: the two switches are the same text.
unfoldable pub read_target : Net → Conn → Result Error (ℕ × Socks5.Target × Conn)
read_target net c = do
  (stream_type, c1) ← receive 1 c
  let dial : Result Error (ℕ × Socks5.Target × Conn) = do
    (atyp, c2) ← receive 1 c1
    (host, c3) ← read_host net (byte_at atyp 0) c2
    (port, c4) ← read_port c3
    ok (byte_at stream_type 0, record { network = text "tcp"; host = host; port = port }, c4)
  if byte_at stream_type 0 == stream_forward
      then ok (byte_at stream_type 0, no_target, c1)
      else dial
