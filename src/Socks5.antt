-- ===== src/Socks5.antt =====
-- snowflake/common/socks5/socks5.go: the server side of a SOCKS5 CONNECT.
-- The text of an IP address is package net's, and enters as the parameter `Net`.
pub mod Wire
pub mod Accepts
pub mod Sound
mod Tests
use ptbridge.Base.{
  ℕ, ◌+◌, ◌≡◌, List, [], ◌∷◌, ◌++◌, Option, some, none, Bool, true, false, if◌then◌else◌, ◌==◌,
  Result, ok, err, ◌>>=◌, ◌>>◌, map_err, guard, IoError, read_full, Sink, Wrote, write, text,
  byte_at, u16, length,
}

-- An IP address as net.ParseIP finds it: with To4() or without.
pub data Ip : Type 0 where
  v4 v6 : List ℕ → Ip

abbrev pub ip_bytes : Ip → List ℕ
ip_bytes (v4 b) = b
ip_bytes (v6 b) = b

-- net.IP(b).String() and net.ParseIP.
pub record Net : Type 0 where
  pub ip_string : List ℕ → List ℕ
  pub parse_ip : List ℕ → Option Ip

abbrev pub version5 : ℕ
version5 = 0x05

abbrev pub cmd_connect : ℕ
cmd_connect = 0x01

abbrev pub atyp_ipv4 : ℕ
atyp_ipv4 = 0x01

abbrev pub atyp_domain : ℕ
atyp_domain = 0x03

abbrev pub atyp_ipv6 : ℕ
atyp_ipv6 = 0x04

pub data Error : Type 0 where
  unsupported_version unsupported_command unsupported_addr hostname_too_long write_failed : Error
  io : IoError → Error

pub record Target : Type 0 where
  pub network : List ℕ
  pub host : List ℕ
  pub port : ℕ

-- A connection: what the peer still sends, how that ends, and what was sent to the peer.
pub record Conn : Type 0 where
  pub incoming : List ℕ
  pub stop : IoError
  pub out : Sink

-- io.ReadFull(conn, b) and conn.Write(b)
unfoldable pub receive : ℕ → Conn → Result Error (List ℕ × Conn)
receive n c = do
  (p, rest) ← map_err io (read_full c.stop n c.incoming)
  ok (p, record c { incoming = rest })

unfoldable pub send : List ℕ → Conn → Result Error Conn
send p c =
    if (write p c.out).failed
    then err write_failed
    else ok (record c { out = (write p c.out).sink })

-- The switch on the address type, which ReadTarget of standalone/stream.go repeats.
unfoldable pub read_host : Net → ℕ → Conn → Result Error (List ℕ × Conn)
read_host net atyp c =
    let ipv4 : Result Error (List ℕ × Conn) = do (ip, c') ← receive 4 c; ok (net.ip_string ip, c')
    in let domain : Result Error (List ℕ × Conn) = do
      (len_byte, c') ← receive 1 c
      (name, c'') ← receive (byte_at len_byte 0) c'
      ok (name, c'')
      in let ipv6 : Result Error (List ℕ × Conn) = do
        (ip, c') ← receive 16 c
        ok (net.ip_string ip, c')
        in if atyp == atyp_ipv4
          then ipv4
          else if atyp == atyp_domain
          then domain
          else if atyp == atyp_ipv6
          then ipv6
          else err unsupported_addr

unfoldable pub read_port : Conn → Result Error (ℕ × Conn)
read_port c = do
  (port_bytes, c') ← receive 2 c
  ok (u16 (byte_at port_bytes 0) (byte_at port_bytes 1), c')

-- The method negotiation, up to the reply "no authentication".
unfoldable pub negotiate : Conn → Result Error Conn
negotiate c = do
  (hdr, c1) ← receive 2 c
  guard (byte_at hdr 0 == version5) unsupported_version
  (methods, c2) ← receive (byte_at hdr 1) c1
  send (version5 ∷ 0x00 ∷ []) c2

-- The request, up to the reserved byte and the address type, which is returned.
unfoldable pub read_request : Conn → Result Error (ℕ × Conn)
read_request c = do
  (hdr, c1) ← receive 2 c
  guard (byte_at hdr 0 == version5) unsupported_version
  guard (byte_at hdr 1 == cmd_connect) unsupported_command
  (rsv, c2) ← receive 1 c1
  (atyp, c3) ← receive 1 c2
  ok (byte_at atyp 0, c3)

unfoldable pub handshake_server : Net → Conn → Result Error (Target × Conn)
handshake_server net c = do
  c1 ← negotiate c
  (atyp, c2) ← read_request c1
  (host, c3) ← read_host net atyp c2
  (port, c4) ← read_port c3
  ok (record { network = text "tcp"; host = host; port = port }, c4)

unfoldable pub reply_connect_success : Conn → Result Error Conn
reply_connect_success c = send (version5 ∷ 0x00 ∷ 0x00 ∷ atyp_ipv4 ∷ 0 ∷ 0 ∷ 0 ∷ 0 ∷ 0 ∷ 0 ∷ []) c

unfoldable pub reply_connect_failed : Conn → Result Error Conn
reply_connect_failed c = send (version5 ∷ 0x01 ∷ 0x00 ∷ atyp_ipv4 ∷ 0 ∷ 0 ∷ 0 ∷ 0 ∷ 0 ∷ 0 ∷ []) c
