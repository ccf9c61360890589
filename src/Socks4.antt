-- ===== src/Socks4.antt =====
-- proxy/socks4a/socks4.go: dialing through a SOCKS4 proxy. The parts of package net and strconv that take
-- the address apart are the parameter `Names`; the dialer in front gives the connection to the proxy.
pub mod Dial
mod Tests
use ptbridge.Base.{
  ℕ, ◌+◌, ◌*◌, ◌/◌, ◌%◌, ◌==◌, List, [], ◌∷◌, ◌++◌, length, Option, some, none, Bool, true, false,
  ◌||◌, not, Result, ok, err, panic, out_of_fuel, ◌>>=◌, ◌>>◌, guard, map_err, text, ◌=ˢ◌, byte_at,
  if◌then◌else◌,
}
use ptbridge.Socks5
use ptbridge.Socks5.{Ip, v4, v6, Conn, receive, send}

abbrev pub version4 : ℕ
version4 = 0x04

abbrev pub command_connect : ℕ
command_connect = 0x01

abbrev pub reply_version : ℕ
reply_version = 0x00

abbrev pub granted : ℕ
granted = 0x5a

-- net.SplitHostPort, net.ParseIP and strconv.ParseUint(s, 10, 16)
pub record Names : Type 0 where
  pub split_host_port : List ℕ → Option (List ℕ × List ℕ)
  pub parse_ip : List ℕ → Option Ip
  pub parse_port : List ℕ → Option ℕ

-- `rejected` carries the code of the reply.
pub data Error : Type 0 where
  invalid_network bad_address no_ip not_ipv4 bad_port dial_failed invalid_version : Error
  rejected : ℕ → Error
  conn : Socks5.Error → Error

abbrev pub or_fail {ℓ} : {A : Type ℓ} → Error → Option A → Result Error A
or_fail e none = err e
or_fail e (some a) = ok a

-- ip.To4()
abbrev pub to4 : Ip → Option (List ℕ)
to4 (v4 b) = some b
to4 (v6 b) = none

-- The four bytes and the port of the address that is dialed.
unfoldable pub destination : Names → List ℕ → List ℕ → Result Error (List ℕ × ℕ)
destination names network addr = do
  guard (network =ˢ text "tcp" || network =ˢ text "tcp4") invalid_network
  (ip_str, port_str) ← or_fail bad_address (names.split_host_port addr)
  ip ← or_fail no_ip (names.parse_ip ip_str)
  ip4 ← or_fail not_ipv4 (to4 ip)
  port ← or_fail bad_port (names.parse_port port_str)
  ok (ip4, port)

abbrev pub request_bytes : List ℕ → List ℕ → ℕ → List ℕ
request_bytes username ip4 port =
    version4
    ∷ command_connect
    ∷ (port / 256 % 256)
    ∷ (port % 256)
    ∷ (ip4 ++ (username ++ (0x00 ∷ [])))

-- The request and the reply on the connection to the proxy.
unfoldable pub exchange_request : List ℕ → List ℕ → ℕ → Conn → Result Error Conn
exchange_request username ip4 port c = do
  c1 ← map_err conn (send (request_bytes username ip4 port) c)
  (resp, c2) ← map_err conn (receive 8 c1)
  guard (byte_at resp 0 == reply_version) invalid_version
  guard (byte_at resp 1 == granted) (rejected (byte_at resp 1))
  ok c2

-- Dial, with the connection that the dialer in front gives, or `none` for its error.
unfoldable pub dial : Names → List ℕ → Option Conn → List ℕ → List ℕ → Result Error Conn
dial names username forward network addr = do
  (ip4, port) ← destination names network addr
  c ← or_fail dial_failed forward
  exchange_request username ip4 port c
