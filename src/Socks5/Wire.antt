-- ===== src/Socks5/Wire.antt =====
-- RFC 1928 as the server uses it: the bytes of a greeting and of a CONNECT request.
use ptbridge.Base.{ℕ, ◌-◌, ◌<◌, ◌≡◌, List, ◌∷◌, ◌++◌, length, Sink}
use ptbridge.Socks5.{Net, version5, cmd_connect, atyp_ipv4, atyp_domain, atyp_ipv6}

pub data Address : Type 0 where
  ipv4 domain ipv6 : List ℕ → Address

abbrev pub IsAddress : Address → Type 0
IsAddress (ipv4 b) = length b ≡ 4
IsAddress (domain b) = length b < 256
IsAddress (ipv6 b) = length b ≡ 16

abbrev pub atyp_of : Address → ℕ
atyp_of (ipv4 b) = atyp_ipv4
atyp_of (domain b) = atyp_domain
atyp_of (ipv6 b) = atyp_ipv6

-- The address behind its type.
abbrev pub body_of : Address → List ℕ
body_of (ipv4 b) = b
body_of (domain b) = length b ∷ b
body_of (ipv6 b) = b

-- The host of a Target, as text.
abbrev pub host_of : Net → Address → List ℕ
host_of net (ipv4 b) = net.ip_string b
host_of net (domain b) = b
host_of net (ipv6 b) = net.ip_string b

-- What a client sends up to `rest`.
abbrev pub greeting : List ℕ → List ℕ → List ℕ
greeting methods rest = version5 ∷ length methods ∷ (methods ++ rest)

abbrev pub connect_request : ℕ → Address → ℕ → ℕ → List ℕ → List ℕ
connect_request rsv a hi lo rest =
    version5 ∷ cmd_connect ∷ rsv ∷ atyp_of a ∷ (body_of a ++ (hi ∷ lo ∷ rest))

abbrev pub sent : List ℕ → Sink → Sink
sent p s = record { written = s.written ++ p; room = s.room - length p }
