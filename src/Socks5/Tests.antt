-- ===== src/Socks5/Tests.antt =====
-- A concrete handshake, and the theorems at it.
use ptbridge.Base.{ℕ, ◌≡◌, List, [], ◌∷◌, none, ok, eof, Sink, text, u16, arith}
use ptbridge.Socks5.{Net, Target, Conn, handshake_server, version5}
use ptbridge.Socks5.Wire.{Address, domain, IsAddress, host_of, greeting, connect_request, sent}
use ptbridge.Socks5.Accepts.{from, handshake_accepts}
use ptbridge.Socks5.Sound.{handshake_sound}

-- Addresses as the text of their bytes, and no text is one.
abbrev net : Net
net = record { ip_string = λ b. b; parse_ip = λ h. none }

abbrev out : Sink
out = record { written = []; room = 12 }

abbrev host : List ℕ
host = 97 ∷ 46 ∷ 98 ∷ []

abbrev client : Conn
client = from eof out (greeting (0 ∷ 2 ∷ []) (connect_request 0 (domain host) 1 187 (22 ∷ [])))

handshake_accepts_example :
    handshake_server net client
    ≡ ok (
      record { network = text "tcp"; host = host; port = 443 },
      from eof (sent (version5 ∷ 0x00 ∷ []) out) (22 ∷ []),
    )
handshake_accepts_example =
    handshake_accepts net eof out (0 ∷ 2 ∷ []) 0 (domain host) 1 187 (22 ∷ []) (omega arith)
      (omega arith)

abbrev target : Target
target = record { network = text "tcp"; host = host; port = 443 }

handshake_sound_example :
    (methods : List ℕ) × (rsv : ℕ) × (a : Address) × (hi lo : ℕ) × IsAddress a
    × (target ≡ record { network = text "tcp"; host = host_of net a; port = u16 hi lo })
    × (client.incoming ≡ greeting methods (connect_request rsv a hi lo (22 ∷ [])))
    × (sent (version5 ∷ 0x00 ∷ []) out ≡ sent (version5 ∷ 0x00 ∷ []) out)
handshake_sound_example =
    handshake_sound net client (from eof (sent (version5 ∷ 0x00 ∷ []) out) (22 ∷ [])) target
      (omega arith) handshake_accepts_example
