-- ===== src/Socks4/Dial.antt =====
-- When Dial succeeds, and what the proxy then was sent.
use ptbridge.Base.{
  ◌+◌, ◌*◌, ◌<◌, ◌/◌, ◌%◌, [], ℕ, ◌==◌, ◌≤◌, ◌≡◌, refl, List, ◌∷◌, ◌++◌, length, some, Bool, true,
  false, ◌||◌, ok, err, ◌>>◌, guard, IoError, Sink, text, ◌=ˢ◌, if◌then◌else◌, arith,
}
use ptbridge.Socks5.{v4}
use ptbridge.Socks5.Wire.{sent}
use ptbridge.Socks5.Accepts.{from, receive_size, send_fits}
use ptbridge.Socks4.{
  Names, rejected, reply_version, granted, destination, request_bytes, exchange_request, dial,
}

guard-if {ε ℓ} :
    {E : Type ε} {A : Type ℓ} (b : Bool) (e : E) (a : A)
    → (guard b e >> ok a) ≡ (if b then ok a else err e)
guard-if true e a = refl
guard-if false e a = refl

-- A CONNECT request of SOCKS4: version 4, command 1, the port with its high byte first, the address, and the user name
-- up to a zero byte.
abbrev pub connect4 : (hi lo : ℕ) → (ip4 username : List ℕ) → List ℕ
connect4 hi lo ip4 username = 4 ∷ 1 ∷ hi ∷ lo ∷ (ip4 ++ (username ++ (0 ∷ [])))

request_bytes-connect4 :
    (username ip4 : List ℕ) (hi lo : ℕ)
    → hi < 256
    → lo < 256
    → request_bytes username ip4 (hi * 256 + lo) ≡ connect4 hi lo ip4 username
request_bytes-connect4 username ip4 hi lo high low =
    let first : (hi * 256 + lo) / 256 % 256 ≡ hi = omega arith in
    let second : (hi * 256 + lo) % 256 ≡ lo = omega arith in rw (first, second) refl

-- On a connection with room for the request, and on which the proxy answers eight bytes of version 0: Dial to an IPv4
-- address and a port of the bytes `hi` and `lo` returns the connection exactly if the code is 0x5a, and else an error
-- with the code. On the connection that it returns, a CONNECT request of SOCKS4 for that port, address and user name was
-- written and nothing else, and the reply was read and nothing behind it.
pub dial_lem :
    (names : Names) (username network addr ip_str port_str ip4 : List ℕ) (hi lo code : ℕ)
    (tail rest : List ℕ) (stop : IoError) (out : Sink)
    → (network =ˢ text "tcp" || network =ˢ text "tcp4") ≡ true
    → names.split_host_port addr ≡ some (ip_str, port_str)
    → names.parse_ip ip_str ≡ some (v4 ip4)
    → names.parse_port port_str ≡ some (hi * 256 + lo)
    → hi < 256
    → lo < 256
    → length (connect4 hi lo ip4 username) ≤ out.room
    → length tail ≡ 6
    → dial names username
        (some (from stop out (reply_version ∷ code ∷ (tail ++ rest))))
        network
        addr
      ≡ (if code == granted
          then ok (from stop (sent (connect4 hi lo ip4 username) out) rest)
          else err (rejected code))
unfolding dial destination exchange_request
dial_lem names username network addr ip_str port_str ip4 hi lo code tail rest stop out hn hs hp hq
      high low room size =
    let reply : length (reply_version ∷ code ∷ tail) ≡ 8 = omega arith in
    rw
      (
        hn,
        hs,
        hp,
        hq,
        request_bytes-connect4 username ip4 hi lo high low,
        send_fits stop out (connect4 hi lo ip4 username) (reply_version ∷ code ∷ (tail ++ rest))
            room,
        receive_size stop (sent (connect4 hi lo ip4 username) out) 8 (reply_version ∷ code ∷ tail)
            rest reply,
      )
      (guard-if (code == granted) (rejected code)
        (from stop (sent (connect4 hi lo ip4 username) out) rest))
