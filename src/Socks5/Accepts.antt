-- ===== src/Socks5/Accepts.antt =====
-- The handshake accepts every well-formed client.
use ptbridge.Base.{
  ℕ, ◌≤◌, ◌≡◌, List, [], ◌∷◌, ◌++◌, length, ok, read_full-append, write_fits, Sink, text, u16,
  IoError,
}
use ptbridge.Socks5.{
  Net, Conn, receive, send, read_host, read_port, negotiate, read_request, handshake_server,
  version5, cmd_connect,
}
use ptbridge.Socks5.Wire.{
  Address, ipv4, domain, ipv6, IsAddress, atyp_of, body_of, host_of, greeting, connect_request,
  sent,
}

module _ (stop : IoError) (out : Sink) where
  -- the connection on which the client still sends `src`
  abbrev pub from : List ℕ → Conn
  from src = record { incoming = src; stop = stop; out = out }

  pub receive-append : (p rest : List ℕ) → receive (length p) (from (p ++ rest)) ≡ ok (p, from rest)
  unfolding receive
  receive-append p rest = rw read_full-append

  pub receive_size :
      (n : ℕ) (p rest : List ℕ) → length p ≡ n → receive n (from (p ++ rest)) ≡ ok (p, from rest)
  receive_size n p rest e = rw (← e) (receive-append p rest)

  pub send_fits :
      (p src : List ℕ)
      → length p ≤ out.room
      → send p (from src) ≡ ok (record { incoming = src; stop = stop; out = sent p out })
  unfolding send
  send_fits p src h = rw (write_fits p out h)

  pub read_host-address :
      (net : Net) (a : Address) (rest : List ℕ)
      → IsAddress a
      → read_host net (atyp_of a) (from (body_of a ++ rest)) ≡ ok (host_of net a, from rest)
  unfolding read_host
  read_host-address net (ipv4 b) rest h = rw (receive_size 4 b rest h)
  read_host-address net (domain b) rest h =
      rw (receive-append (length b ∷ []) (b ++ rest), receive-append b rest)
  read_host-address net (ipv6 b) rest h = rw (receive_size 16 b rest h)

  pub read_port-bytes :
      (hi lo : ℕ) (rest : List ℕ) → read_port (from (hi ∷ lo ∷ rest)) ≡ ok (u16 hi lo, from rest)
  unfolding read_port
  read_port-bytes hi lo rest = rw (receive-append (hi ∷ lo ∷ []) rest)

  pub read_request-connect :
      (rsv atyp : ℕ) (rest : List ℕ)
      → read_request (from (version5 ∷ cmd_connect ∷ rsv ∷ atyp ∷ rest)) ≡ ok (atyp, from rest)
  unfolding read_request
  read_request-connect rsv atyp rest = rw (
    receive-append (version5 ∷ cmd_connect ∷ []) (rsv ∷ atyp ∷ rest),
    receive-append (rsv ∷ []) (atyp ∷ rest),
    receive-append (atyp ∷ []) rest,
  )

  pub negotiate-greeting :
      (methods rest : List ℕ)
      → 2 ≤ out.room
      → negotiate (from (greeting methods rest))
        ≡ ok (record { incoming = rest; stop = stop; out = sent (version5 ∷ 0x00 ∷ []) out })
  unfolding negotiate
  negotiate-greeting methods rest h = rw (
    receive-append (version5 ∷ length methods ∷ []) (methods ++ rest),
    receive-append methods rest,
    send_fits (version5 ∷ 0x00 ∷ []) rest h,
  )

-- A client that offers any methods and sends a CONNECT to any address of the three kinds gets the reply
-- "version 5, no authentication", and the target is the address it sent, with the port of its two bytes; what it
-- sends after that is left to be read.
pub handshake_accepts :
    (net : Net) (stop : IoError) (out : Sink) (methods : List ℕ) (rsv : ℕ) (a : Address) (hi lo : ℕ)
    (rest : List ℕ)
    → 2 ≤ out.room
    → IsAddress a
    → handshake_server net (from stop out (greeting methods (connect_request rsv a hi lo rest)))
      ≡ ok (
        record { network = text "tcp"; host = host_of net a; port = u16 hi lo },
        from stop (sent (version5 ∷ 0x00 ∷ []) out) rest,
      )
unfolding handshake_server
handshake_accepts net stop out methods rsv a hi lo rest room h =
    let after = sent (version5 ∷ 0x00 ∷ []) out in
    rw (
      negotiate-greeting stop out methods (connect_request rsv a hi lo rest) room,
      read_request-connect stop after rsv (atyp_of a) (body_of a ++ (hi ∷ lo ∷ rest)),
      read_host-address stop after net a (hi ∷ lo ∷ rest) h,
      read_port-bytes stop after hi lo rest,
    )
