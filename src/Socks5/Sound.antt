-- ===== src/Socks5/Sound.antt =====
-- A handshake that succeeds was with a well-formed client, and the handshake ends on any input.
use ptbridge.Base.{
  ℕ, ◌<◌, ◌≡◌, inl, inr, refl, Bool, true, false, Bool-cases, List, [], ◌∷◌, ◌++◌, length,
  take-append-drop, length-take, arith, Result, ok, ◌>>=◌, ◌>>◌, guard, >>=-eq-ok, read_full, write,
  text, u16, byte_at, AreBytes, All-suffix, IsByte, ◌==◌, Settles, Settles-bind, Settles-guard,
  Settles-if,
}
use ptbridge.Socks5.{
  Net, Error, Target, Conn, receive, send, read_host, read_port, negotiate, read_request,
  handshake_server, version5, cmd_connect, atyp_ipv4, atyp_domain, atyp_ipv6,
}
use ptbridge.Socks5.Wire.{
  Address, ipv4, domain, ipv6, IsAddress, atyp_of, body_of, host_of, greeting, connect_request,
  sent,
}

-- `c'` is `c` after the bytes `p` were read.
abbrev Took : List ℕ → Conn → Conn → Type 0
Took p c c' = (c.incoming ≡ p ++ c'.incoming) × (c'.stop ≡ c.stop) × (c'.out ≡ c.out)

receive_sound :
    (n : ℕ) (c c' : Conn) (p : List ℕ) → receive n c ≡ ok (p, c') → Took p c c' × (length p ≡ n)
unfolding receive read_full
receive_sound n c c' p e = ground (arith, take-append-drop n c.incoming, length-take n c.incoming)

one_byte : (p : List ℕ) → length p ≡ 1 → p ≡ byte_at p 0 ∷ []
one_byte [] h = absurd (omega arith)
one_byte (a ∷ []) h = refl
one_byte (a ∷ b ∷ p) h = absurd (omega arith)

two_bytes : (p : List ℕ) → length p ≡ 2 → p ≡ byte_at p 0 ∷ byte_at p 1 ∷ []
two_bytes [] h = absurd (omega arith)
two_bytes (a ∷ []) h = absurd (omega arith)
two_bytes (a ∷ b ∷ []) h = refl
two_bytes (a ∷ b ∷ d ∷ p) h = absurd (omega arith)

send_sound :
    (p : List ℕ) (c c' : Conn)
    → send p c ≡ ok c'
    → (c'.incoming ≡ c.incoming) × (c'.stop ≡ c.stop) × (c'.out ≡ sent p c.out)
unfolding send write
send_sound p c c' e = ground arith

guard-true :
    (b : Bool) (x : Error) {A : Type 0} (k : Result Error A) (a : A)
    → (guard b x >> k) ≡ ok a
    → (b ≡ true) × (k ≡ ok a)
guard-true true x k a e = (refl, e)
guard-true false x k a e = cc

negotiate_sound :
    (c c' : Conn)
    → negotiate c ≡ ok c'
    → (methods : List ℕ) × (c.incoming ≡ greeting methods c'.incoming)
      × (c'.stop ≡ c.stop)
      × (c'.out ≡ sent (version5 ∷ 0x00 ∷ []) c.out)
unfolding negotiate
negotiate_sound c c' e =
    let ((hdr, c1), r1, e1) = >>=-eq-ok (receive 2 c) _ e in
    let (version, e2) = guard-true (byte_at hdr 0 == version5) _ _ c' e1 in
    let ((methods, c2), r2, e3) = >>=-eq-ok (receive (byte_at hdr 1) c1) _ e2 in
    let (took1, size1) = receive_sound 2 c c1 hdr r1 in
    let (took2, size2) = receive_sound (byte_at hdr 1) c1 c2 methods r2 in
    let kept = send_sound _ c2 c' e3 in
    (methods, ground (arith, two_bytes hdr), ground arith, ground arith)

read_request_sound :
    (c c' : Conn) (atyp : ℕ)
    → read_request c ≡ ok (atyp, c')
    → (rsv : ℕ) × Took (version5 ∷ cmd_connect ∷ rsv ∷ atyp ∷ []) c c'
unfolding read_request
read_request_sound c c' atyp e =
    let ((hdr, c1), r1, e1) = >>=-eq-ok (receive 2 c) _ e in
    let (version, e2) = guard-true (byte_at hdr 0 == version5) _ _ (atyp, c') e1 in
    let (command, e3) = guard-true (byte_at hdr 1 == cmd_connect) _ _ (atyp, c') e2 in
    let ((rsv, c2), r2, e4) = >>=-eq-ok (receive 1 c1) _ e3 in
    let ((at, c3), r3, e5) = >>=-eq-ok (receive 1 c2) _ e4 in
    let (took1, size1) = receive_sound 2 c c1 hdr r1 in
    let (took2, size2) = receive_sound 1 c1 c2 rsv r2 in
    let (took3, size3) = receive_sound 1 c2 c3 at r3 in
    (
      byte_at rsv 0,
      (ground (arith, two_bytes hdr, one_byte rsv, one_byte at), ground arith, ground arith),
    )

read_port_sound :
    (c c' : Conn) (port : ℕ)
    → read_port c ≡ ok (port, c')
    → (hi lo : ℕ) × (port ≡ u16 hi lo) × Took (hi ∷ lo ∷ []) c c'
unfolding read_port
read_port_sound c c' port e =
    let ((p, c1), r1, e1) = >>=-eq-ok (receive 2 c) _ e in
    let (took1, size1) = receive_sound 2 c c1 p r1 in
    (
      byte_at p 0,
      byte_at p 1,
      ground arith,
      (ground (arith, two_bytes p), ground arith, ground arith),
    )

-- What a host that was read stands for.
abbrev IsHost : Net → ℕ → List ℕ → Conn → Conn → Type 0
IsHost net atyp host c c' =
    (a : Address) × IsAddress a
    × (atyp ≡ atyp_of a)
    × (host ≡ host_of net a)
    × Took (body_of a) c c'

read_ip_sound :
    (net : Net) (n : ℕ) (c c' : Conn) (host : List ℕ)
    → ◌>>=◌ {B = List ℕ × Conn} (receive n c) (λ (ip, d). ok (net.ip_string ip, d)) ≡ ok (host, c')
    → (ip : List ℕ) × (length ip ≡ n) × (host ≡ net.ip_string ip) × Took ip c c'
read_ip_sound net n c c' host e =
    let ((ip, c1), r1, e1) = >>=-eq-ok (receive n c) _ e in
    let (took1, size1) = receive_sound n c c1 ip r1 in
    (ip, size1, ground arith, (ground arith, ground arith, ground arith))

pub read_host_sound :
    (net : Net) (atyp : ℕ) (c c' : Conn) (host : List ℕ)
    → AreBytes c.incoming
    → read_host net atyp c ≡ ok (host, c')
    → IsHost net atyp host c c'
unfolding read_host
read_host_sound net atyp c c' host hb e = elim (Bool-cases (atyp == atyp_ipv4)) [
  | inl is4 ↦
      let (ip, size, same, took) = read_ip_sound net 4 c c' host (rw is4 at e) in
      (ipv4 ip, size, ground arith, same, took)
  | inr not4 ↦ elim (Bool-cases (atyp == atyp_domain)) [
    | inl is_name ↦
        let ((len_byte, c1), r1, e1) = >>=-eq-ok (receive 1 c) _ (rw (not4, is_name) at e) in
        let ((name, c2), r2, e2) = >>=-eq-ok (receive (byte_at len_byte 0) c1) _ e1 in
        let (took1, size1) = receive_sound 1 c c1 len_byte r1 in
        let (took2, size2) = receive_sound (byte_at len_byte 0) c1 c2 name r2 in
        let first : c.incoming ≡ byte_at len_byte 0 ∷ c1.incoming =
          ground (arith, one_byte len_byte) in
        let small : byte_at len_byte 0 < 256 = (rw first at hb).0 in
        (
          domain name,
          omega arith,
          ground arith,
          ground arith,
          (ground arith, ground arith, ground arith),
        )
    | inr not_name ↦ elim (Bool-cases (atyp == atyp_ipv6)) [
      | inl is6 ↦
          let (ip, size, same, took) =
            read_ip_sound net 16 c c' host (rw (not4, not_name, is6) at e) in
          (ipv6 ip, size, ground arith, same, took)
      | inr not6 ↦ absurd (ground arith)
    ]
  ]
]

-- A handshake that succeeds read a greeting and a CONNECT to an address of one of the three kinds; the
-- target is that address and port over "tcp", the reply sent is "version 5, no authentication", and what
-- the client sent after the request is left to be read.
pub handshake_sound :
    (net : Net) (c c' : Conn) (t : Target)
    → AreBytes c.incoming
    → handshake_server net c ≡ ok (t, c')
    → (methods : List ℕ) × (rsv : ℕ) × (a : Address) × (hi lo : ℕ) × IsAddress a
      × (t ≡ record { network = text "tcp"; host = host_of net a; port = u16 hi lo })
      × (c.incoming ≡ greeting methods (connect_request rsv a hi lo c'.incoming))
      × (c'.out ≡ sent (version5 ∷ 0x00 ∷ []) c.out)
unfolding handshake_server
handshake_sound net c c' t hb e =
    let (c1, r1, e1) = >>=-eq-ok (negotiate c) _ e in
    let ((atyp, c2), r2, e2) = >>=-eq-ok (read_request c1) _ e1 in
    let ((host, c3), r3, e3) = >>=-eq-ok (read_host net atyp c2) _ e2 in
    let ((port, c4), r4, e4) = >>=-eq-ok (read_port c3) _ e3 in
    let (methods, greeted, stop1, out1) = negotiate_sound c c1 r1 in
    let (rsv, took2) = read_request_sound c1 c2 atyp r2 in
    let bytes1 : AreBytes c1.incoming =
      All-suffix IsByte (version5 ∷ length methods ∷ methods) c1.incoming (rw greeted at hb) in
    let bytes2 : AreBytes c2.incoming =
      All-suffix IsByte (version5 ∷ cmd_connect ∷ rsv ∷ atyp ∷ []) c2.incoming
        (rw took2.0 at bytes1) in
    let (a, is_address, same_atyp, same_host, took3) =
      read_host_sound net atyp c2 c3 host bytes2 r3 in
    let (hi, lo, same_port, took4) = read_port_sound c3 c4 port r4 in
    (methods, rsv, a, hi, lo, is_address, ground arith, ground arith, ground arith)

receive-Settles : (n : ℕ) (c : Conn) → Settles (receive n c)
unfolding receive read_full
receive-Settles n c = ground arith

send-Settles : (p : List ℕ) (c : Conn) → Settles (send p c)
unfolding send
send-Settles p c = ground arith

pub read_host-Settles : (net : Net) (atyp : ℕ) (c : Conn) → Settles (read_host net atyp c)
unfolding read_host
read_host-Settles net atyp c =
    Settles-if (atyp == atyp_ipv4) _ _ (Settles-bind (receive 4 c) _ (receive-Settles 4 c) λ r. tt)
      (Settles-if (atyp == atyp_domain) _ _
        (Settles-bind (receive 1 c) _ (receive-Settles 1 c)
          λ r. Settles-bind (receive (byte_at r.0 0) r.1) _ (receive-Settles _ r.1) λ s. tt)
        (Settles-if (atyp == atyp_ipv6) _ _
          (Settles-bind (receive 16 c) _ (receive-Settles 16 c) λ r. tt) tt))

negotiate-Settles : (c : Conn) → Settles (negotiate c)
unfolding negotiate
negotiate-Settles c = Settles-bind (receive 2 c) _ (receive-Settles 2 c) λ r.
    Settles-guard (byte_at r.0 0 == version5) _ _
      (Settles-bind (receive (byte_at r.0 1) r.1) _ (receive-Settles _ r.1) λ s. send-Settles _ s.1)

read_request-Settles : (c : Conn) → Settles (read_request c)
unfolding read_request
read_request-Settles c = Settles-bind (receive 2 c) _ (receive-Settles 2 c) λ r.
    Settles-guard (byte_at r.0 0 == version5) _ _ (
      Settles-guard (byte_at r.0 1 == cmd_connect) _ _ (
        Settles-bind (receive 1 r.1) _ (receive-Settles 1 r.1)
          λ s. Settles-bind (receive 1 s.1) _ (receive-Settles 1 s.1) λ u. tt))

pub read_port-Settles : (c : Conn) → Settles (read_port c)
unfolding read_port
read_port-Settles c = Settles-bind (receive 2 c) _ (receive-Settles 2 c) λ r. tt

-- The handshake ends on any input, with a target or an error.
pub handshake-Settles : (net : Net) (c : Conn) → Settles (handshake_server net c)
unfolding handshake_server
handshake-Settles net c = Settles-bind (negotiate c) _ (negotiate-Settles c) λ c1.
    Settles-bind (read_request c1) _ (read_request-Settles c1) λ r.
      Settles-bind (read_host net r.0 r.1) _ (read_host-Settles net r.0 r.1)
        λ h. Settles-bind (read_port h.1) _ (read_port-Settles h.1) λ p. tt
