-- ===== src/Stream/Target.antt =====
-- ReadTarget reads back what WriteTarget wrote.
use ptbridge.Base.{
  ℕ, ◌/◌, ◌%◌, ◌^◌, ◌≤◌, ◌<◌, ◌≡◌, ◌≢◌, refl, ap, ◌∙◌, List, [], ◌∷◌, ◌++◌, append_assoc, Option,
  some, none, Option-cases, inl, inr, false, ◌==◌, ltb, ok, length, length-append, put_u16,
  u16-put_u16, text, IoError, Sink, arith,
}
use ptbridge.Socks5
use ptbridge.Socks5.{
  Net, Ip, v4, v6, ip_bytes, Error, hostname_too_long, Conn, receive, send, read_host, read_port,
}
use ptbridge.Socks5.Wire.{Address, ipv4, domain, ipv6, IsAddress, atyp_of, body_of, host_of, sent}
use ptbridge.Socks5.Accepts.{from, receive-append, send_fits, read_host-address, read_port-bytes}
use ptbridge.Stream.{
  stream_forward, no_target, address_by, write_address, write_target, read_target,
}

-- What package net documents of ParseIP and String: the sizes, and that the text of an address is parsed as that address.
pub record IsNet (net : Net) : Type 0 where
  pub size4 : (h b : List ℕ) → net.parse_ip h ≡ some (v4 b) → length b ≡ 4
  pub size16 : (h b : List ℕ) → net.parse_ip h ≡ some (v6 b) → length b ≡ 16
  pub canonical :
      (h : List ℕ) (a : Ip)
      → net.parse_ip h ≡ some a
      → net.parse_ip (net.ip_string (ip_bytes a)) ≡ some a

-- The host as an address on the wire, and as ReadTarget gives it: an IP address in its own text, a name as it is.
abbrev wire_by : Option Ip → List ℕ → Address
wire_by (some (v4 b)) h = ipv4 b
wire_by (some (v6 b)) h = ipv6 b
wire_by none h = domain h

abbrev pub wire_address : Net → List ℕ → Address
wire_address net h = wire_by (net.parse_ip h) h

abbrev pub canonical_host : Net → List ℕ → List ℕ
canonical_host net h = host_of net (wire_address net h)

-- The bytes of a stream header, behind the stream type.
abbrev pub target_bytes : Address → ℕ → List ℕ
target_bytes a port = atyp_of a ∷ (body_of a ++ put_u16 port)

wire_by-IsAddress :
    (o : Option Ip) (h : List ℕ)
    → ((b : List ℕ) → o ≡ some (v4 b) → length b ≡ 4)
    → ((b : List ℕ) → o ≡ some (v6 b) → length b ≡ 16)
    → length h < 256
    → IsAddress (wire_by o h)
wire_by-IsAddress (some (v4 b)) h four sixteen small = four b refl
wire_by-IsAddress (some (v6 b)) h four sixteen small = sixteen b refl
wire_by-IsAddress none h four sixteen small = small

sent-sent : (p q : List ℕ) (s : Sink) → sent q (sent p s) ≡ sent (p ++ q) s
sent-sent p q s = ground (arith, append_assoc s.written p q, length-append p q)

module _ (stop : IoError) (src : List ℕ) where
  abbrev pub to : Sink → Conn
  to out = record { incoming = src; stop = stop; out = out }

  write_address-body :
      (out : Sink) (o : Option Ip) (h : List ℕ)
      → length h < 256
      → length (body_of (wire_by o h)) ≤ out.room
      → write_address (address_by o h).0 (address_by o h).1 (to out)
        ≡ ok (to (sent (body_of (wire_by o h)) out))
  unfolding write_address
  write_address-body out (some (v4 b)) h small room = send_fits stop out b src room
  write_address-body out (some (v6 b)) h small room = send_fits stop out b src room
  write_address-body out none h small room =
      let size : length h % 256 ≡ length h = omega arith in
      let fits : ltb 255 (length h) ≡ false = ground arith in
      rw
        (
          fits,
          size,
          send_fits stop out (length h ∷ []) src (omega arith),
          send_fits stop (sent (length h ∷ []) out) h src (omega arith),
        )
        (ap (λ s. ok (to s)) (sent-sent (length h ∷ []) h out))

  address_by-atyp : (o : Option Ip) (h : List ℕ) → (address_by o h).0 ≡ atyp_of (wire_by o h)
  address_by-atyp (some (v4 b)) h = refl
  address_by-atyp (some (v6 b)) h = refl
  address_by-atyp none h = refl

  -- WriteTarget on a writer with room, for a name of at most 255 bytes.
  write_target-bytes :
      (net : Net) (ty : ℕ) (t : Socks5.Target) (out : Sink)
      → length t.host < 256
      → ty ≢ stream_forward
      → length (target_bytes (wire_address net t.host) t.port) < out.room
      → write_target net ty t (to out)
        ≡ ok (to (sent (ty ∷ target_bytes (wire_address net t.host) t.port) out))
  unfolding write_target
  write_target-bytes net ty t out small not_forward room =
      let o = net.parse_ip t.host in
      let a = wire_by o t.host in
      let out1 = sent (ty ∷ []) out in
      let out2 = sent (atyp_of a ∷ []) out1 in
      let out3 = sent (body_of a) out2 in
      let port = put_u16 t.port in
      let dials : (ty == stream_forward) ≡ false = ground arith in
      let size = length-append (body_of a) port in
      let body : write_address (atyp_of a) (address_by o t.host).1 (to out2) ≡ ok (to out3) =
        rw (address_by-atyp o t.host) at (write_address-body out2 o t.host small (omega arith)) in
      let steps : sent port out3 ≡ sent (ty ∷ target_bytes a t.port) out =
        sent-sent (body_of a) port out2
        ∙ sent-sent (atyp_of a ∷ []) (body_of a ++ port) out1
        ∙ sent-sent (ty ∷ []) (target_bytes a t.port) out in
      rw
        (
          send_fits stop out (ty ∷ []) src (omega arith),
          dials,
          address_by-atyp o t.host,
          send_fits stop out1 (atyp_of a ∷ []) src (omega arith),
          body,
          send_fits stop out3 port src (omega arith),
        )
        (ap (λ s. ok (to s)) steps)

read_target-bytes :
    (net : Net) (stop : IoError) (out : Sink) (ty : ℕ) (a : Address) (port : ℕ) (rest : List ℕ)
    → ty ≢ stream_forward
    → IsAddress a
    → read_target net
        (from stop out (ty ∷ atyp_of a ∷ (body_of a ++ (port / 256 % 256 ∷ port % 256 ∷ rest))))
      ≡ ok (
        ty,
        record { network = text "tcp"; host = host_of net a; port = port % 2 ^ 16 },
        from stop out rest,
      )
unfolding read_target
read_target-bytes net stop out ty a port rest not_forward h =
    let dials : (ty == stream_forward) ≡ false = ground arith in
    rw (
      receive-append stop out (ty ∷ [])
          (atyp_of a ∷ (body_of a ++ (port / 256 % 256 ∷ port % 256 ∷ rest))),
      dials,
      receive-append stop out (atyp_of a ∷ [])
          (body_of a ++ (port / 256 % 256 ∷ port % 256 ∷ rest)),
      read_host-address stop out net a (port / 256 % 256 ∷ port % 256 ∷ rest) h,
      read_port-bytes stop out (port / 256 % 256) (port % 256) rest,
      u16-put_u16 port,
    )

-- For every stream type but StreamForward, and a name of at most 255 bytes: on a connection with room
-- WriteTarget succeeds, and from what it wrote ReadTarget reads the stream type and a target over "tcp" with
-- the host, an IP address in its own text, and the port modulo 2 ^ 16, and leaves what follows.
pub read_target-write_target :
    (net : Net) (stop : IoError) (room ty : ℕ) (t : Socks5.Target) (rest : List ℕ)
    → IsNet net
    → ty ≢ stream_forward
    → length t.host < 256
    → length (target_bytes (wire_address net t.host) t.port) < room
    → (c : Conn) × (write_target net ty t (to stop [] (record { written = []; room = room }))
        ≡ ok c)
      × (read_target net (from stop c.out (c.out.written ++ rest))
          ≡ ok (
            ty,
            record {
              network = text "tcp";
              host = canonical_host net t.host;
              port = t.port % 2 ^ 16;
            },
            from stop c.out rest,
          ))
read_target-write_target net stop room ty t rest laws not_forward small fits =
    let start : Sink = record { written = []; room = room } in
    let a = wire_address net t.host in
    let valid : IsAddress a =
      wire_by-IsAddress (net.parse_ip t.host) t.host (laws.size4 t.host) (laws.size16 t.host)
        small in
    let out = sent (ty ∷ target_bytes a t.port) start in
    (
      to stop [] out,
      write_target-bytes stop [] net ty t start small not_forward fits,
      rw (append_assoc (body_of a) (put_u16 t.port) rest)
          (read_target-bytes net stop out ty a t.port rest not_forward valid),
    )

-- A StreamForward header is its one byte, whatever the target is, and is read back with no target.
pub read_target-forward :
    (net : Net) (stop : IoError) (room : ℕ) (t : Socks5.Target) (rest : List ℕ)
    → 0 < room
    → (c : Conn) × (write_target net stream_forward t
          (to stop [] (record { written = []; room = room }))
        ≡ ok c)
      × (c.out.written ≡ stream_forward ∷ [])
      × (read_target net (from stop c.out (c.out.written ++ rest))
          ≡ ok (stream_forward, no_target, from stop c.out rest))
unfolding write_target read_target
read_target-forward net stop room t rest h =
    let start : Sink = record { written = []; room = room } in
    let out = sent (stream_forward ∷ []) start in
    (
      to stop [] out,
      rw (send_fits stop start (stream_forward ∷ []) [] h),
      refl,
      rw (receive-append stop out (stream_forward ∷ []) rest),
    )

-- The host that was read is read back as it is: sending a target on a second time keeps it.
pub canonical_host_idem :
    (net : Net) (h : List ℕ)
    → IsNet net
    → canonical_host net (canonical_host net h) ≡ canonical_host net h
canonical_host_idem net h laws = elim (Option-cases (net.parse_ip h)) [
  | inl e ↦ rw (e, e)
  | inr (v4 b, e) ↦ rw (e, laws.canonical h (v4 b) e)
  | inr (v6 b, e) ↦ rw (e, laws.canonical h (v6 b) e)
]
