-- ===== src/Dpi/Request/RoundTrip.antt =====
-- Decoding what was encoded, and what a payload that is decoded must have been.
use ptbridge.Base.{
  ℕ, ◌+◌, ◌-◌, ◌%◌, ◌^◌, ◌≤◌, ◌<◌, ◌≡◌, refl, ap, ◌∙◌, List, ◌++◌, append_assoc, length,
  length-append, ok, byte_at, put_u16, u16, u16-put_u16, le→leb, arith, slice, slice-append,
}
use ptbridge.Dpi.Request.{ConnectRequest, Error, encode_connect_request, decode_connect_request}

-- The checks and slices of a payload with a network of `n` bytes and an address of `a`.
decode_parts :
    (p network len_bytes address : List ℕ) (n a : ℕ)
    → n < 2 ^ 16 - 2
    → u16 (byte_at p 0) (byte_at p 1) ≡ n
    → 4 + n + a ≤ length p
    → slice {E = Error} 2 (2 + n) p ≡ ok network
    → slice {E = Error} (2 + n) (2 + n + 2) p ≡ ok len_bytes
    → u16 (byte_at len_bytes 0) (byte_at len_bytes 1) ≡ a
    → slice {E = Error} (2 + n + 2) (2 + n + 2 + a) p ≡ ok address
    → decode_connect_request p ≡ ok (record { network = network; address = address })
unfolding decode_connect_request
decode_parts p network len_bytes address n a hn en size e1 e2 ea e3 =
    let off : (2 + n) % 2 ^ 16 ≡ 2 + n = omega arith in
    rw (
      le→leb 4 (length p) (omega arith),
      en,
      le→leb (4 + n) (length p) (omega arith),
      off,
      e1,
      e2,
      ea,
      le→leb (2 + n + 2 + a) (length p) (omega arith),
      e3,
    )

-- A request whose network is shorter than 65534 bytes and whose address is shorter than 65536 is decoded to itself.
pub decode-encode_connect_request :
    (req : ConnectRequest) (rest : List ℕ)
    → length req.network < 2 ^ 16 - 2
    → length req.address < 2 ^ 16
    → decode_connect_request (encode_connect_request req ++ rest) ≡ ok req
decode-encode_connect_request req rest hn ha =
    let n = length req.network in
    let a = length req.address in
    let ln = put_u16 n in
    let la = put_u16 a in
    let p = encode_connect_request req ++ rest in
    let split1 : p ≡ ln ++ (req.network ++ (la ++ (req.address ++ rest))) = simp append_assoc in
    let split2 : p ≡ (ln ++ req.network) ++ (la ++ (req.address ++ rest)) = simp append_assoc in
    let split3 : p ≡ ((ln ++ req.network) ++ la) ++ (req.address ++ rest) = simp append_assoc in
    let front = length-append (ln ++ req.network) la in
    let size : length p ≡ 4 + n + a + length rest =
      ap length split3
      ∙ length-append ((ln ++ req.network) ++ la) (req.address ++ rest)
      ∙ omega (arith, front, length-append req.address rest) in
    decode_parts p req.network la req.address n a hn (u16-put_u16 n ∙ omega arith) (omega arith)
      (ap (slice {E = Error} 2 (2 + n)) split1 ∙ slice-append 2 (2 + n) ln req.network _ refl refl)
      (ap (slice {E = Error} (2 + n) (2 + n + 2)) split2
        ∙ slice-append (2 + n) (2 + n + 2) (ln ++ req.network) la _ (omega arith) refl)
      (u16-put_u16 a ∙ omega arith)
      (ap (slice {E = Error} (2 + n + 2) (2 + n + 2 + a)) split3
        ∙ slice-append (2 + n + 2) (2 + n + 2 + a) ((ln ++ req.network) ++ la) req.address rest
            (omega (arith, front)) refl)
