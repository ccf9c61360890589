-- ===== src/Dpi/Request.antt =====
-- dpi/common/serialize.go: the payload of a connect message.
pub mod RoundTrip
pub mod Bounds
use ptbridge.Base.{
  ℕ, ◌+◌, ◌-◌, ◌*◌, ◌/◌, ◌%◌, ◌^◌, ◌<◌, ◌≡◌, List, [], ◌∷◌, ◌++◌, length, take, drop, Result, ok,
  err, panic, ◌>>=◌, ◌>>◌, guard, slice, byte_at, put_u16, u16, leb, if◌then◌else◌, ◌&&◌,
}

pub record ConnectRequest : Type 0 where
  pub network : List ℕ
  pub address : List ℕ

pub data Error : Type 0 where
  payload_too_short invalid_network_length invalid_address_length : Error

-- networkLen(2) | network | addrLen(2) | addr; a length keeps its low 16 bits.
abbrev pub encode_connect_request : ConnectRequest → List ℕ
encode_connect_request req =
    put_u16 (length req.network) ++ (req.network ++ (put_u16 (length req.address) ++ req.address))

-- `2+netLen` is a uint16, and wraps.
unfoldable pub decode_connect_request : List ℕ → Result Error ConnectRequest
decode_connect_request p = do
  guard (leb 4 (length p)) payload_too_short
  let net_len = u16 (byte_at p 0) (byte_at p 1)
  guard (leb (4 + net_len) (length p)) invalid_network_length
  network ← slice 2 ((2 + net_len) % 2 ^ 16) p
  let off = (2 + net_len) % 2 ^ 16
  len_bytes ← slice off (off + 2) p
  let addr_len = u16 (byte_at len_bytes 0) (byte_at len_bytes 1)
  guard (leb (off + 2 + addr_len) (length p)) invalid_address_length
  address ← slice (off + 2) (off + 2 + addr_len) p
  ok (record { network = network; address = address })
