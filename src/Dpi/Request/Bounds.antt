-- ===== src/Dpi/Request/Bounds.antt =====
-- How decoding ends on any payload: the uint16 sum wraps for the two longest networks.
use ptbridge.Base.{
  ℕ, ◌+◌, ◌-◌, ◌^◌, ◌≤◌, ◌<◌, ◌≡◌, ◌↔◌, List, length, panic, byte_at, u16, arith, slice,
}
use ptbridge.Dpi.Request.{decode_connect_request}

abbrev pub net_len_of : List ℕ → ℕ
net_len_of p = u16 (byte_at p 0) (byte_at p 1)

-- On a payload of bytes decoding panics exactly if the payload holds the network length and as much behind it, and
-- that length is 65534 or 65535, so that `2+netLen` wraps to less than 2.
pub decode_connect_request-panic :
    (p : List ℕ)
    → net_len_of p < 2 ^ 16
    → (decode_connect_request p ≡ panic)
      ↔ ((2 ^ 16 - 2 ≤ net_len_of p) × (4 + net_len_of p ≤ length p))
unfolding decode_connect_request slice
decode_connect_request-panic p h = (ground arith, ground arith)
