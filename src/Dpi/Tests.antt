-- ===== src/Dpi/Tests.antt =====
-- Headers, requests and encryption at concrete inputs.
use ptbridge.Base.{
  ℕ, ◌+◌, ◌-◌, ◌^◌, ◌≤◌, ◌≡◌, ◌↔◌, refl, List, [], ◌∷◌, length, drop, ok, panic, eof, arith,
  read_full,
}
use ptbridge.Dpi.Request.{decode_connect_request}
use ptbridge.Dpi.Request.Bounds.{net_len_of, decode_connect_request-panic}
use ptbridge.Dpi.Toy.{aead, IsAead-aead, nonce, encrypted}
use ptbridge.Dpi.Crypto.{encrypt, decrypt, decrypt-encrypt, nonce_size}

encrypted_runs : encrypt aead eof nonce (7 ∷ []) ≡ ok (encrypted (7 ∷ []), [])
unfolding encrypt read_full
encrypted_runs = refl

-- A network of 65534 bytes, of which none is there.
abbrev wrapped : List ℕ
wrapped = 255 ∷ 254 ∷ 0 ∷ 0 ∷ []

decode_connect_request-panic_example :
    (decode_connect_request wrapped ≡ panic)
    ↔ ((2 ^ 16 - 2 ≤ net_len_of wrapped) × (4 + net_len_of wrapped ≤ length wrapped))
decode_connect_request-panic_example = decode_connect_request-panic wrapped (omega arith)

decrypt-encrypt_example :
    (c : List ℕ) × (encrypt aead eof nonce (7 ∷ 8 ∷ []) ≡ ok (c, drop nonce_size nonce))
    × (decrypt aead c ≡ ok (7 ∷ 8 ∷ []))
    × (length c ≡ 2 + 28)
decrypt-encrypt_example = decrypt-encrypt aead eof nonce (7 ∷ 8 ∷ []) IsAead-aead (omega arith)
