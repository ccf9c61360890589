-- ===== src/Dpi/Download.antt =====
-- The download direction: the loop of handleDownload (dpi/server/handler.go) and streamReader.Read
-- (dpi/client/transport.go). A chunk travels as a length of four bytes and an encrypted message.
pub mod Frames
pub mod Reads
pub mod Serves
pub mod Totals
mod Tests
use ptbridge.Base.{
  ℕ, zero, suc, ◌+◌, ◌-◌, ◌*◌, ◌/◌, ◌%◌, ◌^◌, ◌≤◌, ◌<◌, ◌≡◌, List, [], ◌∷◌, ◌++◌, length, take,
  drop, Option, some, none, Bool, true, false, Result, ok, err, panic, out_of_fuel, ◌>>=◌, ◌>>◌,
  guard, map_err, not, IoError, closed_pipe, read_full, byte_at, put_u32, u32, slice, Sink, write,
  ltb, leb, if◌then◌else◌,
}
use ptbridge.Dpi.Header.{version, msg_data, header_bytes}
use ptbridge.Dpi.Crypto
use ptbridge.Dpi.Crypto.{Aead, encrypt, decrypt}

-- What the select of the loop receives: a chunk from the channel, the channel's end, or one of the
-- two signals to stop.
pub data Event : Type 0 where
  received : List ℕ → Event
  channel_closed stopped context_done : Event

-- The random bytes, and the response body as written so far.
pub record Download : Type 0 where
  pub random : List ℕ
  pub body : Sink

-- The two writes of an encrypted chunk, and the return if there is none; `false` is a return from the handler.
unfoldable pub send_encrypted : Result Crypto.Error (List ℕ × List ℕ) → Download → Bool × Download
send_encrypted (ok (encrypted, random)) d =
    let first = write (put_u32 (length encrypted)) d.body in
    let second = write encrypted first.sink in
    if first.failed
    then (false, record { random = random; body = first.sink })
    else if second.failed
    then (false, record { random = random; body = second.sink })
    else (true, record { random = random; body = second.sink })
send_encrypted (err e) d = (false, d)
send_encrypted panic d = (false, d)
send_encrypted out_of_fuel d = (false, d)

-- One chunk, in a message with its header.
unfoldable pub send_chunk : Aead → IoError → ℕ → List ℕ → Download → Bool × Download
send_chunk aead stop conn_id chunk d =
    send_encrypted
      (encrypt aead stop d.random (header_bytes msg_data conn_id (length chunk) ++ chunk)) d

-- The loop, over the events that it receives; a list that is used up is a handler that still waits.
unfoldable pub serve_download : Aead → IoError → ℕ → List Event → Download → Download
serve_download aead stop conn_id [] d = d
serve_download aead stop conn_id (received chunk ∷ events) d =
    let step = send_chunk aead stop conn_id chunk d in
    let rest = serve_download aead stop conn_id events step.1 in if step.0 then rest else step.1
serve_download aead stop conn_id (channel_closed ∷ events) d = d
serve_download aead stop conn_id (stopped ∷ events) d = d
serve_download aead stop conn_id (context_done ∷ events) d = d

pub data Error : Type 0 where
  io : IoError → Error
  crypto : Crypto.Error → Error

-- The reader: the rest of the response body, and the chunk that is being handed out.
pub record StreamReader : Type 0 where
  pub body : List ℕ
  pub decrypted : List ℕ
  pub off : ℕ

-- What the message `dec` leaves in `sr.decrypted`. The sum is a uint32, and wraps.
unfoldable pub chunk_of : List ℕ → Result Error (List ℕ)
chunk_of dec =
    let payload_len = u32 (byte_at dec 6) (byte_at dec 7) (byte_at dec 8) (byte_at dec 9) in
    let whole : Result Error (List ℕ) =
      if leb ((10 + payload_len) % 2 ^ 32) (length dec)
      then slice 10 ((10 + payload_len) % 2 ^ 32) dec
      else ok [] in
    if ltb 10 (length dec) then whole else ok []

-- The part of a round that reads the next message.
unfoldable pub next_chunk : Aead → IoError → List ℕ → Result Error (List ℕ × List ℕ)
next_chunk aead stop src = do
  (len_buf, src1) ← map_err io (read_full stop 4 src)
  let enc_len = u32 (byte_at len_buf 0) (byte_at len_buf 1) (byte_at len_buf 2) (byte_at len_buf 3)
  guard (not (ltb (256 * 1024) enc_len)) (io closed_pipe)
  (enc, src2) ← map_err io (read_full stop enc_len src1)
  dec ← map_err crypto (decrypt aead enc)
  chunk ← chunk_of dec
  ok (chunk, src2)

-- Read into a buffer of `n` bytes; each round that goes on has read four bytes at least.
unfoldable pub read_loop :
    ℕ → Aead → IoError → ℕ → StreamReader → Result Error (List ℕ × StreamReader)
read_loop zero aead stop n sr = out_of_fuel
read_loop (suc fuel) aead stop n sr =
    let got = take n (drop sr.off sr.decrypted) in
    let next = next_chunk aead stop sr.body >>= λ (chunk, rest).
    read_loop fuel aead stop n (record { body = rest; decrypted = chunk; off = 0 }) in
    if ltb sr.off (length sr.decrypted)
    then ok (got, record sr { off = sr.off + length got })
    else next

-- streamReader.Read(p) with len(p) = n
unfoldable pub read : Aead → IoError → ℕ → StreamReader → Result Error (List ℕ × StreamReader)
read aead stop n sr = read_loop (length sr.body + 1) aead stop n sr
