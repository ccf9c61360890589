-- ===== src/Dpi/Header.antt =====
-- dpi/common/protocol.go: the ten bytes before each payload.
use ptbridge.Base.{
  ℕ, ◌%◌, ◌^◌, ◌<◌, ◌≡◌, List, ◌∷◌, ◌++◌, Result, ok, ◌>>=◌, IoError, read_full, read_full-append,
  byte_at, put_u32, u32, u32-put_u32, arith,
}

abbrev pub version : ℕ
version = 1

abbrev pub stream_header_size : ℕ
stream_header_size = 10

abbrev pub msg_connect : ℕ
msg_connect = 0x01

abbrev pub msg_data : ℕ
msg_data = 0x02

abbrev pub msg_close : ℕ
msg_close = 0x03

pub record StreamHeader : Type 0 where
  pub version : ℕ
  pub msg_type : ℕ
  pub conn_id : ℕ
  pub payload_len : ℕ

-- The bytes that WriteStreamHeader writes, and that Connect, SendData, CloseConn and handleDownload build.
abbrev pub header_bytes : ℕ → ℕ → ℕ → List ℕ
header_bytes msg_type conn_id payload_len =
    version ∷ (msg_type % 256) ∷ (put_u32 conn_id ++ put_u32 payload_len)

-- The fields of the ten bytes `buf`.
abbrev pub parse_header : List ℕ → StreamHeader
parse_header buf = record {
  version = byte_at buf 0;
  msg_type = byte_at buf 1;
  conn_id = u32 (byte_at buf 2) (byte_at buf 3) (byte_at buf 4) (byte_at buf 5);
  payload_len = u32 (byte_at buf 6) (byte_at buf 7) (byte_at buf 8) (byte_at buf 9);
}

unfoldable pub read_stream_header : IoError → List ℕ → Result IoError (StreamHeader × List ℕ)
read_stream_header stop src = do
  (buf, rest) ← read_full stop stream_header_size src
  ok (parse_header buf, rest)

-- A header is read back with its type, and its two 32-bit fields modulo 2 ^ 32; what follows is left.
pub read_stream_header-header_bytes :
    (stop : IoError) (msg_type conn_id payload_len : ℕ) (rest : List ℕ)
    → msg_type < 256
    → read_stream_header stop (header_bytes msg_type conn_id payload_len ++ rest)
      ≡ ok (
        record {
          version = version;
          msg_type = msg_type;
          conn_id = conn_id % 2 ^ 32;
          payload_len = payload_len % 2 ^ 32;
        },
        rest,
      )
unfolding read_stream_header
read_stream_header-header_bytes stop msg_type conn_id payload_len rest h =
    let same : msg_type % 256 ≡ msg_type = omega arith in
    rw (
      read_full-append stop (header_bytes msg_type conn_id payload_len) rest,
      u32-put_u32 conn_id,
      u32-put_u32 payload_len,
      same,
    )
