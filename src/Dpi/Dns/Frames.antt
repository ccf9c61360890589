-- ===== src/Dpi/Dns/Frames.antt =====
-- A DNS message over TCP, framed and read back.
use ptbridge.Base.{
  ℕ, ◌%◌, ◌^◌, ◌==◌, ◌<◌, ◌≡◌, refl, List, ◌++◌, length, false, ok, IoError, read_full-append,
  put_u16, u16-put_u16, ltb, arith,
}
use ptbridge.Dpi.Dns.{tcp_frame, read_tcp_reply}

-- A message of 1 to 65535 bytes is framed, and its frame is read back as the message, with what follows left.
pub read_tcp_reply-tcp_frame :
    (stop : IoError) (message rest : List ℕ)
    → 0 < length message
    → length message < 2 ^ 16
    → (frame : List ℕ) × (tcp_frame message ≡ ok frame)
      × (read_tcp_reply stop (frame ++ rest) ≡ ok (message, rest))
unfolding tcp_frame read_tcp_reply
read_tcp_reply-tcp_frame stop message rest some_byte small =
    let n = length message in
    let fits : ltb 0xffff n ≡ false = ground arith in
    let same : n % 2 ^ 16 ≡ n = omega arith in
    let full : (n == 0) ≡ false = ground arith in
    (
      put_u16 n ++ message,
      rw fits refl,
      rw
          (
            read_full-append stop (put_u16 n) (message ++ rest),
            u16-put_u16 n,
            same,
            full,
            read_full-append stop message rest,
          )
          refl,
    )
