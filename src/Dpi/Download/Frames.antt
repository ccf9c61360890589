-- ===== src/Dpi/Download/Frames.antt =====
-- The frames of a download as the server sends them, and what next_chunk takes from one.
use ptbridge.Base.{
  ℕ, ◌+◌, ◌*◌, ◌%◌, ◌^◌, ◌≤◌, ◌<◌, ◌≡◌, refl, sym, ap, ◌∙◌, List, [], ◌∷◌, ◌++◌, append_assoc,
  append-nil, length, length-append, ok, IoError, read_full-append, put_u32, u32-put_u32, slice,
  slice-append, ltb, leb, true, false, arith,
}
use ptbridge.Dpi.Header.{msg_data, header_bytes}
use ptbridge.Dpi.Crypto.{Aead, decrypt}
use ptbridge.Dpi.Download.{Error, chunk_of, next_chunk}

pub record Frame : Type 0 where
  pub payload : List ℕ
  pub cipher : List ℕ

-- The cipher text decrypts to the message with the data, and the reader's limit admits it.
pub record IsFrame (aead : Aead) (conn_id : ℕ) (f : Frame) : Type 0 where
  pub decrypts :
      decrypt aead f.cipher ≡ ok (header_bytes msg_data conn_id (length f.payload) ++ f.payload)
  pub small : length f.payload + 10 < 2 ^ 32
  pub admitted : length f.cipher ≤ 256 * 1024

-- The bytes on the wire, and the data that they carry.
abbrev pub frame_bytes : Frame → List ℕ
frame_bytes f = put_u32 (length f.cipher) ++ f.cipher

abbrev pub wire : List Frame → List ℕ
wire [] = []
wire (f ∷ fs) = frame_bytes f ++ wire fs

abbrev pub data_of : List Frame → List ℕ
data_of [] = []
data_of (f ∷ fs) = f.payload ++ data_of fs

pub wire-append : (fs gs : List Frame) → wire (fs ++ gs) ≡ wire fs ++ wire gs
wire-append [] gs = refl
wire-append (f ∷ fs) gs =
    ap (λ w. frame_bytes f ++ w) (wire-append fs gs)
    ∙ sym (append_assoc (frame_bytes f) (wire fs) (wire gs))

pub length-wire : (fs : List Frame) → length fs ≤ length (wire fs)
length-wire [] = omega arith
length-wire (f ∷ fs) = omega (arith, length-wire fs, length-append f.cipher (wire fs))

-- The chunk of a message is its data.
pub chunk_of-message :
    (conn_id : ℕ) (chunk : List ℕ)
    → length chunk + 10 < 2 ^ 32
    → chunk_of (header_bytes msg_data conn_id (length chunk) ++ chunk) ≡ ok chunk
unfolding chunk_of
chunk_of-message conn_id [] h = refl
chunk_of-message conn_id (b ∷ bs) h =
    let chunk = b ∷ bs in
    let head = header_bytes msg_data conn_id (length chunk) in
    let same : length chunk % 2 ^ 32 ≡ length chunk = omega arith in
    let sum : (10 + length chunk) % 2 ^ 32 ≡ 10 + length chunk = omega arith in
    let more : ltb 10 (length (head ++ chunk)) ≡ true = ground (arith, length-append head chunk) in
    let inside : leb (10 + length chunk) (length (head ++ chunk)) ≡ true =
      ground (arith, length-append head chunk) in
    let part : slice {E = Error} 10 (10 + length chunk) (head ++ chunk) ≡ ok chunk =
      ap (λ d. slice {E = Error} 10 (10 + length chunk) (head ++ d)) (sym (append-nil chunk))
      ∙ slice-append 10 (10 + length chunk) head chunk [] refl refl in
    rw (u32-put_u32 (length chunk), same, sum, more, inside, part)

-- One frame is taken off the wire, and its data is the chunk.
pub next_chunk-frame :
    (aead : Aead) (stop : IoError) (conn_id : ℕ) (f : Frame) (rest : List ℕ)
    → IsFrame aead conn_id f
    → next_chunk aead stop (frame_bytes f ++ rest) ≡ ok (f.payload, rest)
unfolding next_chunk
next_chunk-frame aead stop conn_id f rest h =
    let n = length f.cipher in
    let small = h.admitted in
    let same : n % 2 ^ 32 ≡ n = omega arith in
    let limit : ltb (256 * 1024) n ≡ false = ground arith in
    rw (
      read_full-append stop (put_u32 n) (f.cipher ++ rest),
      u32-put_u32 n,
      same,
      limit,
      read_full-append stop f.cipher rest,
      h.decrypts,
      chunk_of-message conn_id f.payload h.small,
    )
