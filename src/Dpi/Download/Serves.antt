-- ===== src/Dpi/Download/Serves.antt =====
-- The loop of handleDownload over the chunks of a channel: the frames that it writes.
use ptbridge.Base.{
  ℕ, ◌+◌, ◌-◌, ◌*◌, ◌≤◌, ◌≡◌, refl, sym, ap, ◌∙◌, true, List, [], ◌∷◌, ◌++◌, append-nil,
  append_assoc, arith, length, drop, All, length-append, length-drop, ok, put_u32, IoError, Sink,
  write_fits,
}
use ptbridge.Dpi.Header.{msg_data, header_bytes}
use ptbridge.Dpi.Crypto.{Aead, nonce_size, IsAead, encrypt, decrypt, decrypt-encrypt}
use ptbridge.Dpi.Download.{
  Event, received, channel_closed, Download, send_encrypted, send_chunk, serve_download,
}
use ptbridge.Dpi.Download.Frames.{Frame, IsFrame, frame_bytes, wire, data_of}

abbrev pub events_of : List (List ℕ) → List Event
events_of [] = channel_closed ∷ []
events_of (chunk ∷ chunks) = received chunk ∷ events_of chunks

abbrev pub concat_chunks : List (List ℕ) → List ℕ
concat_chunks [] = []
concat_chunks (chunk ∷ chunks) = chunk ++ concat_chunks chunks

abbrev pub payloads : List Frame → List (List ℕ)
payloads [] = []
payloads (f ∷ fs) = f.payload ∷ payloads fs

-- A frame has four bytes of length, a nonce and a tag of 28 bytes, and the header of ten.
abbrev pub room_for : List (List ℕ) → ℕ
room_for [] = 0
room_for (chunk ∷ chunks) = 42 + length chunk + room_for chunks

-- remote.Read fills at most a buffer of 32 KiB.
abbrev pub IsChunk : List ℕ → Type 0
IsChunk chunk = length chunk ≤ 32 * 1024

module _ (aead : Aead) (laws : IsAead aead) (stop : IoError) (conn_id : ℕ) where
  -- The handler after a chunk that was written as the frame `f`.
  abbrev after : List ℕ → Frame → Download → Download
  after chunk f d = record {
    random = drop nonce_size d.random;
    body = record {
      written = d.body.written ++ frame_bytes f;
      room = d.body.room - (42 + length chunk);
    };
  }

  abbrev IsSent : List ℕ → Download → Type 0
  IsSent chunk d =
      (f : Frame) × (send_chunk aead stop conn_id chunk d ≡ (true, after chunk f d))
      × IsFrame aead conn_id f
      × (f.payload ≡ chunk)

  -- The two writes of a cipher text.
  send_chunk-writes :
      (chunk c : List ℕ) (d : Download)
      → 42 + length chunk ≤ d.body.room
      → encrypt aead stop d.random (header_bytes msg_data conn_id (length chunk) ++ chunk)
        ≡ ok (c, drop nonce_size d.random)
      → length c ≡ 38 + length chunk
      → send_chunk aead stop conn_id chunk d
        ≡ (true, after chunk (record { payload = chunk; cipher = c }) d)
  unfolding send_chunk
  send_chunk-writes chunk c d room e size =
      let lead = put_u32 (length c) in
      let sends = ap (λ r. send_encrypted r d) e in
      let mid : Sink = record { written = d.body.written ++ lead; room = d.body.room - 4 } in
      let left : d.body.room - 4 - length c ≡ d.body.room - (42 + length chunk) = omega arith in
      let joined = append_assoc d.body.written lead c in
      sends
      ∙ (unfold send_encrypted in
          rw (write_fits lead d.body (omega arith), write_fits c mid (omega arith), left, joined)
            refl)

  -- One chunk is one frame.
  send_chunk-frame :
      (chunk : List ℕ) (d : Download)
      → IsChunk chunk
      → nonce_size ≤ length d.random
      → 42 + length chunk ≤ d.body.room
      → IsSent chunk d
  send_chunk-frame chunk d small entropy room = framed (
      decrypt-encrypt aead stop d.random (header_bytes msg_data conn_id (length chunk) ++ chunk)
        laws entropy)
    where
      framed :
          (c : List ℕ) × (encrypt aead stop d.random
                (header_bytes msg_data conn_id (length chunk) ++ chunk)
              ≡ ok (c, drop nonce_size d.random))
            × (decrypt aead c ≡ ok (header_bytes msg_data conn_id (length chunk) ++ chunk))
            × (length c ≡ length (header_bytes msg_data conn_id (length chunk) ++ chunk) + 28)
          → IsSent chunk d
      framed (c, e, opens, size) =
          let total = length-append (header_bytes msg_data conn_id (length chunk)) chunk in
          (
            record { payload = chunk; cipher = c },
            send_chunk-writes chunk c d room e (omega arith),
            record { decrypts = opens; small = omega arith; admitted = omega arith },
            refl,
          )

  abbrev IsServed : List (List ℕ) → Download → Type 0
  IsServed chunks d =
      (fs : List Frame) × ((serve_download aead stop conn_id (events_of chunks) d).body.written
        ≡ d.body.written ++ wire fs)
      × All (IsFrame aead conn_id) fs
      × (payloads fs ≡ chunks)
      × (data_of fs ≡ concat_chunks chunks)

  IsServed-sent :
      (chunk : List ℕ) (chunks : List (List ℕ)) (d : Download) (s : IsSent chunk d)
      → IsServed chunks (after chunk s.0 d)
      → IsServed (chunk ∷ chunks) d
  unfolding serve_download
  IsServed-sent chunk chunks d (f, runs, valid, same) (fs, written, all_valid, each, concat) = (
    f ∷ fs,
    rw runs (written ∙ append_assoc d.body.written (frame_bytes f) (wire fs)),
    (valid, all_valid),
    rw (same, each) refl,
    rw (same, concat) refl,
  )

  -- With a lawful AEAD, twelve random bytes for each chunk and room in the response, the loop over chunks of at
  -- most 32 KiB and then the end of the channel writes exactly one frame for each chunk, in order, with the chunk as
  -- its data: the reader admits each frame, which decrypts to its message, and their data, one after another, is
  -- the chunks one after another.
  pub serve_download-frames :
      (chunks : List (List ℕ)) (d : Download)
      → All IsChunk chunks
      → nonce_size * length chunks ≤ length d.random
      → room_for chunks ≤ d.body.room
      → (fs : List Frame) × ((serve_download aead stop conn_id (events_of chunks) d).body.written
          ≡ d.body.written ++ wire fs)
        × All (IsFrame aead conn_id) fs
        × (payloads fs ≡ chunks)
        × (data_of fs ≡ concat_chunks chunks)
  serve_download-frames [] d small entropy room =
      ([], unfold serve_download in sym (append-nil d.body.written), tt, refl, refl)
  serve_download-frames (chunk ∷ chunks) d small entropy room =
      let left = length-drop nonce_size d.random in
      let s = send_chunk-frame chunk d small.0 (omega arith) (omega arith) in
      IsServed-sent chunk chunks d s
        (serve_download-frames chunks (after chunk s.0 d) small.1 (omega arith) (omega arith))
