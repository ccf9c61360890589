-- ===== src/Dpi/Download/Tests.antt =====
-- A download of two chunks.
use ptbridge.Base.{
  ℕ, ◌-◌, ◌^◌, ◌≤◌, ◌<◌, ◌≡◌, refl, ◌≢◌, ◌↔◌, List, [], ◌∷◌, ◌++◌, arith, length, All, ok, panic,
  out_of_fuel, eof,
}
use ptbridge.Dpi.Header.{msg_data, header_bytes}
use ptbridge.Dpi.Crypto.{decrypt}
use ptbridge.Dpi.Toy.{aead, IsAead-aead, nonce, encrypted}
use ptbridge.Dpi.Download.{Download, serve_download, StreamReader, chunk_of, read}
use ptbridge.Dpi.Download.Frames.{Frame, IsFrame, wire, data_of}
use ptbridge.Dpi.Download.Reads.{IsStep, read-IsStep}
use ptbridge.Dpi.Download.Serves.{events_of, concat_chunks, payloads, serve_download-frames}
use ptbridge.Dpi.Download.Totals.{payload_len_of, chunk_of-panic, read-fueled}

abbrev frame : List ℕ → Frame
frame chunk = record {
  payload = chunk;
  cipher = encrypted (header_bytes msg_data 3 (length chunk) ++ chunk);
}

abbrev frames : List Frame
frames = frame (7 ∷ 8 ∷ 9 ∷ []) ∷ frame (5 ∷ []) ∷ []

IsFrame-frames : All (IsFrame aead 3) frames
unfolding decrypt
IsFrame-frames = (
  record { decrypts = refl; small = omega arith; admitted = omega arith },
  (record { decrypts = refl; small = omega arith; admitted = omega arith }, tt),
)

abbrev reader : StreamReader
reader = record { body = wire frames; decrypted = []; off = 0 }

abbrev at_end : StreamReader
at_end = record { body = []; decrypted = 4 ∷ []; off = 1 }

read-IsStep_example :
    (p : List ℕ) × (sr' : StreamReader) × (fs' : List Frame) × (read aead eof 2 reader
      ≡ ok (p, sr'))
    × IsStep 2 reader frames p sr' fs'
    × All (IsFrame aead 3) fs'
read-IsStep_example =
    read-IsStep aead eof 3 2 (omega arith) reader frames IsFrame-frames refl (omega arith)

abbrev download : Download
download = record { random = nonce ++ nonce; body = record { written = []; room = 100 } }

abbrev chunks : List (List ℕ)
chunks = (7 ∷ 8 ∷ 9 ∷ []) ∷ (5 ∷ []) ∷ []

serve_download-frames_example :
    (fs : List Frame) × ((serve_download aead eof 3 (events_of chunks) download).body.written
      ≡ [] ++ wire fs)
    × All (IsFrame aead 3) fs
    × (payloads fs ≡ chunks)
    × (data_of fs ≡ concat_chunks chunks)
serve_download-frames_example =
    serve_download-frames aead IsAead-aead eof 3 chunks download (omega arith) (omega arith)
      (omega arith)

-- A message of eleven bytes that states a length of 2 ^ 32 - 1.
abbrev wrapping : List ℕ
wrapping = 1 ∷ 2 ∷ 0 ∷ 0 ∷ 0 ∷ 3 ∷ 255 ∷ 255 ∷ 255 ∷ 255 ∷ 0 ∷ []

chunk_of-panic_example :
    (chunk_of wrapping ≡ panic) ↔ ((10 < length wrapping) × (2 ^ 32 - 10 ≤ payload_len_of wrapping))
chunk_of-panic_example = chunk_of-panic wrapping (omega arith)

read-fueled_example : read aead eof 2 reader ≢ out_of_fuel
read-fueled_example = read-fueled aead eof 2 reader
