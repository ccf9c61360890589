-- ===== src/Dpi/Download/Reads.antt =====
-- streamReader.Read over the frames of a download: the reader hands out the bytes that the server sent.
use ptbridge.Base.{
  ℕ, zero, suc, ◌+◌, ◌≤◌, ◌<◌, ◌≡◌, refl, sym, ap, ◌∙◌, List, [], ◌∷◌, ◌++◌, append_assoc, length,
  take, drop, length-append, length-take, length-drop, take-drop-length, length-zero, All, ok, err,
  IoError, read_full, ltb, true, false, arith, inl, inr, Bool-cases, ltb→lt,
}
use ptbridge.Dpi.Crypto.{Aead}
use ptbridge.Dpi.Download.{io, StreamReader, next_chunk, read_loop, read}
use ptbridge.Dpi.Download.Frames.{Frame, IsFrame, wire, data_of, next_chunk-frame, length-wire}

drop-nil {ℓ} : {A : Type ℓ} (n : ℕ) → ◌≡◌ {A = List A} (drop n []) []
drop-nil zero = refl
drop-nil (suc n) = refl

drop-drop {ℓ} : {A : Type ℓ} (m n : ℕ) (xs : List A) → drop (m + n) xs ≡ drop n (drop m xs)
drop-drop zero n xs = ap (λ k. drop k xs) (omega arith)
drop-drop (suc m) n [] = drop-nil (suc m + n) ∙ sym (drop-nil n)
drop-drop (suc m) n (x ∷ xs) =
    let e : suc m + n ≡ suc (m + n) = omega arith in ap (λ k. drop k (x ∷ xs)) e ∙ drop-drop m n xs

-- The bytes that are still to come: the rest of the chunk, and the data of the frames ahead.
abbrev pub pending : StreamReader → List Frame → List ℕ
pending sr fs = drop sr.off sr.decrypted ++ data_of fs

-- What one Read of `n` bytes has done: it handed out at least one byte and at most `n`, the first that were
-- pending, and the reader stands before the others.
pub record IsStep (n : ℕ) (sr : StreamReader) (fs : List Frame) (p : List ℕ) (sr' : StreamReader)
    (fs' : List Frame) : Type 0 where
  pub some_byte : 0 < length p
  pub bounded : length p ≤ n
  pub stream : pending sr fs ≡ p ++ pending sr' fs'
  pub ahead : sr'.body ≡ wire fs'

module _ (aead : Aead) (stop : IoError) (conn_id n : ℕ) (positive : 0 < n) where
  -- A chunk that is not used up is handed out from.
  read_loop-chunk :
      (fuel : ℕ) (sr : StreamReader) (fs : List Frame)
      → sr.off < length sr.decrypted
      → sr.body ≡ wire fs
      → (p : List ℕ) × (sr' : StreamReader) × (read_loop (suc fuel) aead stop n sr ≡ ok (p, sr'))
        × IsStep n sr fs p sr' fs
  unfolding read_loop
  read_loop-chunk fuel sr fs h e =
      let rest = drop sr.off sr.decrypted in
      let p = take n rest in
      let more : ltb sr.off (length sr.decrypted) ≡ true = ground arith in
      let size = length-take n rest in
      let left = length-drop sr.off sr.decrypted in
      (
        p,
        record sr { off = sr.off + length p },
        rw more refl,
        record {
          some_byte = omega arith;
          bounded = omega arith;
          stream =
              ap (λ r. r ++ data_of fs)
                (sym (take-drop-length n rest)
                  ∙ ap (λ r. p ++ r) (sym (drop-drop sr.off (length p) sr.decrypted)))
              ∙ append_assoc p (drop (sr.off + length p) sr.decrypted) (data_of fs);
          ahead = e;
        },
      )

  -- Without one, the next frame is read.
  read_loop-frame :
      (fuel : ℕ) (sr : StreamReader) (f : Frame) (fs : List Frame)
      → length sr.decrypted ≤ sr.off
      → sr.body ≡ wire (f ∷ fs)
      → IsFrame aead conn_id f
      → read_loop (suc fuel) aead stop n sr
        ≡ read_loop fuel aead stop n (record { body = wire fs; decrypted = f.payload; off = 0 })
  unfolding read_loop
  read_loop-frame fuel sr f fs h e valid =
      let used : ltb sr.off (length sr.decrypted) ≡ false = ground arith in
      rw (used, e, next_chunk-frame aead stop conn_id f (wire fs) valid) refl

  abbrev Reads : ℕ → StreamReader → List Frame → Type 0
  Reads fuel sr fs =
      (p : List ℕ) × (sr' : StreamReader) × (fs' : List Frame) × (read_loop fuel aead stop n sr
        ≡ ok (p, sr'))
      × IsStep n sr fs p sr' fs'
      × All (IsFrame aead conn_id) fs'

  -- A frame that was read ahead of the bytes is part of the step.
  Reads-frame :
      (fuel : ℕ) (sr : StreamReader) (f : Frame) (fs : List Frame)
      → read_loop (suc fuel) aead stop n sr
        ≡ read_loop fuel aead stop n (record { body = wire fs; decrypted = f.payload; off = 0 })
      → pending sr (f ∷ fs) ≡ f.payload ++ data_of fs
      → Reads fuel (record { body = wire fs; decrypted = f.payload; off = 0 }) fs
      → Reads (suc fuel) sr (f ∷ fs)
  Reads-frame fuel sr f fs goes_on same (p, sr', fs', runs, step, valid) = (
    p,
    sr',
    fs',
    goes_on ∙ runs,
    record {
      some_byte = step.some_byte;
      bounded = step.bounded;
      stream = same ∙ step.stream;
      ahead = step.ahead;
    },
    valid,
  )

  drop-used : (sr : StreamReader) → length sr.decrypted ≤ sr.off → drop sr.off sr.decrypted ≡ []
  drop-used sr h =
      length-zero (drop sr.off sr.decrypted) (omega (arith, length-drop sr.off sr.decrypted))

  pub read_loop-step :
      (fuel : ℕ) (sr : StreamReader) (fs : List Frame)
      → length fs < fuel
      → All (IsFrame aead conn_id) fs
      → sr.body ≡ wire fs
      → 0 < length (pending sr fs)
      → Reads fuel sr fs
  read_loop-step zero sr fs h valid e left = absurd (omega arith)
  read_loop-step (suc fuel) sr [] h valid e left =
      elim (Bool-cases (ltb sr.off (length sr.decrypted))) [
        | inl more ↦
            let (p, sr', runs, step) =
              read_loop-chunk fuel sr [] (ltb→lt sr.off (length sr.decrypted) more) e in
            (p, sr', [], runs, step, tt)
        | inr used ↦
            let none_left = ap (λ r. length (r ++ data_of [])) (drop-used sr (ground arith)) in
            absurd (omega arith)
      ]
  read_loop-step (suc fuel) sr (f ∷ fs) h valid e left =
      elim (Bool-cases (ltb sr.off (length sr.decrypted))) [
        | inl more ↦
            let (p, sr', runs, step) =
              read_loop-chunk fuel sr (f ∷ fs) (ltb→lt sr.off (length sr.decrypted) more) e in
            (p, sr', f ∷ fs, runs, step, valid)
        | inr used ↦
            let past : length sr.decrypted ≤ sr.off = ground arith in
            let same : pending sr (f ∷ fs) ≡ f.payload ++ data_of fs =
              ap (λ r. r ++ data_of (f ∷ fs)) (drop-used sr past) in
            let next : StreamReader = record { body = wire fs; decrypted = f.payload; off = 0 } in
            let still : 0 < length (pending next fs) = rw (← same) left in
            Reads-frame fuel sr f fs (read_loop-frame fuel sr f fs past e valid.0) same
              (read_loop-step fuel next fs (omega arith) valid.1 refl still)
      ]

  -- Read before the frames of a download, of valid messages, with a byte that is still to come and a buffer that
  -- is not empty: it returns, without an error, at least one byte and at most the buffer's length, the first of
  -- those to come, and the reader stands before the others, with the frames that are not read yet ahead of it.
  pub read-IsStep :
      (sr : StreamReader) (fs : List Frame)
      → All (IsFrame aead conn_id) fs
      → sr.body ≡ wire fs
      → 0 < length (pending sr fs)
      → (p : List ℕ) × (sr' : StreamReader) × (fs' : List Frame) × (read aead stop n sr
          ≡ ok (p, sr'))
        × IsStep n sr fs p sr' fs'
        × All (IsFrame aead conn_id) fs'
  unfolding read
  read-IsStep sr fs valid e left =
      let size = ap length e in
      read_loop-step (length sr.body + 1) sr fs (omega (arith, length-wire fs)) valid e left

  read_loop-end :
      (fuel : ℕ) (sr : StreamReader) (fs : List Frame)
      → length fs < fuel
      → All (IsFrame aead conn_id) fs
      → sr.body ≡ wire fs
      → length (pending sr fs) ≡ 0
      → read_loop fuel aead stop n sr ≡ err (io stop)
  unfolding read_loop
  read_loop-end zero sr fs h valid e none_left = absurd (omega arith)
  read_loop-end (suc fuel) sr [] h valid e none_left =
      let size = length-append (drop sr.off sr.decrypted) [] in
      let left = length-drop sr.off sr.decrypted in
      let used : ltb sr.off (length sr.decrypted) ≡ false = ground arith in
      rw (used, e) (unfold next_chunk read_full in refl)
  read_loop-end (suc fuel) sr (f ∷ fs) h valid e none_left =
      let size = length-append (drop sr.off sr.decrypted) (data_of (f ∷ fs)) in
      let left = length-drop sr.off sr.decrypted in
      let both = length-append f.payload (data_of fs) in
      let past : length sr.decrypted ≤ sr.off = omega arith in
      read_loop-frame fuel sr f fs past e valid.0
      ∙ read_loop-end fuel (record { body = wire fs; decrypted = f.payload; off = 0 }) fs
          (omega arith) valid.1 refl (omega arith)

  -- Read before the frames of a download, of valid messages, with no byte to come returns the error that the
  -- response body ends with.
  pub read-end :
      (sr : StreamReader) (fs : List Frame)
      → All (IsFrame aead conn_id) fs
      → sr.body ≡ wire fs
      → length (pending sr fs) ≡ 0
      → read aead stop n sr ≡ err (io stop)
  unfolding read
  read-end sr fs valid e none_left =
      let size = ap length e in
      read_loop-end (length sr.body + 1) sr fs (omega (arith, length-wire fs)) valid e none_left
