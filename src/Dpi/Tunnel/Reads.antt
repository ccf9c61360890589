-- ===== src/Dpi/Tunnel/Reads.antt =====
-- tunnelConn.Read keeps the order of the bytes, whatever the sizes of the buffers.
use ptbridge.Base.{
  ℕ, ◌≤◌, ◌≡◌, refl, sym, ap, ◌∙◌, List, [], ◌∷◌, ◌++◌, append_assoc, length, take, drop,
  length-take, length-append, Bool, Bool-cases, true, false, Result, ok, err, panic, out_of_fuel,
  IoError, eof, ltb, if◌then◌else◌, inl, inr, arith, take-drop-length, length-zero,
}
use ptbridge.Dpi.Tunnel.{Incoming, read_chunk, read}

abbrev pub concat_chunks : List (List ℕ) → List ℕ
concat_chunks [] = []
concat_chunks (chunk ∷ chunks) = chunk ++ concat_chunks chunks

-- The bytes that were received and are not handed out.
abbrev pub pending : Incoming → List ℕ
pending c = c.read_buf ++ concat_chunks c.read_ch

-- The rest of a chunk behind what was taken of it.
rest-taken :
    (n : ℕ) (chunk : List ℕ)
    → chunk
      ≡ take n chunk
        ++ (if ltb (length (take n chunk)) (length chunk)
            then drop (length (take n chunk)) chunk
            else [])
rest-taken n chunk = elim (Bool-cases (ltb (length (take n chunk)) (length chunk))) [
  | inl e ↦ rw e (sym (take-drop-length n chunk))
  | inr e ↦
      let whole : length (drop (length (take n chunk)) chunk) ≡ 0 = ground (
        arith,
        length-append (take n chunk) (drop (length (take n chunk)) chunk),
        ap length (take-drop-length n chunk),
      ) in
      rw e (sym (take-drop-length n chunk) ∙ ap (λ r. take n chunk ++ r) (length-zero _ whole))
]

-- A Read of `n` bytes has handed out the first of the bytes `before`, and left the others.
abbrev pub IsRead : ℕ → List ℕ → Result IoError (List ℕ × Incoming) → Type 0
IsRead n before (ok (p, c)) = (before ≡ p ++ pending c) × (length p ≤ n)
IsRead n before (err e) = (e ≡ eof) × (before ≡ [])
IsRead n before panic = ⊥
IsRead n before out_of_fuel = before ≡ []

read_chunk-IsRead :
    (n : ℕ) (chunks : List (List ℕ)) (closed : Bool)
    → IsRead n (concat_chunks chunks) (read_chunk n chunks closed)
unfolding read_chunk
read_chunk-IsRead n [] true = (refl, refl)
read_chunk-IsRead n [] false = refl
read_chunk-IsRead n (chunk ∷ chunks) closed = (
  ap (λ r. r ++ concat_chunks chunks) (rest-taken n chunk)
      ∙ append_assoc (take n chunk) _ (concat_chunks chunks),
  omega (arith, length-take n chunk),
)

read-IsRead_by :
    (n : ℕ) (buf : List ℕ) (chunks : List (List ℕ)) (closed : Bool)
    → IsRead n
        (buf ++ concat_chunks chunks)
        (read n (record { read_buf = buf; read_ch = chunks; closed = closed }))
unfolding read
read-IsRead_by n [] chunks closed = read_chunk-IsRead n chunks closed
read-IsRead_by n (b ∷ bs) chunks closed =
    let more : ltb 0 (length (b ∷ bs)) ≡ true = ground arith in
    rw more (
      ap (λ r. r ++ concat_chunks chunks) (sym (take-drop-length n (b ∷ bs)))
          ∙ append_assoc (take n (b ∷ bs)) _ (concat_chunks chunks),
      omega (arith, length-take n (b ∷ bs)),
    )

-- Read into a buffer of `n` bytes hands out at most `n` bytes, the first of those that were received, and leaves the
-- others for the next Read; it waits, or gives io.EOF and no other error, only if no byte is left, and never panics.
pub read-IsRead : (n : ℕ) (c : Incoming) → IsRead n (pending c) (read n c)
read-IsRead n c = read-IsRead_by n c.read_buf c.read_ch c.closed
