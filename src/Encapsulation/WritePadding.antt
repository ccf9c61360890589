-- ===== src/Encapsulation/WritePadding.antt =====
-- WritePadding: the chunks that it puts on the stream, and how it ends on any writer.
use ptbridge.Base.{
  ℕ, zero, suc, ◌+◌, ◌-◌, ◌/◌, ◌^◌, ◌≤◌, ◌<◌, ◌≡◌, refl, sym, ap, ◌∙◌, false, List, [], ◌∷◌, ◌++◌,
  append-nil, append_assoc, none, length, take, replicate, length-append, length-replicate, leb, ok,
  arith, mask_6, mask_7, set_bit_6, Sink, pos, Bool-cases, inl, inr,
}
use ptbridge.Encapsulation.{
  Report, write_both, padding_buffer, padding_chunk, round_size, write_padding_loop, write_padding,
}
use ptbridge.Encapsulation.Format.{
  Width, one, two, capacity, width_bytes, length_prefix, Padding, IsPadding, ArePaddings, padded,
}
use ptbridge.Encapsulation.Write.{write_both_fits, length-length_prefix}

-- The switch of WritePadding picks a prefix of the format that leaves the chunk its size.
pub padding_chunk_lem :
    (p : ℕ)
    → 0 < p
    → p ≤ 1024
    → (w : Width) × (padding_chunk p
        ≡ (length_prefix false w (p - width_bytes w), p - width_bytes w))
      × (p - width_bytes w < capacity w)
      × (width_bytes w ≤ p)
unfolding padding_chunk
padding_chunk_lem p some_byte small = elim (Bool-cases (leb p 64)) [
  | inl few ↦ (one, ground (arith, mask_6 (p - 1)), ground arith, ground arith)
  | inr many ↦ (
    two,
    ground (
      arith,
      mask_6 (p - 1),
      mask_6 ((p - 2) / 2 ^ 7),
      mask_7 (p - 2),
      set_bit_6 ((p - 2) / 2 ^ 7),
    ),
    ground arith,
    ground arith,
  )
]

pub take-replicate : (n m x : ℕ) → n ≤ m → take n (replicate m x) ≡ replicate n x
take-replicate zero m x h = refl
take-replicate (suc n) zero x h = absurd (omega arith)
take-replicate (suc n) (suc m) x h = ap (◌∷◌ x) (take-replicate n m x (omega arith))

-- One round with room: a chunk of `p` bytes.
round_fits :
    (p total : ℕ) (s : Sink)
    → 0 < p
    → p ≤ 1024
    → p ≤ s.room
    → (c : Padding) × IsPadding c
      × (length (padded (c ∷ []) []) ≡ p)
      × (write_both total (padding_chunk p).0 (take (padding_chunk p).1 padding_buffer) s ≡ record {
        total = total + p;
        failure = none;
        sink = record { written = s.written ++ padded (c ∷ []) []; room = s.room - p };
      })
round_fits p total s some_byte small room =
    let (w, chunk, fits, smaller) = padding_chunk_lem p some_byte small in
    let n = p - width_bytes w in
    let body = replicate n 0 in
    let size = length-replicate {A = ℕ} n 0 in
    let prefix_size = length-length_prefix false w n in
    let prefix = length_prefix false w n in
    (
      record { width = w; body = body },
      rw size fits,
      rw (length-append, size, length-append, size, prefix_size) (omega arith),
      rw (chunk, take-replicate n 1024 0 (omega arith))
          (write_both_fits total prefix body s (omega arith)
            ∙ ground (arith, append_assoc s.written prefix body, append-nil body)),
    )

pub padded-append : (ps : List Padding) (xs ys : List ℕ) → padded ps xs ++ ys ≡ padded ps (xs ++ ys)
padded-append [] xs ys = refl
padded-append (p ∷ ps) xs ys =
    append_assoc (length_prefix false p.width (length p.body)) _ ys
    ∙ ap (◌++◌ (length_prefix false p.width (length p.body)))
        (append_assoc p.body _ ys ∙ ap (◌++◌ p.body) (padded-append ps xs ys))

padded-cons :
    (c : Padding) (ps : List Padding) → padded (c ∷ []) [] ++ padded ps [] ≡ padded (c ∷ ps) []
padded-cons c ps = padded-append (c ∷ []) [] (padded ps [])

-- What a call that wrote all of `n` bytes of padding returns.
abbrev pub padding_report : ℕ → ℕ → Sink → List Padding → Report
padding_report n total s ps = record {
  total = total + n;
  failure = none;
  sink = record { written = s.written ++ padded ps []; room = s.room - n };
}

loop_step :
    (fuel m p total total' : ℕ) (s t : Sink)
    → round_size (suc m) ≡ p
    → write_both total (padding_chunk p).0 (take (padding_chunk p).1 padding_buffer) s
      ≡ record { total = total'; failure = none; sink = t }
    → write_padding_loop (suc fuel) (suc m) total s ≡ write_padding_loop fuel (suc m - p) total' t
unfolding write_padding_loop
loop_step fuel m p total total' s t same e = ground arith

padded_size :
    (c : Padding) (ps : List Padding) (p m : ℕ)
    → p ≤ m
    → length (padded (c ∷ []) []) ≡ p
    → length (padded ps []) ≡ m - p
    → length (padded (c ∷ ps) []) ≡ m
padded_size c ps p m h hc hps =
    sym (ap length (padded-cons c ps))
    ∙ length-append (padded (c ∷ []) []) (padded ps [])
    ∙ omega arith

padding_report_join :
    (c : Padding) (ps : List Padding) (p m total : ℕ) (s : Sink)
    → p ≤ m
    → padding_report
        (m - p)
        (total + p)
        (record { written = s.written ++ padded (c ∷ []) []; room = s.room - p })
        ps
      ≡ padding_report m total s (c ∷ ps)
padding_report_join c ps p m total s h =
    let whole : (s.written ++ padded (c ∷ []) []) ++ padded ps []
        ≡ s.written ++ padded (c ∷ ps) [] =
      append_assoc s.written (padded (c ∷ []) []) (padded ps [])
      ∙ ap (◌++◌ s.written) (padded-cons c ps) in
    λ i. record {
      total = counted i;
      failure = none;
      sink = record { written = whole i; room = left i };
    }
  where
    counted : total + p + (m - p) ≡ total + m
    counted = omega arith

    left : s.room - p - (m - p) ≡ s.room - m
    left = omega arith

-- What the loop promises for `n` bytes.
abbrev LoopWrites : ℕ → ℕ → ℕ → Sink → Type 0
LoopWrites fuel n total s =
    (ps : List Padding) × ArePaddings ps
    × (length (padded ps []) ≡ n)
    × (write_padding_loop fuel n total s ≡ ok (padding_report n total s ps))

loop_round :
    (fuel m p total : ℕ) (s : Sink)
    → round_size (suc m) ≡ p
    → p ≤ suc m
    → (c : Padding) × IsPadding c
      × (length (padded (c ∷ []) []) ≡ p)
      × (write_both total (padding_chunk p).0 (take (padding_chunk p).1 padding_buffer) s ≡ record {
        total = total + p;
        failure = none;
        sink = record { written = s.written ++ padded (c ∷ []) []; room = s.room - p };
      })
    → ((t : Sink) → t.room ≡ s.room - p → LoopWrites fuel (suc m - p) (total + p) t)
    → LoopWrites (suc fuel) (suc m) total s
loop_round fuel m p total s same h (c, is_padding, size, wrote) go =
    let t : Sink = record { written = s.written ++ padded (c ∷ []) []; room = s.room - p } in
    finish (go t refl)
  where
    finish :
        LoopWrites fuel
          (suc m - p)
          (total + p)
          (record { written = s.written ++ padded (c ∷ []) []; room = s.room - p })
        → LoopWrites (suc fuel) (suc m) total s
    finish (ps, pads, length_ps, rest) = (
      c ∷ ps,
      (is_padding, pads),
      padded_size c ps p (suc m) h size length_ps,
      loop_step fuel m p total (total + p) s _ same wrote
          ∙ rest
          ∙ ap ok (padding_report_join c ps p (suc m) total s h),
    )

loop_writes : (fuel n total : ℕ) (s : Sink) → n ≤ fuel → n ≤ s.room → LoopWrites fuel n total s
loop_writes fuel zero total s hf room =
    ([], tt, refl, unfold write_padding_loop in (ground (arith, append-nil s.written)))
loop_writes zero (suc m) total s hf room = absurd (omega arith)
loop_writes (suc fuel) (suc m) total s hf room =
    let p = round_size (suc m) in
    let small : p ≤ 1024 = ground arith in
    let within : p ≤ suc m = ground arith in
    loop_round fuel m p total s refl within
      (round_fits p total s (ground arith) small (omega arith))
      (λ t e. loop_writes fuel (suc m - p) (total + p) t (ground arith) (omega arith))

-- On a writer with room, WritePadding(w, n) writes whole padding chunks of exactly `n` bytes in all, and returns `n`.
pub write_padding_fits :
    (s : Sink) (n : ℕ)
    → n ≤ s.room
    → (ps : List Padding) × ArePaddings ps
      × (length (padded ps []) ≡ n)
      × (write_padding s (pos n) ≡ ok (padding_report n 0 s ps))
unfolding write_padding
write_padding_fits s n room = loop_writes n n 0 s (omega arith) room
