-- ===== src/Encapsulation/PaddingCounts.antt =====
-- WritePadding on any writer: how it ends, and with which count.
use ptbridge.Base.{
  ℕ, zero, suc, ◌+◌, ◌-◌, ◌≤◌, ◌<◌, ◌≡◌, refl, ap, ◌∙◌, false, List, none, some, length, take,
  length-replicate, ok, arith, Sink, write, pos, Option-cases, inl, inr,
}
use ptbridge.Encapsulation.{
  Error, Report, write_both, padding_buffer, padding_chunk, round_size, write_padding_loop,
  write_padding,
}
use ptbridge.Encapsulation.Format.{Width, capacity, width_bytes, length_prefix}
use ptbridge.Encapsulation.Write.{write_both_count, length-length_prefix}
use ptbridge.Encapsulation.WritePadding.{padding_chunk_lem, take-replicate}

write_both-none :
    (total : ℕ) (p q : List ℕ) (s : Sink)
    → (write_both total p q s).failure ≡ none
    → (write_both total p q s).total ≡ total + length p + length q
unfolding write_both write
write_both-none total p q s e = ground arith

-- What the loop promises on any writer: it returns, and with the number of bytes that the writer took.
abbrev LoopCounts : ℕ → ℕ → ℕ → Sink → Type 0
LoopCounts fuel n total s =
    (r : Report) × (write_padding_loop fuel n total s ≡ ok r)
    × (length r.sink.written + total ≡ length s.written + r.total)
    × (r.failure ≡ none → r.total ≡ total + n)

abbrev round_report : ℕ → ℕ → Sink → Report
round_report p total s =
    write_both total (padding_chunk p).0 (take (padding_chunk p).1 padding_buffer) s

round_total :
    (p total : ℕ) (s : Sink)
    → 0 < p
    → p ≤ 1024
    → (round_report p total s).failure ≡ none
    → (round_report p total s).total ≡ total + p
round_total p total s some_byte small e = sized (padding_chunk_lem p some_byte small)
  where
    sized :
        (w : Width) × (padding_chunk p
            ≡ (length_prefix false w (p - width_bytes w), p - width_bytes w))
          × (p - width_bytes w < capacity w)
          × (width_bytes w ≤ p)
        → (round_report p total s).total ≡ total + p
    sized (w, chunk, fits, smaller) =
        let n = p - width_bytes w in
        let body_size : length (take n padding_buffer) ≡ n =
          ap length (take-replicate n 1024 0 (omega arith)) ∙ length-replicate n 0 in
        omega (
          arith,
          write_both-none total (padding_chunk p).0 (take (padding_chunk p).1 padding_buffer) s e,
          ap (λ (c : List ℕ × ℕ). length c.0) chunk,
          ap (λ (c : List ℕ × ℕ). length (take c.1 padding_buffer)) chunk,
          length-length_prefix false w n,
          body_size,
        )

loop_stop :
    (fuel m p total : ℕ) (s : Sink) (x : Error)
    → round_size (suc m) ≡ p
    → (round_report p total s).failure ≡ some x
    → write_padding_loop (suc fuel) (suc m) total s ≡ ok (round_report p total s)
unfolding write_padding_loop
loop_stop fuel m p total s x same e = ground arith

loop_go :
    (fuel m p total : ℕ) (s : Sink)
    → round_size (suc m) ≡ p
    → (round_report p total s).failure ≡ none
    → write_padding_loop (suc fuel) (suc m) total s
      ≡ write_padding_loop fuel
          (suc m - p)
          (round_report p total s).total
          (round_report p total s).sink
unfolding write_padding_loop
loop_go fuel m p total s same e = ground arith

loop_counts : (fuel n total : ℕ) (s : Sink) → n ≤ fuel → LoopCounts fuel n total s
loop_counts fuel zero total s h = (
  record { total = total; failure = none; sink = s },
  unfold write_padding_loop in refl,
  refl,
  λ e. omega arith,
)
loop_counts zero (suc m) total s h = absurd (omega arith)
loop_counts (suc fuel) (suc m) total s h =
    let p = round_size (suc m) in
    let small : p ≤ 1024 = ground arith in
    let within : p ≤ suc m = ground arith in
    let some_byte : 0 < p = ground arith in
    let r = round_report p total s in
    let counted =
      write_both_count total (padding_chunk p).0 (take (padding_chunk p).1 padding_buffer) s in
    elim (Option-cases r.failure) [
      | inl e ↦
          go p r refl within counted e (round_total p total s some_byte small e)
            (loop_go fuel m p total s refl e)
            (loop_counts fuel (suc m - p) r.total r.sink (ground arith))
      | inr (x, e) ↦
          (r, loop_stop fuel m p total s x refl e, counted, λ none_left. absurd (ground arith))
    ]
  where
    go :
        (p : ℕ) (r : Report)
        → round_size (suc m) ≡ p
        → p ≤ suc m
        → length r.sink.written + total ≡ length s.written + r.total
        → r.failure ≡ none
        → r.total ≡ total + p
        → write_padding_loop (suc fuel) (suc m) total s
          ≡ write_padding_loop fuel (suc m - p) r.total r.sink
        → LoopCounts fuel (suc m - p) r.total r.sink
        → LoopCounts (suc fuel) (suc m) total s
    go p r same within counted e all step (r', rest, counted', all') =
        (r', step ∙ rest, omega arith, λ done. omega (arith, all' done))

-- On any writer WritePadding(w, n) returns: with the number of bytes that the writer took, which is `n` unless there was an error.
pub write_padding_counts :
    (s : Sink) (n : ℕ)
    → (r : Report) × (write_padding s (pos n) ≡ ok r)
      × (length r.sink.written ≡ length s.written + r.total)
      × (r.failure ≡ none → r.total ≡ n)
unfolding write_padding
write_padding_counts s n = finish (loop_counts n n 0 s (omega arith))
  where
    finish :
        LoopCounts n n 0 s
        → (r : Report) × (write_padding s (pos n) ≡ ok r)
          × (length r.sink.written ≡ length s.written + r.total)
          × (r.failure ≡ none → r.total ≡ n)
    finish (r, e, counted, all) = (r, e, omega arith, λ done. omega (arith, all done))
