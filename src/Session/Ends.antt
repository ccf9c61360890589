-- ===== src/Session/Ends.antt =====
-- handler.go: serveHTTP on any bytes.
use ptbridge.Base.{
  ℕ, zero, suc, ◌+◌, ◌<◌, ◌≡◌, refl, sym, ap, subst, ◌∙◌, ◌⊎◌, inl, inr, true, List, [], ◌++◌,
  arith, leb, Bool-cases, length, take, drop, length-append, All-suffix, All-drop, IsByte, AreBytes,
  ok, err, Result-cases, Returns, returns, Returns-if, ◌=ˢ◌, IoError, unexpected, read_full,
}
use ptbridge.Encapsulation.{read_data}
use ptbridge.Encapsulation.Format.{length_prefix, padded, data_chunk}
use ptbridge.Encapsulation.WritePadding.{padded-append}
use ptbridge.Encapsulation.Write.{length-length_prefix}
use ptbridge.Encapsulation.Sound.{read_data_settles, IsRead, read_data_sound}
use ptbridge.Session.Relay.{width_bytes-pos}
use ptbridge.Session.{token, number_of, read_loop, serve_client, serve}
use ptbridge.Turbotunnel.PacketConn.{QueuePacketConn, queue_incoming}
use ptbridge.Turbotunnel.PacketConn.Queues.{IsConn}
use ptbridge.Turbotunnel.PacketConn.Reachable.{queue_incoming-IsConn}

-- What is left behind a chunk is bytes, and fewer.
IsRead-shorter :
    (src p rest : List ℕ)
    → AreBytes src
    → IsRead src p rest
    → AreBytes rest × (length rest < length src)
IsRead-shorter src p rest bytes (ps, w, pads, small, same) =
    let prefix = length_prefix true w (length p) in
    let whole : src ≡ padded ps [] ++ (prefix ++ (p ++ rest)) =
      same ∙ sym (padded-append ps [] (data_chunk w p rest)) in
    let here : AreBytes (padded ps [] ++ (prefix ++ (p ++ rest))) = subst AreBytes whole bytes in
    (
      All-suffix IsByte p rest (
          All-suffix IsByte prefix (p ++ rest)
            (All-suffix IsByte (padded ps []) (prefix ++ (p ++ rest)) here)),
      omega (
        arith,
        ap length whole,
        length-append (padded ps []) (prefix ++ (p ++ rest)),
        length-append prefix (p ++ rest),
        length-append p rest,
        length-length_prefix true w (length p),
        width_bytes-pos w,
      ),
    )

read_loop-Returns :
    (fuel : ℕ) (stop : IoError) (client : ℕ) (src : List ℕ) (c : QueuePacketConn)
    → length src < fuel
    → AreBytes src
    → IsConn c
    → Returns (λ r. IsConn r.1) (read_loop fuel stop client src c)
unfolding read_loop
read_loop-Returns zero stop client src c enough bytes well = absurd (omega arith)
read_loop-Returns (suc fuel) stop client src c enough bytes well =
    elim (Result-cases (read_data stop src)) [
      | inl ((p, rest), e) ↦
          let (left, shorter) =
            IsRead-shorter src p rest bytes (read_data_sound stop src p rest bytes e) in
          rw e (
            read_loop-Returns fuel stop client rest (queue_incoming p client c) (omega arith) left
              (queue_incoming-IsConn c well p client))
      | inr (inl (x, e)) ↦ rw e (returns well)
      | inr (inr (inl e)) ↦ absurd ((read_data_settles stop src).0 e)
      | inr (inr (inr e)) ↦ absurd ((read_data_settles stop src).1 e)
    ]

read_full-cases :
    (stop : IoError) (n : ℕ) (src : List ℕ)
    → (read_full stop n src ≡ ok (take n src, drop n src))
      ⊎ ((e : IoError) × (read_full stop n src ≡ err e))
unfolding read_full
read_full-cases stop n src = elim (Bool-cases (leb n (length src))) [
  | inl h ↦ inl (rw h refl)
  | inr h ↦ elim (Bool-cases (leb (length src) 0)) [
    | inl g ↦ inr (stop, rw (h, g) refl)
    | inr g ↦ inr (unexpected stop, rw (h, g) refl)
  ]
]

serve_client-Returns :
    (stop : IoError) (src : List ℕ) (c : QueuePacketConn)
    → AreBytes src
    → IsConn c
    → Returns (λ r. IsConn r.1) (serve_client stop c (read_full stop 8 src))
serve_client-Returns stop src c bytes well = elim (read_full-cases stop 8 src) [
  | inl e ↦ rw e (
      read_loop-Returns (length (drop 8 src) + 1) stop (number_of (take 8 src)) (drop 8 src) c
        (omega arith) (All-drop IsByte 8 src bytes) well)
  | inr (x, e) ↦ rw e (returns well)
]

-- Whatever bytes come, and however they end, serveHTTP reads them to an end, without a panic, and leaves a server's
-- well-formed queues well-formed.
pub serve-Returns :
    (stop : IoError) (src : List ℕ) (c : QueuePacketConn)
    → AreBytes src
    → IsConn c
    → Returns (λ r. IsConn r.1) (serve stop src c)
unfolding serve
serve-Returns stop src c bytes well = elim (read_full-cases stop 8 src) [
  | inr (x, e) ↦ rw e (returns well)
  | inl e ↦ rw e (
      Returns-if (take 8 src =ˢ token) _ _
        (λ h. serve_client-Returns stop (drop 8 src) c (All-drop IsByte 8 src bytes) well)
        (λ h. returns well))
]
