-- ===== src/Dpi/Tunnel/Streams.antt =====
-- pumpRead and Read together: the bytes of the response body, in order.
use ptbridge.Base.{
  ℕ, ◌≤◌, ◌<◌, ◌≡◌, refl, sym, ap, subst, ◌∙◌, ◌≢◌, ◌⊎◌, inl, inr, Bool, true, false, List, [], ◌∷◌,
  ◌++◌, append-nil, append_assoc, arith, ltb, Bool-cases, length, length-append, ok, ok-injective,
}
use ptbridge.Dpi.Tunnel.{Incoming, read_chunk, read}
use ptbridge.Dpi.Tunnel.Reads.{concat_chunks, pending, IsRead, read-IsRead}
use ptbridge.Dpi.Tunnel.ReadPump.{
  Place, checks, reads, fails, ends, sends, Pumped, read_ch_size, start, after_send, Step,
  checks_closed, checks_open, body_gives, body_fails, body_empty, sends_chunk, sends_closed,
  fails_closed, fails_open, calls_read, calls_close, Steps, no_steps, and_then,
}

abbrev pub held : Place → List ℕ
held (sends chunk bad) = chunk
held checks = []
held reads = []
held fails = []
held ends = []

-- What was read from the body is what was handed out, what waits, and what is lost; nothing is lost while the pump runs.
pub record IsStream (s : Pumped) : Type 0 where
  pub lost : List ℕ
  pub whole : s.got ≡ s.given ++ (pending s.incoming ++ (held s.place ++ lost))
  pub running : (s.place ≡ ends) ⊎ (lost ≡ [])
  pub bounded : length (s.incoming).read_ch ≤ read_ch_size

-- A step that moves only the pump, from a place to one that holds the same.
moved-IsStream :
    (s : Pumped) (place' : Place) (incoming' : Incoming)
    → held place' ≡ held s.place
    → pending incoming' ≡ pending s.incoming
    → length incoming'.read_ch ≤ read_ch_size
    → s.place ≢ ends
    → IsStream s
    → IsStream (record s { place = place'; incoming = incoming' })
moved-IsStream s place' incoming' h w small alive stream = record {
  lost = stream.lost;
  whole =
      stream.whole
      ∙ ap (λ q. s.given ++ (q ++ (held s.place ++ stream.lost))) (sym w)
      ∙ ap (λ q. s.given ++ (pending incoming' ++ (q ++ stream.lost))) (sym h);
  running = elim stream.running [ inl e ↦ absurd (alive e) | inr e ↦ inr e ];
  bounded = small;
}

-- The pump ends, and what it held is lost.
ended-IsStream : (s : Pumped) → IsStream s → IsStream (record s { place = ends })
ended-IsStream s stream = record {
  lost = held s.place ++ stream.lost;
  whole = stream.whole;
  running = inl refl;
  bounded = stream.bounded;
}

concat_chunks-snoc :
    (cs : List (List ℕ)) (c : List ℕ) → concat_chunks (cs ++ (c ∷ [])) ≡ concat_chunks cs ++ c
concat_chunks-snoc [] c = append-nil c
concat_chunks-snoc (x ∷ cs) c =
    ap (λ q. x ++ q) (concat_chunks-snoc cs c) ∙ sym (append_assoc x (concat_chunks cs) c)

held-after_send : (bad : Bool) → held (after_send bad) ≡ []
held-after_send true = refl
held-after_send false = refl

apart : (s : Pumped) (p : Place) → s.place ≡ p → p ≢ ends → s.place ≢ ends
apart s p e ne h = ne (sym e ∙ h)

still : (s : Pumped) (p : Place) → s.place ≡ p → held p ≡ [] → held s.place ≡ []
still s p e h = ap held e ∙ h

module _ (s : Pumped) (stream : IsStream s) where
  gives-IsStream :
      (chunk : List ℕ) (bad : Bool)
      → s.place ≡ reads
      → IsStream (record s { place = sends chunk bad; got = s.got ++ chunk })
  gives-IsStream chunk bad e =
      let none_lost : stream.lost ≡ [] = elim stream.running [
        | inl h ↦ absurd (ground (arith, sym e ∙ h))
        | inr h ↦ h
      ] in
      let before : s.got ≡ s.given ++ pending s.incoming =
        stream.whole
        ∙ ap (λ q. s.given ++ (pending s.incoming ++ (q ++ stream.lost))) (still s reads e refl)
        ∙ ap (λ q. s.given ++ (pending s.incoming ++ q)) none_lost
        ∙ ap (λ q. s.given ++ q) (append-nil (pending s.incoming)) in
      record {
        lost = [];
        whole =
            ap (λ q. q ++ chunk) before
            ∙ append_assoc s.given (pending s.incoming) chunk
            ∙ ap (λ q. s.given ++ (pending s.incoming ++ q)) (sym (append-nil chunk));
        running = inr refl;
        bounded = stream.bounded;
      }

  sends-IsStream :
      (chunk : List ℕ) (bad : Bool)
      → s.place ≡ sends chunk bad
      → length (s.incoming).read_ch < read_ch_size
      → IsStream (record s {
        place = after_send bad;
        incoming = record (s.incoming) { read_ch = (s.incoming).read_ch ++ (chunk ∷ []) };
      })
  sends-IsStream chunk bad e room =
      let here : held s.place ≡ chunk = ap held e in
      let c = s.incoming in
      record {
        lost = stream.lost;
        whole =
            stream.whole
            ∙ ap (λ q. s.given ++ (pending c ++ (q ++ stream.lost))) here
            ∙ ap (λ q. s.given ++ q) (sym (append_assoc (pending c) chunk stream.lost))
            ∙ ap (λ q. s.given ++ (q ++ stream.lost))
                (append_assoc c.read_buf (concat_chunks c.read_ch) chunk)
            ∙ ap (λ q. s.given ++ ((c.read_buf ++ q) ++ stream.lost))
                (sym (concat_chunks-snoc c.read_ch chunk))
            ∙ ap
                (λ q.
                  s.given
                  ++ ((c.read_buf ++ concat_chunks (c.read_ch ++ (chunk ∷ [])))
                      ++ (q ++ stream.lost)))
                (sym (held-after_send bad));
        running = elim stream.running [
          | inl h ↦ absurd (ground (arith, sym e ∙ h))
          | inr h ↦ inr h
        ];
        bounded = omega (arith, length-append c.read_ch (chunk ∷ []));
      }

  read-IsStream :
      (n : ℕ) (p : List ℕ) (rest : Incoming)
      → read n s.incoming ≡ ok (p, rest)
      → length rest.read_ch ≤ read_ch_size
      → IsStream (record s { incoming = rest; given = s.given ++ p })
  read-IsStream n p rest e small =
      let taken : pending s.incoming ≡ p ++ pending rest =
        (subst (IsRead n (pending s.incoming)) e (read-IsRead n s.incoming)).0 in
      let more = held s.place ++ stream.lost in
      record {
        lost = stream.lost;
        whole =
            stream.whole
            ∙ ap (λ q. s.given ++ (q ++ more)) taken
            ∙ ap (λ q. s.given ++ q) (append_assoc p (pending rest) more)
            ∙ sym (append_assoc s.given p (pending rest ++ more));
        running = stream.running;
        bounded = small;
      }

-- A Read does not put chunks into the channel.
read_chunk-shorter :
    (n : ℕ) (chunks : List (List ℕ)) (b : Bool) (p : List ℕ) (rest : Incoming)
    → read_chunk n chunks b ≡ ok (p, rest)
    → length rest.read_ch ≤ length chunks
unfolding read_chunk
read_chunk-shorter n [] true p rest e = cc
read_chunk-shorter n [] false p rest e = cc
read_chunk-shorter n (chunk ∷ chunks) b p rest e =
    omega (arith, ap (λ r. length (r.1).read_ch) (ok-injective e))

read-shorter :
    (n : ℕ) (c : Incoming) (p : List ℕ) (rest : Incoming)
    → read n c ≡ ok (p, rest)
    → length rest.read_ch ≤ length c.read_ch
unfolding read
read-shorter n c p rest e = elim (Bool-cases (ltb 0 (length c.read_buf))) [
  | inl h ↦ omega (arith, ap (λ r. length (r.1).read_ch) (ok-injective (rw h at e)))
  | inr h ↦ read_chunk-shorter n c.read_ch c.closed p rest (rw h at e)
]

Step-IsStream : (s t : Pumped) → Step s t → IsStream s → IsStream t
Step-IsStream s _ (checks_closed e h) stream = ended-IsStream s stream
Step-IsStream s _ (checks_open e h) stream =
    moved-IsStream s reads s.incoming (sym (still s checks e refl)) refl stream.bounded
      (apart s checks e (λ q. ground arith)) stream
Step-IsStream s _ (body_gives chunk bad e) stream = gives-IsStream s stream chunk bad e
Step-IsStream s _ (body_fails e) stream =
    moved-IsStream s fails s.incoming (sym (still s reads e refl)) refl stream.bounded
      (apart s reads e (λ q. ground arith)) stream
Step-IsStream s _ (body_empty e) stream =
    moved-IsStream s checks s.incoming (sym (still s reads e refl)) refl stream.bounded
      (apart s reads e (λ q. ground arith)) stream
Step-IsStream s _ (sends_chunk chunk bad e h) stream = sends-IsStream s stream chunk bad e h
Step-IsStream s _ (sends_closed chunk bad e h) stream = ended-IsStream s stream
Step-IsStream s _ (fails_closed e h) stream = ended-IsStream s stream
Step-IsStream s _ (fails_open e h) stream =
    ended-IsStream (record s { incoming = record (s.incoming) { closed = true } })
      (moved-IsStream s s.place (record (s.incoming) { closed = true }) refl refl stream.bounded
        (apart s fails e (λ q. ground arith)) stream)
Step-IsStream s _ (calls_read {p = p} {rest = rest} n e) stream =
    read-IsStream s stream n p rest e
      (omega (arith, stream.bounded, read-shorter n s.incoming p rest e))
Step-IsStream s _ calls_close stream = record {
  lost = stream.lost;
  whole = stream.whole;
  running = stream.running;
  bounded = stream.bounded;
}

-- Whatever the response body gives, and however Read and Close are called: the bytes that Read handed out, and behind
-- them those that wait for it, are the first of those that the body gave, in order, and all of them while pumpRead
-- runs; readCh has at most 16 chunks.
pub Steps-IsStream : (s : Pumped) → Steps start s → IsStream s
Steps-IsStream s more =
    from start s more
      (record { lost = []; whole = refl; running = inr refl; bounded = omega arith })
  where
    from : (a b : Pumped) → Steps a b → IsStream a → IsStream b
    from _ _ no_steps h = h
    from a u (and_then {t = t} more step) h = Step-IsStream t u step (from a t more h)
