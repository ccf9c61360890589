-- ===== src/Dpi/Tunnel/ReadPump.antt =====
-- tunnelConn of dpi/client/proxy.go: pumpRead, Read and Close as steps. What the response body gives is any step, and
-- so is the choice of a select with two ready cases.
use ptbridge.Base.{
  ℕ, ◌<◌, ◌≡◌, refl, sym, ◌∙◌, Bool, true, false, List, [], ◌∷◌, ◌++◌, arith, length, ok,
  out_of_fuel,
}
use ptbridge.Dpi.Tunnel.{Incoming, read_chunk, read}

-- The places of pumpRead: its first select, the read of the body, the send of a chunk with whether the read also
-- failed, the last select, the end.
pub data Place : Type 0 where
  checks reads fails ends : Place
  sends : List ℕ → Bool → Place

-- `got` is the bytes that the body gave, and `given` those that Read handed out.
pub record Pumped : Type 0 where
  pub incoming : Incoming
  pub close_ch : Bool
  pub place : Place
  pub got : List ℕ
  pub given : List ℕ

-- The size of readCh.
abbrev pub read_ch_size : ℕ
read_ch_size = 16

abbrev pub start : Pumped
start = record {
  incoming = record { read_buf = []; read_ch = []; closed = false };
  close_ch = false;
  place = checks;
  got = [];
  given = [];
}

abbrev pub after_send : Bool → Place
after_send true = fails
after_send false = checks

pub data Step : Pumped → Pumped → Type 0 where
  checks_closed :
      {s : Pumped} → s.place ≡ checks → s.close_ch ≡ true → Step s (record s { place = ends })
  checks_open :
      {s : Pumped} → s.place ≡ checks → s.close_ch ≡ false → Step s (record s { place = reads })
  body_gives :
      {s : Pumped} (chunk : List ℕ) (bad : Bool)
      → s.place ≡ reads
      → Step s (record s { place = sends chunk bad; got = s.got ++ chunk })
  body_fails : {s : Pumped} → s.place ≡ reads → Step s (record s { place = fails })
  body_empty : {s : Pumped} → s.place ≡ reads → Step s (record s { place = checks })
  sends_chunk :
      {s : Pumped} (chunk : List ℕ) (bad : Bool)
      → s.place ≡ sends chunk bad
      → length (s.incoming).read_ch < read_ch_size
      → Step s (record s {
        place = after_send bad;
        incoming = record (s.incoming) { read_ch = (s.incoming).read_ch ++ (chunk ∷ []) };
      })
  sends_closed :
      {s : Pumped} (chunk : List ℕ) (bad : Bool)
      → s.place ≡ sends chunk bad
      → s.close_ch ≡ true
      → Step s (record s { place = ends })
  fails_closed :
      {s : Pumped} → s.place ≡ fails → s.close_ch ≡ true → Step s (record s { place = ends })
  fails_open :
      {s : Pumped}
      → s.place ≡ fails
      → s.close_ch ≡ false
      → Step s (record s { place = ends; incoming = record (s.incoming) { closed = true } })
  calls_read :
      {s : Pumped} {p : List ℕ} {rest : Incoming} (n : ℕ)
      → read n s.incoming ≡ ok (p, rest)
      → Step s (record s { incoming = rest; given = s.given ++ p })
  calls_close : {s : Pumped} → Step s (record s { close_ch = true })

pub data Steps : Pumped → Pumped → Type 0 where
  no_steps : {s : Pumped} → Steps s s
  and_then : {s t u : Pumped} → Steps s t → Step t u → Steps s u

-- The pump has ended and left an open, empty channel.
pub record IsStuck (s : Pumped) : Type 0 where
  pub ended : s.place ≡ ends
  pub waiting : s.incoming ≡ record { read_buf = []; read_ch = []; closed = false }

read-stuck :
    (n : ℕ) (c : Incoming)
    → c ≡ record { read_buf = []; read_ch = []; closed = false }
    → read n c ≡ out_of_fuel
unfolding read read_chunk
read-stuck n c e = rw e refl

Step-IsStuck : (s t : Pumped) → Step s t → IsStuck s → IsStuck t
Step-IsStuck s _ (checks_closed e h) stuck = absurd (ground (arith, sym e ∙ stuck.ended))
Step-IsStuck s _ (checks_open e h) stuck = absurd (ground (arith, sym e ∙ stuck.ended))
Step-IsStuck s _ (body_gives chunk bad e) stuck = absurd (ground (arith, sym e ∙ stuck.ended))
Step-IsStuck s _ (body_fails e) stuck = absurd (ground (arith, sym e ∙ stuck.ended))
Step-IsStuck s _ (body_empty e) stuck = absurd (ground (arith, sym e ∙ stuck.ended))
Step-IsStuck s _ (sends_chunk chunk bad e h) stuck = absurd (ground (arith, sym e ∙ stuck.ended))
Step-IsStuck s _ (sends_closed chunk bad e h) stuck = absurd (ground (arith, sym e ∙ stuck.ended))
Step-IsStuck s _ (fails_closed e h) stuck = absurd (ground (arith, sym e ∙ stuck.ended))
Step-IsStuck s _ (fails_open e h) stuck = absurd (ground (arith, sym e ∙ stuck.ended))
Step-IsStuck s _ (calls_read n e) stuck =
    absurd (ground (arith, sym (read-stuck n s.incoming stuck.waiting) ∙ e))
Step-IsStuck s _ calls_close stuck = record { ended = stuck.ended; waiting = stuck.waiting }

Steps-IsStuck : (s t : Pumped) → Steps s t → IsStuck s → IsStuck t
Steps-IsStuck s _ no_steps stuck = stuck
Steps-IsStuck s u (and_then {t = t} more step) stuck =
    Step-IsStuck t u step (Steps-IsStuck s t more stuck)

-- While the pump reads the body and no chunk waits, Close, which makes that read fail, leads to a state after which,
-- whatever follows, every Read waits.
pub close-waits :
    (s : Pumped)
    → s.place ≡ reads
    → s.incoming ≡ record { read_buf = []; read_ch = []; closed = false }
    → (t : Pumped) × Steps s t
      × ((u : Pumped) → Steps t u → (n : ℕ) → read n u.incoming ≡ out_of_fuel)
close-waits s e w =
    let closed = and_then no_steps calls_close in
    let failed = and_then closed (body_fails e) in
    let ended = and_then failed (fails_closed refl refl) in
    (
      record s { close_ch = true; place = ends },
      ended,
      λ u more n.
          read-stuck n u.incoming
            (Steps-IsStuck _ u more (record { ended = refl; waiting = w })).waiting,
    )
