-- ===== src/Session/Downlink.antt =====
-- handler.go and encap.go: what the server writes, the client reads.
use ptbridge.Base.{
  ℕ, zero, suc, ◌-◌, ◌≤◌, ◌≡◌, refl, sym, ap, ◌∙◌, Option, none, some, List, [], ◌∷◌, ◌++◌,
  append-nil, append_assoc, arith, length, take, Result, ok, ◌>>=◌, IoError, Sink,
}
use ptbridge.Encapsulation
use ptbridge.Encapsulation.{Error, Report}
use ptbridge.Encapsulation.Format.{data_chunk}
use ptbridge.Encapsulation.Prefix.{shortest, shortest-capacity}
use ptbridge.Encapsulation.Read.{read_data-data_chunk}
use ptbridge.Encapsulation.Write.{encoded_size, write_data_fits}
use ptbridge.Session.{encap_read_from, write_loop}
use ptbridge.Session.Relay.{chunks, chunks_size, AreSmall, data_chunk-append, sink-eq}

abbrev pub write_next :
    List (List ℕ) → Sink → Option Encapsulation.Error → Option Encapsulation.Error × Sink
write_next ps s none = write_loop ps s
write_next ps s (some e) = (some e, s)

-- The packets that a client reads, one ReadFrom after the other, into buffers of `size` bytes.
abbrev pub read_all : ℕ → IoError → ℕ → List ℕ → Result Encapsulation.Error (List (List ℕ) × List ℕ)
read_all zero stop size src = ok ([], src)
read_all (suc n) stop size src = do
  (p, rest) ← encap_read_from stop size src
  (ps, rest') ← read_all n stop size rest
  ok (p ∷ ps, rest')

-- Packets that are cut to the size of a buffer.
abbrev pub cut_all : ℕ → List (List ℕ) → List (List ℕ)
cut_all size [] = []
cut_all size (p ∷ ps) = take size p ∷ cut_all size ps

write_loop-chunks :
    (ps : List (List ℕ)) (s : Sink)
    → AreSmall ps
    → chunks_size ps ≤ s.room
    → write_loop ps s
      ≡ (none, record { written = s.written ++ chunks ps; room = s.room - chunks_size ps })
unfolding write_loop
write_loop-chunks [] s small fits =
    ap (λ q. (none, q)) (sink-eq _ _ _ _ (sym (append-nil s.written)) (omega arith))
write_loop-chunks (p ∷ ps) s (h, small) fits =
    let n = encoded_size (length p) in
    let after : Sink = record {
      written = s.written ++ data_chunk (shortest (length p)) p [];
      room = s.room - n;
    } in
    ap (λ (r : Report). write_next ps r.sink r.failure) (write_data_fits s p h (omega arith))
    ∙ write_loop-chunks ps after small (omega arith)
    ∙ ap (λ q. (none, q))
        (sink-eq _ _ _ _
          (append_assoc s.written _ (chunks ps)
            ∙ ap (λ q. s.written ++ q) (data_chunk-append _ p [] (chunks ps)))
          (omega arith))

read_all-chunks :
    (stop : IoError) (size : ℕ) (ps : List (List ℕ))
    → AreSmall ps
    → read_all (length ps) stop size (chunks ps) ≡ ok (cut_all size ps, [])
unfolding encap_read_from
read_all-chunks stop size [] small = refl
read_all-chunks stop size (p ∷ ps) (h, small) =
    let got =
      read_data-data_chunk stop [] (shortest (length p)) p (chunks ps) tt
        (shortest-capacity (length p) h) in
    rw (got, read_all-chunks stop size ps small) refl

-- The packets of less than 2 ^ 20 bytes that serveHTTP writes to a connection with room for them are written without
-- an error, and ReadFrom gives them to the client in order, each cut to the size of the buffer.
pub read_all-write_loop :
    (stop : IoError) (size room : ℕ) (ps : List (List ℕ))
    → AreSmall ps
    → chunks_size ps ≤ room
    → (s : Sink) × (write_loop ps (record { written = []; room = room }) ≡ (none, s))
      × (read_all (length ps) stop size s.written ≡ ok (cut_all size ps, []))
read_all-write_loop stop size room ps small fits = (
  record { written = chunks ps; room = room - chunks_size ps },
  write_loop-chunks ps (record { written = []; room = room }) small fits,
  read_all-chunks stop size ps small,
)
