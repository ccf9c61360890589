-- ===== src/Session/Relay.antt =====
-- handler.go and encap.go: what a client writes, the server queues.
use ptbridge.Base.{
  ℕ, zero, suc, ◌+◌, ◌-◌, ◌^◌, ◌≤◌, ◌<◌, ◌≡◌, refl, sym, ap, ◌∙◌, true, false, some, List, [], ◌∷◌,
  ◌++◌, append-nil, append_assoc, arith, if◌then◌else◌, length, take, All, length-append, Result,
  ok, err, ◌>>=◌, ◌=ˢ◌, =ˢ_iff, IoError, read_byte, read_full, read_full-append, Sink, write_fits,
}
use ptbridge.Encapsulation.{Error, io, read_prefix, read_data_loop, read_data, Report}
use ptbridge.Encapsulation.Format.{Width, one, two, three, width_bytes, length_prefix, data_chunk}
use ptbridge.Encapsulation.Prefix.{shortest, shortest-capacity}
use ptbridge.Encapsulation.Read.{read_data-data_chunk}
use ptbridge.Encapsulation.Write.{length-length_prefix, encoded_size, write_data_fits}
use ptbridge.Session.{
  token, number_of, wrap_dial, written_by, encap_write_to, wrong_token, read_error, next_packet,
  read_loop, serve_client, serve_token, serve,
}
use ptbridge.Turbotunnel.PacketConn.{queue_size, TaggedPacket, QueuePacketConn, queue_incoming}
use ptbridge.Turbotunnel.PacketConn.Queues.{IsConn}
use ptbridge.Turbotunnel.PacketConn.Closing.{queue_all, queue_all-take}

-- The packets of a client, one WriteTo after the other.
abbrev pub write_all : List (List ℕ) → Sink → Result Error Sink
write_all [] s = ok s
write_all (p ∷ ps) s = encap_write_to p s >>= λ r. write_all ps r.1

-- The chunks of packets on the wire.
abbrev pub chunks : List (List ℕ) → List ℕ
chunks [] = []
chunks (p ∷ ps) = data_chunk (shortest (length p)) p (chunks ps)

abbrev pub chunks_size : List (List ℕ) → ℕ
chunks_size [] = 0
chunks_size (p ∷ ps) = encoded_size (length p) + chunks_size ps

abbrev pub AreSmall : List (List ℕ) → Type 0
AreSmall = All (λ p. length p < 2 ^ 20)

abbrev pub tagged : ℕ → List (List ℕ) → List TaggedPacket
tagged client [] = []
tagged client (p ∷ ps) = record { p = p; source = client } ∷ tagged client ps

pub data_chunk-append :
    (w : Width) (p xs ys : List ℕ) → data_chunk w p xs ++ ys ≡ data_chunk w p (xs ++ ys)
data_chunk-append w p xs ys =
    append_assoc (length_prefix true w (length p)) (p ++ xs) ys
    ∙ ap (λ q. length_prefix true w (length p) ++ q) (append_assoc p xs ys)

pub sink-eq :
    (w w' : List ℕ) (r r' : ℕ)
    → w ≡ w'
    → r ≡ r'
    → ◌≡◌ {A = Sink} (record { written = w; room = r }) (record { written = w'; room = r' })
sink-eq w w' r r' e f i = record { written = e i; room = f i }

write_all-chunks :
    (ps : List (List ℕ)) (s : Sink)
    → AreSmall ps
    → chunks_size ps ≤ s.room
    → write_all ps s
      ≡ ok (record { written = s.written ++ chunks ps; room = s.room - chunks_size ps })
unfolding encap_write_to
write_all-chunks [] s small fits =
    ap ok (sink-eq _ _ _ _ (sym (append-nil s.written)) (omega arith))
write_all-chunks (p ∷ ps) s (h, small) fits =
    let done = write_data_fits s p h (omega arith) in
    let n = encoded_size (length p) in
    let after : Sink = record {
      written = s.written ++ data_chunk (shortest (length p)) p [];
      room = s.room - n;
    } in
    ap (λ (r : Report). written_by (length p) r.sink r.failure >>= λ q. write_all ps q.1) done
    ∙ write_all-chunks ps after small (omega arith)
    ∙ ap ok (
        sink-eq _ _ _ _
          (append_assoc s.written _ (chunks ps)
            ∙ ap (λ q. s.written ++ q) (data_chunk-append _ p [] (chunks ps)))
          (omega arith))

read_data-nil : (stop : IoError) → read_data stop [] ≡ err (io stop)
unfolding read_data read_data_loop read_prefix read_byte
read_data-nil stop = refl

read_loop-chunks :
    (fuel : ℕ) (stop : IoError) (client : ℕ) (ps : List (List ℕ)) (c : QueuePacketConn)
    → AreSmall ps
    → length ps < fuel
    → read_loop fuel stop client (chunks ps) c
      ≡ ok (read_error (io stop), queue_all (tagged client ps) c)
unfolding read_loop
read_loop-chunks zero stop client ps c small enough = absurd (omega arith)
read_loop-chunks (suc fuel) stop client [] c small enough =
    ap (next_packet client c (read_loop fuel stop client)) (read_data-nil stop)
read_loop-chunks (suc fuel) stop client (p ∷ ps) c (h, small) enough =
    let got =
      read_data-data_chunk stop [] (shortest (length p)) p (chunks ps) tt
        (shortest-capacity (length p) h) in
    ap (next_packet client c (read_loop fuel stop client)) got
    ∙ read_loop-chunks fuel stop client ps (queue_incoming p client c) small (omega arith)

pub width_bytes-pos : (w : Width) → 1 ≤ width_bytes w
width_bytes-pos one = omega arith
width_bytes-pos two = omega arith
width_bytes-pos three = omega arith

length-chunks : (ps : List (List ℕ)) → length ps ≤ length (chunks ps)
length-chunks [] = omega arith
length-chunks (p ∷ ps) =
    let prefix = length-length_prefix true (shortest (length p)) (length p) in
    omega (
      arith,
      length-append (length_prefix true (shortest (length p)) (length p)) (p ++ chunks ps),
      length-append p (chunks ps),
      length-chunks ps,
      prefix,
      width_bytes-pos (shortest (length p)),
    )

-- serveHTTP on the bytes of a client that dialed and wrote packets.
pub serve-chunks :
    (stop : IoError) (client_id : List ℕ) (ps : List (List ℕ)) (c : QueuePacketConn)
    → length client_id ≡ 8
    → AreSmall ps
    → serve stop (token ++ (client_id ++ chunks ps)) c
      ≡ ok (read_error (io stop), queue_all (tagged (number_of client_id) ps) c)
unfolding serve
serve-chunks stop client_id ps c size small =
    let t = read_full-append stop token (client_id ++ chunks ps) in
    let i : read_full stop 8 (client_id ++ chunks ps) ≡ ok (client_id, chunks ps) =
      ap (λ n. read_full stop n (client_id ++ chunks ps)) (sym size)
      ∙ read_full-append stop client_id (chunks ps) in
    let is : (token =ˢ token) ≡ true = (=ˢ_iff token token).1 refl in
    ap (serve_token stop c) t
    ∙ ap
        (λ b.
          if b
          then serve_client stop c (read_full stop 8 (client_id ++ chunks ps))
          else ok (wrong_token, c))
        is
    ∙ ap (serve_client stop c) i
    ∙ (read_loop-chunks (length (chunks ps) + 1) stop (number_of client_id) ps c small
        (omega (arith, length-chunks ps)))

wrap_dial-fits :
    (client_id : List ℕ) (room : ℕ)
    → length client_id ≡ 8
    → 16 ≤ room
    → wrap_dial client_id (record { written = []; room = room })
      ≡ some (record { written = token ++ client_id; room = room - 8 - 8 })
unfolding wrap_dial
wrap_dial-fits client_id room size fits =
    let one = write_fits token (record { written = []; room = room }) (omega arith) in
    let two = write_fits client_id (record { written = token; room = room - 8 }) (omega arith) in
    rw (one, two, size) refl

-- A client with a number of eight bytes, which dials and writes packets of less than 2 ^ 20 bytes on a connection
-- with room for them, has no error. A server whose queue is well-formed and open reads these bytes up to their
-- end, and then has the packets in its queue, in order, under the client's number, as many as there was room for.
pub serve-write_all :
    (stop : IoError) (client_id : List ℕ) (ps : List (List ℕ)) (room : ℕ) (c : QueuePacketConn)
    → length client_id ≡ 8
    → AreSmall ps
    → 16 + chunks_size ps ≤ room
    → IsConn c
    → c.closed ≡ false
    → (raw s : Sink) × (c' : QueuePacketConn) × (wrap_dial client_id
          (record { written = []; room = room })
        ≡ some raw)
      × (write_all ps raw ≡ ok s)
      × (serve stop s.written c ≡ ok (read_error (io stop), c'))
      × (c'.recv_queue
          ≡ c.recv_queue
            ++ take (queue_size - length c.recv_queue) (tagged (number_of client_id) ps))
serve-write_all stop client_id ps room c size small fits well is_open =
    let raw : Sink = record { written = token ++ client_id; room = room - 8 - 8 } in
    let bytes = append_assoc token client_id (chunks ps) in
    (
      raw,
      record { written = (token ++ client_id) ++ chunks ps; room = room - 8 - 8 - chunks_size ps },
      queue_all (tagged (number_of client_id) ps) c,
      wrap_dial-fits client_id room size (omega arith),
      write_all-chunks ps raw small (omega arith),
      ap (λ src. serve stop src c) bytes ∙ serve-chunks stop client_id ps c size small,
      queue_all-take (tagged (number_of client_id) ps) c well is_open,
    )
