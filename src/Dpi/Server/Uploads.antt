-- ===== src/Dpi/Server/Uploads.antt =====
-- What the handler does with the messages that the client's transport posts.
use ptbridge.Base.{
  put_u16, ℕ, ◌+◌, ◌-◌, ◌%◌, ◌^◌, ◌≤◌, ◌<◌, ◌==◌, ◌≡◌, ◌≢◌, refl, sym, ap, ◌∙◌, List, [], ◌∷◌, ◌++◌,
  append-nil, length-append, get_elem?-set_other, length, get_elem?, set, Option, some, none, true,
  false, ok, write_fits, ltb, lookup, insert, delete, lookup-insert, lookup-delete,
  lookup-insert_other, lookup-delete_other, get_elem?-last, arith, u32-put_u32,
}
use ptbridge.Dpi.Header.{parse_header, header_bytes, msg_data, msg_close, msg_connect, version}
use ptbridge.Dpi.Request.{ConnectRequest, encode_connect_request, decode_connect_request}
use ptbridge.Dpi.Request.RoundTrip.{decode-encode_connect_request}
use ptbridge.Dpi.Crypto.{Aead, decrypt}
use ptbridge.Dpi.Transport.{connect_message, data_message, close_message}
use ptbridge.Dpi.Server.{
  Remote, ClientConn, Server, post, status_ok, connected, register_client, unregister_client,
  get_client, closed_remote, handle_connect, handle_decoded, write_remote, handle_data,
  close_remote, handle_close, handle_message, handle_decrypted, handle_body, handle_tunnel,
  remote_ended,
}

-- A message's header is parsed as it was built.
parse_header-message :
    (ty conn_id n : ℕ) (rest : List ℕ)
    → ty < 256
    → conn_id < 2 ^ 32
    → n < 2 ^ 32
    → parse_header (header_bytes ty conn_id n ++ rest)
      ≡ record { version = version; msg_type = ty; conn_id = conn_id; payload_len = n }
parse_header-message ty conn_id n rest ht hc hn =
    let t : ty % 256 ≡ ty = omega arith in
    let c : conn_id % 2 ^ 32 ≡ conn_id = omega arith in
    let l : n % 2 ^ 32 ≡ n = omega arith in rw (u32-put_u32 conn_id, u32-put_u32 n, t, c, l) refl

handle_decrypted-message :
    (dial : ConnectRequest → Option ℕ) (ty conn_id n : ℕ) (payload : List ℕ) (s : Server)
    → ty < 256
    → conn_id < 2 ^ 32
    → n < 2 ^ 32
    → handle_decrypted dial (ok (header_bytes ty conn_id n ++ payload)) s
      ≡ handle_message dial
          (record { version = version; msg_type = ty; conn_id = conn_id; payload_len = n })
          payload
          s
unfolding handle_decrypted
handle_decrypted-message dial ty conn_id n payload s ht hc hn =
    let long : ltb (length (header_bytes ty conn_id n ++ payload)) 10 ≡ false =
      ground (arith, length-append (header_bytes ty conn_id n) payload) in
    rw long (
      ap (λ h. handle_message dial h payload s)
        (parse_header-message ty conn_id n payload ht hc hn))

handle_body-nonempty :
    (aead : Aead) (dial : ConnectRequest → Option ℕ) (s : Server) (p : List ℕ)
    → 0 < length p
    → handle_tunnel aead dial post (some p) s ≡ handle_decrypted dial (decrypt aead p) s
unfolding handle_tunnel handle_body
handle_body-nonempty aead dial s [] h = absurd (omega arith)
handle_body-nonempty aead dial s (b ∷ bs) h = refl

module _ (aead : Aead) (dial : ConnectRequest → Option ℕ) (s : Server) (encrypted : List ℕ)
    (some_byte : 0 < length encrypted) where
  -- A body that decrypts to the message of a chunk, for an id of the table whose connection is open and takes the
  -- chunk: the answer is "ok", the connection has the chunk behind what was written to it before, and nothing else
  -- of the server changes.
  pub handle_tunnel-data_message :
      (conn_id : ℕ) (c : ClientConn) (r : Remote) (chunk : List ℕ)
      → decrypt aead encrypted ≡ ok (data_message conn_id chunk)
      → conn_id < 2 ^ 32
      → length chunk < 2 ^ 32
      → lookup conn_id s.clients ≡ some c
      → get_elem? s.remotes c.remote ≡ some r
      → r.closed ≡ false
      → length chunk ≤ r.sink.room
      → handle_tunnel aead dial post (some encrypted) s ≡ (
        status_ok,
        record s {
          remotes = set s.remotes c.remote (record r {
            sink = record { written = r.sink.written ++ chunk; room = r.sink.room - length chunk };
          });
        },
      )
  unfolding handle_message get_client handle_data write_remote
  handle_tunnel-data_message conn_id c r chunk opens hc hn found at up room =
      handle_body-nonempty aead dial s encrypted some_byte
      ∙ ap (λ m. handle_decrypted dial m s) opens
      ∙ handle_decrypted-message dial msg_data conn_id (length chunk) chunk s (omega arith) hc hn
      ∙ rw (found, at, up, write_fits chunk r.sink room) refl

  -- A body that decrypts to the message of a request, which the server's Dial grants: the answer names the id, the
  -- table has the id with a new connection and the address asked for, and the others as they were.
  pub handle_tunnel-connect_message :
      (conn_id room : ℕ) (req : ConnectRequest)
      → decrypt aead encrypted ≡ ok (connect_message conn_id req)
      → conn_id < 2 ^ 32
      → length req.network < 2 ^ 16 - 2
      → length req.address < 2 ^ 16
      → dial req ≡ some room
      → (s' : Server) × (handle_tunnel aead dial post (some encrypted) s ≡ (connected conn_id, s'))
        × (lookup conn_id s'.clients
            ≡ some (record { remote = length s.remotes; target_addr = req.address }))
        × (get_elem? s'.remotes (length s.remotes)
            ≡ some (record {
              conn_id = conn_id;
              sink = record { written = []; room = room };
              closed = false;
            }))
        × ((k : ℕ) → k ≢ conn_id → lookup k s'.clients ≡ lookup k s.clients)
  unfolding handle_message handle_decoded handle_connect register_client
  handle_tunnel-connect_message conn_id room req opens hc hnet haddr grants =
      let n = length (encode_connect_request req) in
      let size : n ≡ 4 + length req.network + length req.address =
        omega (arith, length-append req.network (put_u16 (length req.address) ++ req.address)) in
      let whole : (n == n) ≡ true = ground arith in
      let decodes : decode_connect_request (encode_connect_request req) ≡ ok req =
        ap decode_connect_request (sym (append-nil (encode_connect_request req)))
        ∙ decode-encode_connect_request req [] hnet haddr in
      let c : ClientConn = record { remote = length s.remotes; target_addr = req.address } in
      let remote : Remote = record {
        conn_id = conn_id;
        sink = record { written = []; room = room };
        closed = false;
      } in
      (
        record { clients = insert conn_id c s.clients; remotes = s.remotes ++ (remote ∷ []) },
        handle_body-nonempty aead dial s encrypted some_byte
            ∙ ap (λ m. handle_decrypted dial m s) opens
            ∙ handle_decrypted-message dial msg_connect conn_id n (encode_connect_request req) s
                (omega arith) hc (omega arith)
            ∙ rw (whole, decodes, grants) refl,
        lookup-insert conn_id c s.clients,
        get_elem?-last s.remotes remote,
        λ k apart. lookup-insert_other conn_id k c s.clients apart,
      )

  -- A body that decrypts to the closing message of an id of the table: the answer is "ok", the connection is
  -- closed, the id is not in the table any more, and the others are as they were.
  pub handle_tunnel-close_message :
      (conn_id : ℕ) (c : ClientConn) (r : Remote)
      → decrypt aead encrypted ≡ ok (close_message conn_id)
      → conn_id < 2 ^ 32
      → lookup conn_id s.clients ≡ some c
      → get_elem? s.remotes c.remote ≡ some r
      → (s' : Server) × (handle_tunnel aead dial post (some encrypted) s ≡ (status_ok, s'))
        × (lookup conn_id s'.clients ≡ none)
        × (s'.remotes ≡ set s.remotes c.remote (closed_remote r))
        × ((k : ℕ) → k ≢ conn_id → lookup k s'.clients ≡ lookup k s.clients)
  unfolding handle_message get_client handle_close close_remote unregister_client
  handle_tunnel-close_message conn_id c r opens hc found at = (
    record {
      clients = delete conn_id s.clients;
      remotes = set s.remotes c.remote (closed_remote r);
    },
    handle_body-nonempty aead dial s encrypted some_byte
        ∙ ap (λ m. handle_decrypted dial m s) opens
        ∙ handle_decrypted-message dial msg_close conn_id 0 [] s (omega arith) hc (omega arith)
        ∙ rw (found, at) refl,
    lookup-delete conn_id s.clients,
    refl,
    λ k apart. lookup-delete_other conn_id k s.clients apart,
  )

-- Two requests to connect under one id, as two clients make that both count from 1: the later one takes the entry,
-- and when the connection of the earlier one ends, the id is not in the table any more, with the later connection
-- still open.
pub remote_ended-evicts :
    (conn_id room1 room2 : ℕ) (req1 req2 : ConnectRequest) (s : Server)
    → let s1 = (handle_connect conn_id req1 (some room1) s).1 in
      let s2 = (handle_connect conn_id req2 (some room2) s1).1 in
      let first : Remote = record {
        conn_id = conn_id;
        sink = record { written = []; room = room1 };
        closed = false;
      } in
      let second : Remote = record {
        conn_id = conn_id;
        sink = record { written = []; room = room2 };
        closed = false;
      } in
      let s3 = remote_ended (length s.remotes) first s2 in
      (lookup conn_id s2.clients
        ≡ some (record { remote = length s1.remotes; target_addr = req2.address }))
      × (lookup conn_id s3.clients ≡ none)
      × (get_elem? s3.remotes (length s1.remotes) ≡ some second)
unfolding handle_connect remote_ended register_client close_remote unregister_client
remote_ended-evicts conn_id room1 room2 req1 req2 s =
    let first : Remote = record {
      conn_id = conn_id;
      sink = record { written = []; room = room1 };
      closed = false;
    } in
    let second : Remote = record {
      conn_id = conn_id;
      sink = record { written = []; room = room2 };
      closed = false;
    } in
    let one = s.remotes ++ (first ∷ []) in
    let apart : length one ≢ length s.remotes =
      λ e. omega (arith, length-append s.remotes (first ∷ [])) in
    (
      lookup-insert conn_id _ _,
      lookup-delete conn_id _,
      get_elem?-set_other (one ++ (second ∷ [])) (length s.remotes) (length one)
            (closed_remote first) apart
          ∙ get_elem?-last one second,
    )
