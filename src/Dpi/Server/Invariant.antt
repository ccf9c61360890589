-- ===== src/Dpi/Server/Invariant.antt =====
-- The table of clients, through every request and every end of a connection.
use ptbridge.Base.{
  ℕ, ◌==◌, ◌≡◌, refl, sym, subst, ap, ◌∙◌, List, [], ◌∷◌, ◌++◌, length, drop, get_elem?, Option,
  some, none, some-injective, none≢some, Bool, Bool-cases, true, false, not, Result, ok, err, panic,
  out_of_fuel, write, ltb, if◌then◌else◌, lookup, get_elem?-append, get_elem?-last, inl, inr,
}
use ptbridge.Dpi.Header.{StreamHeader, parse_header}
use ptbridge.Dpi.Request
use ptbridge.Dpi.Request.{ConnectRequest, decode_connect_request}
use ptbridge.Dpi.Crypto
use ptbridge.Dpi.Crypto.{Aead, decrypt}
use ptbridge.Dpi.Server.{
  Remote, ClientConn, Server, Method, post, put, other, Response, unregister_client, get_client,
  update_remote, closed_remote, handle_connect, handle_decoded, write_remote, handle_data,
  close_remote, handle_close, handle_message, handle_decrypted, handle_body, handle_tunnel,
  remote_ended,
}
use ptbridge.Dpi.Server.Table.{
  IsServer, unregister_client-IsServer, register_client-IsServer, update_remote-IsServer,
  close_remote-IsServer,
}

close_some-IsServer :
    (k i : ℕ) (o : Option Remote) (s : Server)
    → IsServer s
    → get_elem? s.remotes i ≡ o
    → ((r : Remote) → o ≡ some r → r.conn_id ≡ k)
    → IsServer (close_remote k i o s)
unfolding close_remote
close_some-IsServer k i none s valid found own = unregister_client-IsServer k s valid
close_some-IsServer k i (some r) s valid found own =
    subst (λ j. IsServer (unregister_client j (update_remote i (closed_remote r) s))) (own r refl)
      (close_remote-IsServer i r s valid found (closed_remote r))

-- The connection that an entry refers to, by the entry's id.
entry-own :
    (s : Server) (k : ℕ) (c : ClientConn)
    → IsServer s
    → lookup k s.clients ≡ some c
    → (r : Remote) → get_elem? s.remotes c.remote ≡ some r
    → r.conn_id ≡ k
entry-own s k c valid h r found =
    let (q, at, id, up) = valid k c h in ap (λ x. x.conn_id) (some-injective (sym found ∙ at)) ∙ id

handle_close-IsServer :
    (k : ℕ) (o : Option ClientConn) (s : Server)
    → IsServer s
    → lookup k s.clients ≡ o
    → IsServer (handle_close k o s).1
unfolding handle_close
handle_close-IsServer k none s valid h = valid
handle_close-IsServer k (some c) s valid h =
    close_some-IsServer k c.remote (get_elem? s.remotes c.remote) s valid refl
      (entry-own s k c valid h)

write_remote-IsServer :
    (k i : ℕ) (payload : List ℕ) (o : Option Remote) (s : Server)
    → IsServer s
    → get_elem? s.remotes i ≡ o
    → ((r : Remote) → o ≡ some r → r.conn_id ≡ k)
    → IsServer (write_remote k i payload o s).1
unfolding write_remote
write_remote-IsServer k i payload none s valid found own = valid
write_remote-IsServer k i payload (some r) s valid found own = elim (Bool-cases r.closed) [
  | inl e ↦ rw e (unregister_client-IsServer k s valid)
  | inr e ↦ elim (Bool-cases (write payload r.sink).failed) [
    | inl f ↦
        rw (e, f)
          (subst
            (λ j. IsServer (
              unregister_client j (
                update_remote i (closed_remote (record r { sink = (write payload r.sink).sink }))
                  s)))
            (own r refl)
            (close_remote-IsServer i r s valid found
              (closed_remote (record r { sink = (write payload r.sink).sink }))))
    | inr f ↦
        rw (e, f)
          (update_remote-IsServer i r
            (record { conn_id = r.conn_id; sink = (write payload r.sink).sink; closed = false }) s
            valid found refl (sym e))
  ]
]

handle_data-IsServer :
    (k : ℕ) (payload : List ℕ) (o : Option ClientConn) (s : Server)
    → IsServer s
    → lookup k s.clients ≡ o
    → IsServer (handle_data k payload o s).1
unfolding handle_data
handle_data-IsServer k payload none s valid h = valid
handle_data-IsServer k payload (some c) s valid h =
    write_remote-IsServer k c.remote payload (get_elem? s.remotes c.remote) s valid refl
      (entry-own s k c valid h)

handle_connect-IsServer :
    (k : ℕ) (req : ConnectRequest) (o : Option ℕ) (s : Server)
    → IsServer s
    → IsServer (handle_connect k req o s).1
unfolding handle_connect
handle_connect-IsServer k req none s valid = valid
handle_connect-IsServer k req (some room) s valid =
    let remote : Remote = record {
      conn_id = k;
      sink = record { written = []; room = room };
      closed = false;
    } in
    register_client-IsServer k (record { remote = length s.remotes; target_addr = req.address })
      (record s { remotes = s.remotes ++ (remote ∷ []) })
      (λ j c h.
        let (q, at, id, up) = valid j c h in
        (q, get_elem?-append s.remotes (remote ∷ []) c.remote q at, id, up))
      (remote, get_elem?-last s.remotes remote, refl, refl)

if-IsServer :
    (b : Bool) (x y : Response × Server)
    → IsServer x.1
    → IsServer y.1
    → IsServer (if b then x else y).1
if-IsServer true x y hx hy = hx
if-IsServer false x y hx hy = hy

module _ (dial : ConnectRequest → Option ℕ) where
  handle_decoded-IsServer :
      (k : ℕ) (r : Result Request.Error ConnectRequest) (s : Server)
      → IsServer s
      → IsServer (handle_decoded dial k r s).1
  unfolding handle_decoded
  handle_decoded-IsServer k (ok req) s valid = handle_connect-IsServer k req (dial req) s valid
  handle_decoded-IsServer k (err e) s valid = valid
  handle_decoded-IsServer k panic s valid = valid
  handle_decoded-IsServer k out_of_fuel s valid = valid

  handle_message-IsServer :
      (hdr : StreamHeader) (payload : List ℕ) (s : Server)
      → IsServer s
      → IsServer (handle_message dial hdr payload s).1
  unfolding handle_message get_client
  handle_message-IsServer hdr payload s valid =
      if-IsServer (hdr.msg_type == 1) _ _
        (if-IsServer (not (hdr.payload_len == length payload)) _ _ valid
          (handle_decoded-IsServer hdr.conn_id (decode_connect_request payload) s valid))
        (if-IsServer (hdr.msg_type == 2) _ _
          (handle_data-IsServer hdr.conn_id payload (lookup hdr.conn_id s.clients) s valid refl)
          (if-IsServer (hdr.msg_type == 3) _ _
            (handle_close-IsServer hdr.conn_id (lookup hdr.conn_id s.clients) s valid refl) valid))

  handle_decrypted-IsServer :
      (r : Result Crypto.Error (List ℕ)) (s : Server)
      → IsServer s
      → IsServer (handle_decrypted dial r s).1
  unfolding handle_decrypted
  handle_decrypted-IsServer (ok message) s valid =
      if-IsServer (ltb (length message) 10) _ _ valid
        (handle_message-IsServer (parse_header message) (drop 10 message) s valid)
  handle_decrypted-IsServer (err e) s valid = valid
  handle_decrypted-IsServer panic s valid = valid
  handle_decrypted-IsServer out_of_fuel s valid = valid

  handle_body-IsServer :
      (aead : Aead) (body : Option (List ℕ)) (s : Server)
      → IsServer s
      → IsServer (handle_body aead dial body s).1
  unfolding handle_body
  handle_body-IsServer aead none s valid = valid
  handle_body-IsServer aead (some []) s valid = valid
  handle_body-IsServer aead (some (b ∷ bs)) s valid =
      handle_decrypted-IsServer (decrypt aead (b ∷ bs)) s valid

  handle_tunnel-IsServer :
      (aead : Aead) (m : Method) (body : Option (List ℕ)) (s : Server)
      → IsServer s
      → IsServer (handle_tunnel aead dial m body s).1
  unfolding handle_tunnel
  handle_tunnel-IsServer aead post body s valid = handle_body-IsServer aead body s valid
  handle_tunnel-IsServer aead put body s valid = handle_body-IsServer aead body s valid
  handle_tunnel-IsServer aead other body s valid = valid

-- The server from its start, through requests and ends of connections in any order. Dial is free at each.
pub data Reachable (aead : Aead) : Server → Type 0 where
  start : Reachable aead (record { clients = []; remotes = [] })
  request :
      (s : Server) (dial : ConnectRequest → Option ℕ) (m : Method) (body : Option (List ℕ))
      → Reachable aead s
      → Reachable aead (handle_tunnel aead dial m body s).1
  ended :
      (s : Server) (i : ℕ) (r : Remote)
      → get_elem? s.remotes i ≡ some r
      → Reachable aead s
      → Reachable aead (remote_ended i r s)

-- In every state that the server reaches, by requests of any kind and content and ends of connections in any order,
-- each entry of the table of clients refers to an open connection that was made for the entry's own id.
pub Reachable-IsServer : (aead : Aead) (s : Server) → Reachable aead s → IsServer s
unfolding remote_ended lookup close_remote unregister_client
Reachable-IsServer aead _ start = λ k c h. absurd (none≢some h)
Reachable-IsServer aead _ (request s dial m body h) =
    handle_tunnel-IsServer dial aead m body s (Reachable-IsServer aead s h)
Reachable-IsServer aead _ (ended s i r found h) =
    close_remote-IsServer i r s (Reachable-IsServer aead s h) found (closed_remote r)
