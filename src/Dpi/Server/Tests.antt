-- ===== src/Dpi/Server/Tests.antt =====
-- A server with one client.
use ptbridge.Base.{
  ℕ, ◌≡◌, refl, [], ◌∷◌, length, get_elem?, Option, some, none, false, ok, text, lookup,
}
use ptbridge.Dpi.Crypto.{decrypt}
use ptbridge.Dpi.Request.{ConnectRequest}
use ptbridge.Dpi.Toy.{aead, encrypted, req}
use ptbridge.Dpi.Transport.{connect_message, data_message, close_message}
use ptbridge.Dpi.Server.{
  Remote, ClientConn, Server, post, handle_tunnel, handle_connect, remote_ended,
}
use ptbridge.Dpi.Server.Table.{IsServer}
use ptbridge.Dpi.Server.Invariant.{start, request, Reachable-IsServer}
use ptbridge.Dpi.Server.Uploads.{remote_ended-evicts}

abbrev dial : ConnectRequest → Option ℕ
dial r = some 20

abbrev remote : Remote
remote = record { conn_id = 3; sink = record { written = 1 ∷ []; room = 9 }; closed = false }

abbrev client : ClientConn
client = record { remote = 0; target_addr = text "a.example:80" }

abbrev server : Server
server = record { clients = (3, client) ∷ []; remotes = remote ∷ [] }

client_found : lookup 3 server.clients ≡ some client
unfolding lookup
client_found = refl

opens_data :
    decrypt aead (encrypted (data_message 3 (7 ∷ 8 ∷ []))) ≡ ok (data_message 3 (7 ∷ 8 ∷ []))
unfolding decrypt
opens_data = refl

opens_connect : decrypt aead (encrypted (connect_message 4 req)) ≡ ok (connect_message 4 req)
unfolding decrypt
opens_connect = refl

opens_close : decrypt aead (encrypted (close_message 3)) ≡ ok (close_message 3)
unfolding decrypt
opens_close = refl

remote_ended-evicts_example :
    let s1 = (handle_connect 1 req (some 5) server).1 in
    let s2 = (handle_connect 1 req (some 6) s1).1 in
    let first : Remote = record {
      conn_id = 1;
      sink = record { written = []; room = 5 };
      closed = false;
    } in
    let second : Remote = record {
      conn_id = 1;
      sink = record { written = []; room = 6 };
      closed = false;
    } in
    let s3 = remote_ended 1 first s2 in
    (lookup 1 s2.clients ≡ some (record { remote = length s1.remotes; target_addr = req.address }))
    × (lookup 1 s3.clients ≡ none)
    × (get_elem? s3.remotes (length s1.remotes) ≡ some second)
remote_ended-evicts_example = remote_ended-evicts 1 5 6 req req server

Reachable-IsServer_example :
    IsServer
      (handle_tunnel aead dial post
        (some (encrypted (connect_message 4 req)))
        (record { clients = []; remotes = [] })).1
Reachable-IsServer_example =
    Reachable-IsServer aead
      (handle_tunnel aead dial post (some (encrypted (connect_message 4 req)))
        (record { clients = []; remotes = [] })).1
      (request (record { clients = []; remotes = [] }) dial post
        (some (encrypted (connect_message 4 req))) start)
