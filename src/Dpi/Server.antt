-- ===== src/Dpi/Server.antt =====
-- The server's table of clients and the upload handler: dpi/server/server.go and dpi/server/handler.go.
-- A handler runs as one step. The connections to the targets are package net's: what `dial` makes of a
-- request is a parameter, the number of bytes that the new connection takes, or `none` for an error.
pub mod Table
pub mod Invariant
pub mod Uploads
mod Tests
use ptbridge.Base.{
  ℕ, ◌+◌, ◌==◌, ◌≡◌, List, [], ◌∷◌, ◌++◌, length, drop, get_elem?, set, Option, some, none, Bool,
  true, false, not, Result, ok, err, panic, out_of_fuel, Sink, write, ltb, if◌then◌else◌, lookup,
  insert, delete,
}
use ptbridge.Dpi.Header.{
  StreamHeader, parse_header, stream_header_size, msg_connect, msg_data, msg_close,
}
use ptbridge.Dpi.Request
use ptbridge.Dpi.Request.{ConnectRequest, decode_connect_request}
use ptbridge.Dpi.Crypto
use ptbridge.Dpi.Crypto.{Aead, decrypt}

-- A connection to a target, with the id that its reading goroutine was started with.
pub record Remote : Type 0 where
  pub conn_id : ℕ
  pub sink : Sink
  pub closed : Bool

-- clientConn: the connection by its number in the server's list, as two clients may share it by a pointer.
pub record ClientConn : Type 0 where
  pub remote : ℕ
  pub target_addr : List ℕ

pub record Server : Type 0 where
  pub clients : List (ℕ × ClientConn)
  pub remotes : List Remote

pub data Method : Type 0 where
  post put other : Method

-- The answers of the handler; `aborted` is what net/http makes of a panic.
pub data Response : Type 0 where
  status_ok connect_failed bad_request method_not_allowed aborted : Response
  connected : ℕ → Response

unfoldable pub register_client : ℕ → ClientConn → Server → Server
register_client conn_id c s = record s { clients = insert conn_id c s.clients }

unfoldable pub unregister_client : ℕ → Server → Server
unregister_client conn_id s = record s { clients = delete conn_id s.clients }

unfoldable pub get_client : ℕ → Server → Option ClientConn
get_client conn_id s = lookup conn_id s.clients

abbrev pub update_remote : ℕ → Remote → Server → Server
update_remote i r s = record s { remotes = set s.remotes i r }

-- remote.Close()
abbrev pub closed_remote : Remote → Remote
closed_remote r = record r { closed = true }

-- handleConnect, after Dial: the connection is registered, and its goroutine starts.
unfoldable pub handle_connect : ℕ → ConnectRequest → Option ℕ → Server → Response × Server
handle_connect conn_id req none s = (connect_failed, s)
handle_connect conn_id req (some room) s =
    let remote : Remote = record {
      conn_id = conn_id;
      sink = record { written = []; room = room };
      closed = false;
    } in
    (
      connected conn_id,
      register_client conn_id (record { remote = length s.remotes; target_addr = req.address })
          (record s { remotes = s.remotes ++ (remote ∷ []) }),
    )

-- The case of MsgConnect, after decoding.
unfoldable pub handle_decoded :
    (ConnectRequest → Option ℕ)
    → ℕ
    → Result Request.Error ConnectRequest
    → Server
    → Response × Server
handle_decoded dial conn_id (ok req) s = handle_connect conn_id req (dial req) s
handle_decoded dial conn_id (err e) s = (bad_request, s)
handle_decoded dial conn_id panic s = (aborted, s)
handle_decoded dial conn_id out_of_fuel s = (aborted, s)

-- The case of MsgData, for the connection `i` that was found: a Write that fails closes it.
unfoldable pub write_remote : ℕ → ℕ → List ℕ → Option Remote → Server → Response × Server
write_remote conn_id i payload none s = (status_ok, s)
write_remote conn_id i payload (some r) s =
    let wrote = write payload r.sink in
    if r.closed
    then (status_ok, unregister_client conn_id s)
    else if wrote.failed
    then (
      status_ok,
      unregister_client conn_id
          (update_remote i (closed_remote (record r { sink = wrote.sink })) s),
    )
    else (status_ok, update_remote i (record r { sink = wrote.sink }) s)

unfoldable pub handle_data : ℕ → List ℕ → Option ClientConn → Server → Response × Server
handle_data conn_id payload none s = (status_ok, s)
handle_data conn_id payload (some c) s =
    write_remote conn_id c.remote payload (get_elem? s.remotes c.remote) s

-- Closing the connection `i`, and taking the id `conn_id` from the table.
unfoldable pub close_remote : ℕ → ℕ → Option Remote → Server → Server
close_remote conn_id i none s = unregister_client conn_id s
close_remote conn_id i (some r) s = unregister_client conn_id (update_remote i (closed_remote r) s)

-- The case of MsgClose.
unfoldable pub handle_close : ℕ → Option ClientConn → Server → Response × Server
handle_close conn_id none s = (status_ok, s)
handle_close conn_id (some c) s =
    (status_ok, close_remote conn_id c.remote (get_elem? s.remotes c.remote) s)

-- The switch over the type of a message.
unfoldable pub handle_message :
    (ConnectRequest → Option ℕ) → StreamHeader → List ℕ → Server → Response × Server
handle_message dial hdr payload s =
    if hdr.msg_type == msg_connect
    then if not (hdr.payload_len == length payload)
      then (bad_request, s)
      else handle_decoded dial hdr.conn_id (decode_connect_request payload) s
    else if hdr.msg_type == msg_data
    then handle_data hdr.conn_id payload (get_client hdr.conn_id s) s
    else if hdr.msg_type == msg_close
    then handle_close hdr.conn_id (get_client hdr.conn_id s) s
    else (status_ok, s)

unfoldable pub handle_decrypted :
    (ConnectRequest → Option ℕ) → Result Crypto.Error (List ℕ) → Server → Response × Server
handle_decrypted dial (ok message) s =
    if ltb (length message) stream_header_size
    then (bad_request, s)
    else handle_message dial (parse_header message) (drop stream_header_size message) s
handle_decrypted dial (err e) s = (bad_request, s)
handle_decrypted dial panic s = (aborted, s)
handle_decrypted dial out_of_fuel s = (aborted, s)

-- The request's body, or `none` if reading it fails.
unfoldable pub handle_body :
    Aead → (ConnectRequest → Option ℕ) → Option (List ℕ) → Server → Response × Server
handle_body aead dial none s = (bad_request, s)
handle_body aead dial (some []) s = (status_ok, s)
handle_body aead dial (some (b ∷ bs)) s = handle_decrypted dial (decrypt aead (b ∷ bs)) s

unfoldable pub handle_tunnel :
    Aead → (ConnectRequest → Option ℕ) → Method → Option (List ℕ) → Server → Response × Server
handle_tunnel aead dial post body s = handle_body aead dial body s
handle_tunnel aead dial put body s = handle_body aead dial body s
handle_tunnel aead dial other body s = (method_not_allowed, s)

-- The end of the goroutine that reads from the connection `i`: its deferred calls.
unfoldable pub remote_ended : ℕ → Remote → Server → Server
remote_ended i r s = close_remote r.conn_id i (some r) s
