-- ===== src/Dpi/Transport.antt =====
-- The client's side of the uploads: dpi/client/transport.go. What http.Client.Do makes of the requests
-- is a parameter, the list of its answers in order: a response, or `none` for an error.
pub mod Ids
pub mod Redirects
mod Tests
use ptbridge.Base.{
  ℕ, ◌+◌, ◌%◌, ◌^◌, ◌==◌, List, [], ◌∷◌, ◌++◌, length, Option, some, none, Bool, true, false, not,
  ◌&&◌, Result, ok, err, panic, out_of_fuel, IoError, leb, ltb, if◌then◌else◌, text, byte_at,
}
use ptbridge.Dpi.Header.{header_bytes, msg_connect, msg_data, msg_close}
use ptbridge.Dpi.Request.{ConnectRequest, encode_connect_request}
use ptbridge.Dpi.Crypto
use ptbridge.Dpi.Crypto.{Aead, encrypt}

pub record HttpRequest : Type 0 where
  pub url : List ℕ
  pub body : List ℕ

pub record HttpResponse : Type 0 where
  pub status : ℕ
  pub location : List ℕ
  pub body : List ℕ

-- The transport, with the random bytes that are left and the requests that it has sent.
pub record Transport : Type 0 where
  pub base_url : List ℕ
  pub scheme : List ℕ
  pub host : List ℕ
  pub conn_id_gen : ℕ
  pub random : List ℕ
  pub sent : List HttpRequest

pub data Error : Type 0 where
  crypto : Crypto.Error → Error
  request_failed : Error
  connect_failed : List ℕ → Error

abbrev pub connect_message : ℕ → ConnectRequest → List ℕ
connect_message conn_id req =
    header_bytes msg_connect conn_id (length (encode_connect_request req))
    ++ encode_connect_request req

abbrev pub data_message : ℕ → List ℕ → List ℕ
data_message conn_id chunk = header_bytes msg_data conn_id (length chunk) ++ chunk

abbrev pub close_message : ℕ → List ℕ
close_message conn_id = header_bytes msg_close conn_id 0

unfoldable pub next_conn_id : Transport → ℕ × Transport
next_conn_id t =
    let next = (t.conn_id_gen + 1) % 2 ^ 32 in
    (t.conn_id_gen, record t { conn_id_gen = if next == 0 then 1 else next })

-- bytes.Contains(hay, needle)
unfoldable pub is_prefix : List ℕ → List ℕ → Bool
is_prefix [] hay = true
is_prefix (b ∷ needle) [] = false
is_prefix (b ∷ needle) (c ∷ hay) = (b == c) && is_prefix needle hay

unfoldable pub contains : List ℕ → List ℕ → Bool
contains [] needle = is_prefix needle []
contains (c ∷ hay) needle =
    let later = contains hay needle in if is_prefix needle (c ∷ hay) then true else later

-- A request with an encrypted body, ready for Do. A URL that http.NewRequest refuses ends the call as an error of Do does,
-- and has no answer but `none`.
unfoldable pub post_encrypted :
    List ℕ
    → Result Crypto.Error (List ℕ × List ℕ)
    → Transport
    → Result Crypto.Error (Unit {0}) × Transport
post_encrypted url (ok (encrypted, random)) t = (
  ok tt,
  record t { random = random; sent = t.sent ++ (record { url = url; body = encrypted } ∷ []) },
)
post_encrypted url (err e) t = (err e, t)
post_encrypted url panic t = (panic, t)
post_encrypted url out_of_fuel t = (out_of_fuel, t)

unfoldable pub post :
    Aead → IoError → List ℕ → List ℕ → Transport → Result Crypto.Error (Unit {0}) × Transport
post aead stop path plaintext t =
    post_encrypted (t.base_url ++ path) (encrypt aead stop t.random plaintext) t

-- A redirect within the host is made absolute.
unfoldable pub redirect_url : Transport → List ℕ → List ℕ
redirect_url t location =
    if byte_at location 0 == 0x2f
    then t.scheme ++ (text "://" ++ (t.host ++ location))
    else location

unfoldable pub is_redirect : HttpResponse → Bool
is_redirect r = leb 300 r.status && (ltb r.status 400 && ltb 0 (length r.location))

unfoldable pub redirected : Option HttpResponse → Transport → Transport
redirected none t = t
redirected (some r) t = record t { base_url = redirect_url t r.location }

-- What Connect returns for an answer; `again` is the call of itself.
unfoldable pub connect_answer :
    Result Crypto.Error (Unit {0})
    → Option HttpResponse
    → ℕ
    → Transport
    → Result Error ℕ × Transport
    → Result Error ℕ × Transport
connect_answer (ok _) (some r) conn_id t again =
    if is_redirect r
    then again
    else if not (r.status == 200)
    then (err (connect_failed r.body), t)
    else if not (contains r.body (text "\"status\":\"ok\""))
    then (err (connect_failed r.body), t)
    else (ok conn_id, t)
connect_answer (ok _) none conn_id t again = (err request_failed, t)
connect_answer (err e) answer conn_id t again = (err (crypto e), t)
connect_answer panic answer conn_id t again = (panic, t)
connect_answer out_of_fuel answer conn_id t again = (out_of_fuel, t)

-- Connect, over the answers to come; a list that is used up is a call that still waits.
unfoldable pub connect :
    Aead
    → IoError
    → ConnectRequest
    → List (Option HttpResponse)
    → Transport
    → Result Error ℕ × Transport
connect aead stop req [] t = (out_of_fuel, t)
connect aead stop req (answer ∷ answers) t =
    let next = next_conn_id t in
    let posted =
      post aead stop (text "/.well-known/cdn-cache/upload") (connect_message next.0 req) next.1 in
    let again = connect aead stop req answers (redirected answer posted.1) in
    connect_answer posted.0 answer next.0 posted.1 again

-- SendData and CloseConn: the response is not looked at.
unfoldable pub upload_answer :
    Result Crypto.Error (Unit {0}) → Option HttpResponse → Result Error (Unit {0})
upload_answer (ok _) (some r) = ok tt
upload_answer (ok _) none = err request_failed
upload_answer (err e) answer = err (crypto e)
upload_answer panic answer = panic
upload_answer out_of_fuel answer = out_of_fuel

unfoldable pub send_data :
    Aead
    → IoError
    → ℕ
    → List ℕ
    → Option HttpResponse
    → Transport
    → Result Error (Unit {0}) × Transport
send_data aead stop conn_id chunk answer t =
    let posted = post aead stop (text "/api/v2/upload") (data_message conn_id chunk) t in
    (upload_answer posted.0 answer, posted.1)

unfoldable pub close_conn :
    Aead → IoError → ℕ → Option HttpResponse → Transport → Result Error (Unit {0}) × Transport
close_conn aead stop conn_id answer t =
    let posted = post aead stop (text "/api/v2/upload") (close_message conn_id) t in
    (upload_answer posted.0 answer, posted.1)
