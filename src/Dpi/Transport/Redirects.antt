-- ===== src/Dpi/Transport/Redirects.antt =====
-- Connect through any number of redirects, and what its requests carry.
use ptbridge.Base.{
  ℕ, ◌+◌, ◌≤◌, ◌≡◌, refl, ap, List, [], ◌∷◌, ◌++◌, length, drop, Option, some, true, Result, ok,
  IoError, text, arith,
}
use ptbridge.Dpi.Request.{ConnectRequest}
use ptbridge.Dpi.Crypto.{Aead, IsAead, encrypt, decrypt, decrypt-encrypt, nonce_size}
use ptbridge.Dpi.Transport.{
  HttpRequest, HttpResponse, Transport, Error, connect_message, data_message, contains,
  post_encrypted, post, upload_answer, send_data,
}

-- A request whose body carries the message.
abbrev pub Carries : Aead → List ℕ → HttpRequest → Type 0
Carries aead message q = (decrypt aead q.body ≡ ok message) × (28 ≤ length q.body)

-- The answer that Connect takes for success.
abbrev pub IsGranted : HttpResponse → Type 0
IsGranted r = (r.status ≡ 200) × (contains r.body (text "\"status\":\"ok\"") ≡ true)

abbrev pub answers_of : List HttpResponse → HttpResponse → List (Option HttpResponse)
answers_of [] last = some last ∷ []
answers_of (r ∷ redirects) last = some r ∷ answers_of redirects last

module _ (aead : Aead) (laws : IsAead aead) (stop : IoError) where
  -- A post with twelve random bytes at hand is sent, with the message in it.
  pub post-sent :
      (path message : List ℕ) (t : Transport)
      → nonce_size ≤ length t.random
      → (q : HttpRequest) × (post aead stop path message t
          ≡ (ok tt, record t { random = drop nonce_size t.random; sent = t.sent ++ (q ∷ []) }))
        × (q.url ≡ t.base_url ++ path)
        × Carries aead message q
  unfolding post post_encrypted
  post-sent path message t entropy =
      posted (decrypt-encrypt aead stop t.random message laws entropy)
    where
      posted :
          (c : List ℕ) × (encrypt aead stop t.random message ≡ ok (c, drop nonce_size t.random))
            × (decrypt aead c ≡ ok message)
            × (length c ≡ length message + 28)
          → (q : HttpRequest) × (post aead stop path message t
              ≡ (ok tt, record t { random = drop nonce_size t.random; sent = t.sent ++ (q ∷ []) }))
            × (q.url ≡ t.base_url ++ path)
            × Carries aead message q
      posted (c, e, opens, size) = (
        record { url = t.base_url ++ path; body = c },
        ap (λ r. post_encrypted (t.base_url ++ path) r t) e,
        refl,
        (opens, omega arith),
      )

  -- SendData with twelve random bytes at hand posts one request to the upload path, whose body carries the chunk,
  -- and succeeds whatever response comes.
  pub send_data-sent :
      (conn_id : ℕ) (chunk : List ℕ) (r : HttpResponse) (t : Transport)
      → nonce_size ≤ length t.random
      → (q : HttpRequest) × (send_data aead stop conn_id chunk (some r) t
          ≡ (ok tt, record t { random = drop nonce_size t.random; sent = t.sent ++ (q ∷ []) }))
        × (q.url ≡ t.base_url ++ text "/api/v2/upload")
        × Carries aead (data_message conn_id chunk) q
  unfolding send_data upload_answer
  send_data-sent conn_id chunk r t entropy =
      sends (post-sent (text "/api/v2/upload") (data_message conn_id chunk) t entropy)
    where
      sends :
          (q : HttpRequest) × (post aead stop (text "/api/v2/upload") (data_message conn_id chunk) t
              ≡ (ok tt, record t { random = drop nonce_size t.random; sent = t.sent ++ (q ∷ []) }))
            × (q.url ≡ t.base_url ++ text "/api/v2/upload")
            × Carries aead (data_message conn_id chunk) q
          → (q : HttpRequest) × (send_data aead stop conn_id chunk (some r) t
              ≡ (ok tt, record t { random = drop nonce_size t.random; sent = t.sent ++ (q ∷ []) }))
            × (q.url ≡ t.base_url ++ text "/api/v2/upload")
            × Carries aead (data_message conn_id chunk) q
      sends (q, e, at, carries) =
          (q, ap (λ posted. (upload_answer posted.0 (some r), posted.1)) e, at, carries)

  -- What Connect has done: it returns the id, and the last request carries the message with that id.
  abbrev IsConnected : ConnectRequest → ℕ → Result Error ℕ × Transport → Type 0
  IsConnected req conn_id out =
      (front : List HttpRequest) × (q : HttpRequest) × (out.0 ≡ ok conn_id)
      × (out.1.sent ≡ front ++ (q ∷ []))
      × Carries aead (connect_message conn_id req) q

  -- The transport when Connect has posted its request.
  abbrev after_post : HttpRequest → Transport → Transport
  after_post q t = record t { random = drop nonce_size t.random; sent = t.sent ++ (q ∷ []) }
