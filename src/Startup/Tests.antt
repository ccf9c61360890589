-- ===== src/Startup/Tests.antt =====
-- The start of the process at concrete inputs.
use ptbridge.Base.{
  ◌↔◌, ℕ, ◌-◌, ◌≡◌, refl, ap, ◌∙◌, inl, true, false, none, some, List, [], ◌∷◌, ◌++◌, arith, length,
  take, replicate, length-append, take-append, ok, text, ◌=ˢ◌,
}
use ptbridge.Socks5.{v4, v6, Net}
use ptbridge.Startup.{ServerConfig, ClientConfig, trim_space, dpi_or_default}
use ptbridge.Startup.Entries.{server_loop, start, IsOnce, AreServed, server_loop-AreServed}
use ptbridge.Startup.Certs.Args.{IsCodec, obfs4_args_from_config-encode_obfs4_cert}
use ptbridge.Startup.Certs.Ensured.{ensure_server_certs-again}
use ptbridge.Startup.Certs.{
  Codec, padding, encode_obfs4_cert, obfs4_args_from_config, Identity, ensure_loop,
  ensure_server_certs,
}
use ptbridge.Startup.DpiServer.{nonempty}
use ptbridge.Startup.DpiClient.{
  prefer_v4, resolve_server_ip, Libraries, dial_address, client_config, launch_dpi_client,
}
use ptbridge.Startup.DpiClient.Launched.{IsClient, launch_dpi_client-IsClient}

abbrev server : List ℕ → List ℕ → ServerConfig
server kind https = record {
  kind = kind;
  listen = text "x";
  use_external_service = false;
  external_service_address = [];
  cert = [];
  private_key = [];
  enc_key = [];
  protocol = [];
  http_addr = [];
  https_addr = https;
  tls_cert_file = [];
  tls_key_file = [];
  acme_email = [];
  acme_domain = [];
  self_signed = true;
  redirect = [];
  cert_dir = [];
}

abbrev servers : List ServerConfig
servers =
    server (text "obfs4") [] ∷ server (text "dpi") (text ":443") ∷ server (text "obfs3") [] ∷ []

abbrev address : List ℕ
address = text "127.0.0.1:2000"

server_loop-AreServed_example :
    AreServed (λ s. none) address servers (server_loop (λ s. none) address servers start).0
    × IsOnce address (server_loop (λ s. none) address servers start).1
server_loop-AreServed_example =
    server_loop-AreServed (λ s. none) address refl servers start (inl (refl, refl))

abbrev identities : ℕ → Identity
identities i = some (i ∷ [], i ∷ [])

abbrev certified : List ServerConfig
certified =
    record (server (text "obfs4") []) { cert = 0 ∷ []; private_key = 0 ∷ [] }
    ∷ server (text "dpi") (text ":443")
    ∷ server (text "obfs3") []
    ∷ []

ensured : ensure_server_certs identities servers ≡ ok (certified, true)
unfolding ensure_loop ◌=ˢ◌
ensured = refl

ensure_server_certs-again_example : ensure_server_certs identities certified ≡ ok (certified, false)
ensure_server_certs-again_example =
    ensure_server_certs-again identities identities (λ k cert key e h. cc) servers certified true
      ensured

-- A codec that is good for the 52 bytes of an identity: `encode_base64` appends the padding and `decode_base64` takes it.
abbrev codec : Codec
codec = record {
  node_id_length = 20;
  public_key_length = 32;
  encode_base64 = λ raw. raw ++ padding;
  decode_base64 = λ s. some (take (length s - 2) s);
  encode_hex = λ raw. raw;
}

codec-IsCodec : IsCodec codec
codec-IsCodec = record {
  decodes = λ raw. ap some (
      ap (λ n. take n (raw ++ padding)) (omega (arith, length-append raw padding))
      ∙ take-append raw padding);
  pads = λ raw h. (raw, refl);
  one_left = refl;
}

obfs4_args_from_config-encode_obfs4_cert_example :
    obfs4_args_from_config codec
      (some (9 ∷ []))
      (encode_obfs4_cert codec (replicate 20 1) (replicate 32 2))
      (5 ∷ [])
    ≡ ok (record {
      node_id = replicate 20 1;
      private_key = 5 ∷ [];
      drbg_seed = 9 ∷ [];
      iat_mode = text "0";
    })
obfs4_args_from_config-encode_obfs4_cert_example =
    obfs4_args_from_config-encode_obfs4_cert codec (replicate 20 1) (replicate 32 2) (5 ∷ [])
      (9 ∷ []) codec-IsCodec refl refl (nonempty 5 [])

abbrev net : Net
net = record { ip_string = λ b. b; parse_ip = λ s. none }

abbrev libraries : Libraries
libraries = record {
  net = net;
  look_up = λ host. some (v6 (6 ∷ []) ∷ v4 (4 ∷ []) ∷ []);
  hostname = λ url. some (text "h");
  new_encryptor = λ key. true;
  new_transport = λ cfg. true;
  run_proxy = λ cfg. true;
}

abbrev client : ClientConfig
client = record {
  kind = text "dpi";
  listen = [];
  address = text "u";
  enc_key = [];
  protocol = [];
  sni = [];
  insecure = false;
  http_proxy_addr = [];
  follow_redirect = none;
  dns_upstream = [];
  dns_network = [];
  front_host = [];
  front_ip = [];
  verbose = false;
}

launched : launch_dpi_client libraries client ≡ ok (client_config client (text "h") (4 ∷ []))
unfolding launch_dpi_client trim_space dial_address resolve_server_ip prefer_v4 dpi_or_default
launched = refl

launch_dpi_client-IsClient_example :
    (launch_dpi_client libraries client ≡ ok (client_config client (text "h") (4 ∷ [])))
    ↔ IsClient libraries client (client_config client (text "h") (4 ∷ []))
launch_dpi_client-IsClient_example =
    launch_dpi_client-IsClient libraries client (client_config client (text "h") (4 ∷ []))
