-- ===== src/Startup/Certs.antt =====
-- obfs/server/server.go: the obfs4 identity of a server, and main's ensureServerCerts.
-- The sizes of a node ID and of a public key, base64 and hex are those of packages ntor, base64 and hex.
pub mod Args
pub mod Ensured
use ptbridge.Base.{
  ℕ, ◌+◌, Bool, true, false, ◌&&◌, Option, none, some, List, [], ◌∷◌, ◌++◌, ◌==◌, if◌then◌else◌,
  length, take, Result, ok, err, ◌>>=◌, text, ◌=ˢ◌,
}
use ptbridge.Startup.{ServerConfig, is_empty}

pub record Codec : Type 0 where
  pub node_id_length : ℕ
  pub public_key_length : ℕ
  pub encode_base64 : List ℕ → List ℕ
  pub decode_base64 : List ℕ → Option (List ℕ)
  pub encode_hex : List ℕ → List ℕ

abbrev pub padding : List ℕ
padding = text "=="

-- strings.TrimSuffix(s, "==")
unfoldable pub trim_padding : List ℕ → List ℕ
trim_padding [] = []
trim_padding (b ∷ s) = let rest = trim_padding s in if (b ∷ s) =ˢ padding then [] else b ∷ rest

unfoldable pub encode_obfs4_cert : Codec → List ℕ → List ℕ → List ℕ
encode_obfs4_cert codec node_id public_key =
    trim_padding (codec.encode_base64 (node_id ++ public_key))

pub data ArgsError : Type 0 where
  missing_private_key invalid_base64 seed_failed : ArgsError
  cert_length : ℕ → ArgsError

-- pt.Args of an obfs4 server
pub record ObfsArgs : Type 0 where
  pub node_id : List ℕ
  pub private_key : List ℕ
  pub drbg_seed : List ℕ
  pub iat_mode : List ℕ

abbrev pub seeded : Codec → List ℕ → List ℕ → Option (List ℕ) → Result ArgsError ObfsArgs
seeded codec decoded private_key none = err seed_failed
seeded codec decoded private_key (some seed) = ok (record {
  node_id = codec.encode_hex (take codec.node_id_length decoded);
  private_key = private_key;
  drbg_seed = seed;
  iat_mode = text "0";
})

abbrev pub decoded_args :
    Codec → List ℕ → Option (List ℕ) → Option (List ℕ) → Result ArgsError ObfsArgs
decoded_args codec private_key seed none = err invalid_base64
decoded_args codec private_key seed (some decoded) =
    if length decoded == codec.node_id_length + codec.public_key_length
    then seeded codec decoded private_key seed
    else err (cert_length (length decoded))

-- obfs4ArgsFromConfig, with what drbg.NewSeed gives, in hex
unfoldable pub obfs4_args_from_config :
    Codec → Option (List ℕ) → List ℕ → List ℕ → Result ArgsError ObfsArgs
obfs4_args_from_config codec seed cert private_key =
    if is_empty private_key
    then err missing_private_key
    else decoded_args codec private_key seed (codec.decode_base64 (cert ++ padding))

-- What GenerateIdentity gives: a certificate and its private key, or an error.
abbrev pub Identity : Type 0
Identity = Option (List ℕ × List ℕ)

-- What ensureServerCerts leaves: the entries, and whether one is new; or the process ends with lg.Fatal.
pub data CertsError : Type 0 where
  no_certificate : CertsError

abbrev pub needs_cert : ServerConfig → Bool
needs_cert s = (s.kind =ˢ text "obfs4") && is_empty s.cert

abbrev pub certify : Identity → ServerConfig → Result CertsError ServerConfig
certify none s = err no_certificate
certify (some (cert, private_key)) s = ok (record s { cert = cert; private_key = private_key })

-- The loop of ensureServerCerts; `identities` has what GenerateIdentity returns in the call for an entry's place.
unfoldable pub ensure_loop :
    (ℕ → Identity) → ℕ → Bool → List ServerConfig → Result CertsError (List ServerConfig × Bool)
ensure_loop identities i dirty [] = ok ([], dirty)
ensure_loop identities i dirty (s ∷ ss) = do
  let fresh = do
    s' ← certify (identities i) s
    (ss', dirty') ← ensure_loop identities (i + 1) true ss
    ok (s' ∷ ss', dirty')
  let same = do (ss', dirty') ← ensure_loop identities (i + 1) dirty ss; ok (s ∷ ss', dirty')
  if needs_cert s then fresh else same

-- ensureServerCerts; the file is written exactly if the second result is true.
abbrev pub ensure_server_certs :
    (ℕ → Identity) → List ServerConfig → Result CertsError (List ServerConfig × Bool)
ensure_server_certs identities servers = ensure_loop identities 0 false servers
