-- ===== src/Startup/Certs/Args.antt =====
-- obfs/server/server.go: the arguments that a certificate gives back.
use ptbridge.Base.{
  ℕ, ◌+◌, ◌%◌, ◌≡◌, refl, sym, ap, ◌∙◌, ◌≢◌, inl, inr, true, false, some, List, [], ◌∷◌, ◌++◌,
  arith, ◌==◌, if◌then◌else◌, ==_iff, Bool-cases, length, take, length-append, take-append, ok, err,
  text, ◌=ˢ◌, =ˢ_iff,
}
use ptbridge.Startup.{is_empty, is_empty-false}
use ptbridge.Startup.Certs.{
  Codec, padding, trim_padding, encode_obfs4_cert, missing_private_key, cert_length, seeded,
  decoded_args, obfs4_args_from_config,
}

-- What the packages promise: base64 decodes what it encodes, and ends in two padding bytes where one byte is left
-- over, as it is for the 52 bytes of a node ID and a public key.
pub record IsCodec (codec : Codec) : Type 0 where
  pub decodes : (raw : List ℕ) → codec.decode_base64 (codec.encode_base64 raw) ≡ some raw
  pub pads :
      (raw : List ℕ)
      → length raw % 3 ≡ 1
      → (body : List ℕ) × (codec.encode_base64 raw ≡ body ++ padding)
  pub one_left : (codec.node_id_length + codec.public_key_length) % 3 ≡ 1

trim_padding-append : (body : List ℕ) → trim_padding (body ++ padding) ≡ body
unfolding trim_padding
trim_padding-append [] = unfold ◌=ˢ◌ in refl
trim_padding-append (b ∷ body) =
    let longer : ((b ∷ (body ++ padding)) =ˢ padding) ≡ false =
      elim (Bool-cases ((b ∷ (body ++ padding)) =ˢ padding)) [
        | inl same ↦
            absurd (omega (arith, ap length ((=ˢ_iff _ _).0 same), length-append body padding))
        | inr differ ↦ differ
      ] in
    ap (λ t. if t then [] else b ∷ trim_padding (body ++ padding)) longer
    ∙ ap (λ s. b ∷ s) (trim_padding-append body)

-- With a lawful codec, a node ID and a public key of the right lengths, a private key that is not empty and a
-- seed: the certificate that a server advertises gives back the arguments that launch the same server again, with
-- its node ID and its private key.
pub obfs4_args_from_config-encode_obfs4_cert :
    (codec : Codec) (node_id public_key private_key seed : List ℕ)
    → IsCodec codec
    → length node_id ≡ codec.node_id_length
    → length public_key ≡ codec.public_key_length
    → private_key ≢ []
    → obfs4_args_from_config codec
        (some seed)
        (encode_obfs4_cert codec node_id public_key)
        private_key
      ≡ ok (record {
        node_id = codec.encode_hex node_id;
        private_key = private_key;
        drbg_seed = seed;
        iat_mode = text "0";
      })
unfolding obfs4_args_from_config encode_obfs4_cert
obfs4_args_from_config-encode_obfs4_cert codec node_id public_key private_key seed law n p given =
    let raw = node_id ++ public_key in
    let size : length raw ≡ codec.node_id_length + codec.public_key_length =
      length-append node_id public_key ∙ omega arith in
    let (body, padded) = law.pads raw (ap (λ k. k % 3) size ∙ law.one_left) in
    let cert : trim_padding (codec.encode_base64 raw) ≡ body =
      ap trim_padding padded ∙ trim_padding-append body in
    let decoded : codec.decode_base64 (trim_padding (codec.encode_base64 raw) ++ padding)
        ≡ some raw =
      ap (λ s. codec.decode_base64 (s ++ padding)) cert
      ∙ ap codec.decode_base64 (sym padded)
      ∙ law.decodes raw in
    let key : is_empty private_key ≡ false = is_empty-false private_key given in
    let fits : (length raw == codec.node_id_length + codec.public_key_length) ≡ true =
      (==_iff _ _).1 size in
    let front : take codec.node_id_length raw ≡ node_id =
      ap (λ k. take k raw) (sym n) ∙ take-append node_id public_key in
    ap
      (λ b.
        if b
        then err missing_private_key
        else decoded_args codec private_key (some seed)
            (codec.decode_base64 (trim_padding (codec.encode_base64 raw) ++ padding)))
      key
    ∙ ap (decoded_args codec private_key (some seed)) decoded
    ∙ ap
        (λ b.
          if b then seeded codec raw private_key (some seed) else err (cert_length (length raw)))
        fits
    ∙ ap
        (λ q. ok (record {
          node_id = codec.encode_hex q;
          private_key = private_key;
          drbg_seed = seed;
          iat_mode = text "0";
        }))
        front
