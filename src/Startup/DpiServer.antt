-- ===== src/Startup/DpiServer.antt =====
-- main/dpi.go: launchDpiServer, with NewServer and Run of package dpi/server as arguments.
use ptbridge.Base.{
  ℕ, ◌≡◌, refl, ◌≢◌, ◌↔◌, ◌⊎◌, inl, inr, Bool, true, false, not, ◌&&◌, List, [], ◌∷◌, Result, ok,
  ◌>>◌, guard, guard-ok, text,
}
use ptbridge.Startup.{ServerConfig, is_empty, dpi_or_default}

-- Config of dpi/server, as launchDpiServer fills it.
pub record DpiServerConfig : Type 0 where
  pub http_addr : List ℕ
  pub https_addr : List ℕ
  pub tls_cert_file : List ℕ
  pub tls_key_file : List ℕ
  pub acme_email : List ℕ
  pub acme_domain : List ℕ
  pub self_signed : Bool
  pub redirect_url : List ℕ
  pub encryption_key : List ℕ
  pub cert_dir : List ℕ
  pub protocol : List ℕ

pub data LaunchError : Type 0 where
  no_listen_address no_certificate init_failed run_failed : LaunchError

abbrev pub default_enc_key : List ℕ
default_enc_key = text "default-encryption-key-change-me"

abbrev pub default_protocol : List ℕ
default_protocol = text "auto"

abbrev pub server_config : ServerConfig → DpiServerConfig
server_config c = record {
  http_addr = c.http_addr;
  https_addr = c.https_addr;
  tls_cert_file = c.tls_cert_file;
  tls_key_file = c.tls_key_file;
  acme_email = c.acme_email;
  acme_domain = c.acme_domain;
  self_signed = c.self_signed;
  redirect_url = c.redirect;
  encryption_key = dpi_or_default c.enc_key default_enc_key;
  cert_dir = c.cert_dir;
  protocol = dpi_or_default c.protocol default_protocol;
}

-- launchDpiServer: the configuration of the server that runs, or the error that is logged.
unfoldable pub launch_dpi_server :
    (new_server run : DpiServerConfig → Bool) → ServerConfig → Result LaunchError DpiServerConfig
launch_dpi_server new_server run c = do
  let cfg = server_config c
  guard (not (is_empty cfg.http_addr && is_empty cfg.https_addr)) no_listen_address
  guard
      (not (
        not (is_empty cfg.https_addr)
        && not cfg.self_signed
        && is_empty cfg.acme_email
        && is_empty cfg.tls_cert_file))
      no_certificate
  guard (new_server cfg) init_failed
  guard (run cfg) run_failed
  ok cfg

-- What a server needs before it is made: an address, and a source of certificates for HTTPS.
pub record IsLaunchable (c : ServerConfig) : Type 0 where
  pub listens : (c.http_addr ≢ []) ⊎ (c.https_addr ≢ [])
  pub certified :
      c.https_addr ≢ [] → (c.self_signed ≡ true) ⊎ (c.acme_email ≢ []) ⊎ (c.tls_cert_file ≢ [])

pub nonempty : (b : ℕ) (s : List ℕ) → b ∷ s ≢ []
nonempty b s h = cc

pub listens_iff : (s t : List ℕ) → (not (is_empty s && is_empty t) ≡ true) ↔ ((s ≢ []) ⊎ (t ≢ []))
listens_iff [] [] = (λ h. cc, λ h. elim h [ inl f ↦ absurd (f refl) | inr f ↦ absurd (f refl) ])
listens_iff [] (b ∷ t) = (λ h. inr (nonempty b t), λ h. refl)
listens_iff (a ∷ s) t = (λ h. inl (nonempty a s), λ h. refl)

certified_iff :
    (https : List ℕ) (self : Bool) (email file : List ℕ)
    → (not (not (is_empty https) && not self && is_empty email && is_empty file) ≡ true)
      ↔ (https ≢ [] → (self ≡ true) ⊎ (email ≢ []) ⊎ (file ≢ []))
certified_iff [] self email file = (λ h given. absurd (given refl), λ h. refl)
certified_iff (a ∷ s) true email file = (λ h given. inl refl, λ h. refl)
certified_iff (a ∷ s) false (b ∷ email) file = (λ h given. inr (inl (nonempty b email)), λ h. refl)
certified_iff (a ∷ s) false [] (b ∷ file) = (λ h given. inr (inr (nonempty b file)), λ h. refl)
certified_iff (a ∷ s) false [] [] = (λ h. cc, λ h. absurd (none_of (h (nonempty a s))))
  where
    none_of : (◌≡◌ {A = Bool} false true) ⊎ (◌≢◌ {A = List ℕ} [] []) ⊎ (◌≢◌ {A = List ℕ} [] []) → ⊥
    none_of (inl h) = cc
    none_of (inr (inl h)) = h refl
    none_of (inr (inr h)) = h refl

-- A dpi server is launched, with the settings of its entry, exactly if the entry has an address, HTTPS has a
-- source of certificates if it has one, and the server can be made and run.
pub launch_dpi_server_iff :
    (new_server run : DpiServerConfig → Bool) (c : ServerConfig)
    → (launch_dpi_server new_server run c ≡ ok (server_config c))
      ↔ (IsLaunchable c × (new_server (server_config c) ≡ true) × (run (server_config c) ≡ true))
unfolding launch_dpi_server
launch_dpi_server_iff new_server run c =
    let addresses = listens_iff c.http_addr c.https_addr in
    let certificates = certified_iff c.https_addr c.self_signed c.acme_email c.tls_cert_file in
    (
      λ h.
          let (one, h1) = guard-ok _ _ _ _ h in
          let (two, h2) = guard-ok _ _ _ _ h1 in
          let (made, h3) = guard-ok _ _ _ _ h2 in
          let (ran, h4) = guard-ok _ _ _ _ h3 in
          (record { listens = addresses.0 one; certified = certificates.0 two }, made, ran),
      λ (launchable, made, ran).
          rw (addresses.1 launchable.listens, certificates.1 launchable.certified, made, ran) refl,
    )
