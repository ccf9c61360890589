-- ===== src/Startup/DpiClient/Launched.antt =====
-- When launchDpiClient launches a client, and what the client then has.
use ptbridge.Base.{
  ◌↔◌, sym, false, not, subst, Bool, guard-ok, >>=-eq-ok, text, ◌&&◌, if◌then◌else◌, ℕ, ◌≡◌, refl,
  ap, ◌∙◌, ◌≢◌, ◌⊎◌, inl, inr, true, Option, none, some, List, [], ◌∷◌, Bool-cases, ok,
  ok-injective,
}
use ptbridge.Startup.{ClientConfig, is_empty-false, is_empty, trim_space, dpi_or_default}
use ptbridge.Startup.DpiServer.{default_enc_key, nonempty}
use ptbridge.Startup.DpiClient.{DpiClientConfig, Libraries, dial_address, parsed, launch_dpi_client}
use ptbridge.Startup.DpiClient.{client_config}
use ptbridge.Startup.DpiClient.Dials.{empty-not, IsDialed, dial_address-IsDialed_iff}

-- What a client that is launched has: an address to listen on, a key, the fields of its configuration, the address to
-- dial, and parts that could be made.
pub record IsClient (lib : Libraries) (c : ClientConfig) (cfg : DpiClientConfig) : Type 0 where
  pub given : trim_space c.address ≢ []
  pub listens : (cfg.socks_addr ≢ []) ⊎ (cfg.http_addr ≢ [])
  pub key : cfg.encryption_key ≢ []
  pub dials :
      (host : List ℕ) × (lib.hostname c.address ≡ some host)
      × IsDialed lib host c.front_ip cfg.dial_ip
      × (cfg ≡ client_config c host cfg.dial_ip)
  pub made :
      (lib.new_encryptor cfg.encryption_key ≡ true)
      × (lib.new_transport cfg ≡ true)
      × (lib.run_proxy cfg ≡ true)

dpi_or_default-nonempty :
    (value fallback : List ℕ) → fallback ≢ [] → dpi_or_default value fallback ≢ []
unfolding dpi_or_default trim_space
dpi_or_default-nonempty [] fallback given h = given h
dpi_or_default-nonempty (b ∷ value) fallback given h =
    elim (Bool-cases (is_empty (trim_space (b ∷ value)))) [
      | inl e ↦ given (rw e at h)
      | inr e ↦ nonempty b value (rw e at h)
    ]

not-true : (b : Bool) → not b ≡ true → b ≡ false
not-true true h = cc
not-true false h = refl

launch_dpi_client-launched :
    (lib : Libraries) (c : ClientConfig) (cfg : DpiClientConfig)
    → IsClient lib c cfg
    → launch_dpi_client lib c ≡ ok cfg
unfolding launch_dpi_client
launch_dpi_client-launched lib c cfg valid =
    let (host, named, dialed, is) = valid.dials in
    let (encryptor, transport, proxy) = valid.made in
    let address = is_empty-false (trim_space c.address) valid.given in
    let dials = (dial_address-IsDialed_iff lib host c.front_ip cfg.dial_ip).1 dialed in
    let has_encryptor : lib.new_encryptor (client_config c host cfg.dial_ip).encryption_key ≡ true =
      ap (λ (x : DpiClientConfig). lib.new_encryptor x.encryption_key) (sym is) ∙ encryptor in
    let has_transport : lib.new_transport (client_config c host cfg.dial_ip) ≡ true =
      ap lib.new_transport (sym is) ∙ transport in
    let runs : lib.run_proxy (client_config c host cfg.dial_ip) ≡ true =
      ap lib.run_proxy (sym is) ∙ proxy in
    rw (address, named, dials, has_encryptor, has_transport, runs) (ap ok (sym is))

launched-IsClient :
    (lib : Libraries) (c : ClientConfig) (cfg : DpiClientConfig)
    → launch_dpi_client lib c ≡ ok cfg
    → IsClient lib c cfg
unfolding launch_dpi_client
launched-IsClient lib c cfg h =
    let (given, h1) = guard-ok _ _ _ _ h in
    let (host, named, h2) = >>=-eq-ok (parsed (lib.hostname c.address)) _ h1 in
    let (dial_ip, dialed, h3) = >>=-eq-ok (dial_address lib host c.front_ip) _ h2 in
    let (key, h4) = guard-ok _ _ _ _ h3 in
    let (made, h5) = guard-ok _ _ _ _ h4 in
    let (ran, h6) = guard-ok _ _ _ _ h5 in
    subst (IsClient lib c) (ok-injective h6) (record {
      given = empty-not (trim_space c.address) (not-true _ given);
      listens = socks-listens c.listen c.http_proxy_addr;
      key = dpi_or_default-nonempty c.enc_key default_enc_key (nonempty _ _);
      dials = (
        host,
        parsed-host (lib.hostname c.address) host named,
        (dial_address-IsDialed_iff lib host c.front_ip dial_ip).0 dialed,
        refl,
      );
      made = (key, made, ran);
    })
  where
    parsed-host : (o : Option (List ℕ)) (host : List ℕ) → parsed o ≡ ok host → o ≡ some host
    parsed-host none host e = cc
    parsed-host (some x) host e = ap some (ok-injective e)

    socks-listens :
        (s t : List ℕ)
        → ((if is_empty s && is_empty t then text "127.0.0.1:1080" else s) ≢ []) ⊎ (t ≢ [])
    socks-listens [] [] = inl (λ h. cc)
    socks-listens [] (b ∷ t) = inr (nonempty b t)
    socks-listens (a ∷ s) t = inl (nonempty a s)

-- A dpi client is launched exactly if its address is not blank, the host of its URL and the address to dial are found,
-- and its parts can be made. The address to dial is the one in its front-ip if that is not blank, and else that of the
-- host of its URL, which is that host if it is an address, and else, of the addresses that the host's name has, the first
-- of IPv4 or, without any of IPv4, the first. The client that is launched has the fields of client_config for that host and
-- address; it listens for SOCKS or for HTTP, and its key is not empty.
pub launch_dpi_client-IsClient :
    (lib : Libraries) (c : ClientConfig) (cfg : DpiClientConfig)
    → (launch_dpi_client lib c ≡ ok cfg) ↔ IsClient lib c cfg
launch_dpi_client-IsClient lib c cfg =
    (launched-IsClient lib c cfg, launch_dpi_client-launched lib c cfg)
