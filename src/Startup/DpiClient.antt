-- ===== src/Startup/DpiClient.antt =====
-- main/dpi.go: launchDpiClient and resolveServerIP. The host of a URL, the lookup of a name, and the constructors of
-- the encryptor, the transport and the proxy are arguments.
pub mod Dials
pub mod Launched
use ptbridge.Base.{
  sym, false, panic, out_of_fuel, ℕ, ◌≡◌, refl, ap, subst, ◌∙◌, ◌≢◌, ◌⊎◌, inl, inr, Bool, true, not,
  ◌&&◌, Option, none, some, List, [], ◌∷◌, ◌++◌, if◌then◌else◌, Bool-cases, Result, ok, err, ◌>>=◌,
  ◌>>◌, map_err, guard, >>=-eq-ok, guard-ok, ok-injective, text,
}
use ptbridge.Socks5.{Ip, v4, v6, ip_bytes, Net}
use ptbridge.Startup.{ClientConfig, is_empty, trim_space, dpi_or_default, is_empty-false}
use ptbridge.Startup.DpiServer.{default_enc_key, default_protocol, nonempty}

pub data ResolveError : Type 0 where
  no_hostname lookup_failed no_addresses : ResolveError

-- The first IPv4 address, or else the first address.
unfoldable pub prefer_v4 : List ℕ → List Ip → List ℕ
prefer_v4 first [] = first
prefer_v4 first (v4 b ∷ ips) = b
prefer_v4 first (v6 b ∷ ips) = prefer_v4 first ips

abbrev pub lookup_ip : Net → Option (List Ip) → Result ResolveError (List ℕ)
lookup_ip net none = err lookup_failed
lookup_ip net (some []) = err no_addresses
lookup_ip net (some (ip ∷ ips)) = ok (net.ip_string (prefer_v4 (ip_bytes ip) (ip ∷ ips)))

abbrev pub resolve_by : Net → Option (List Ip) → Option Ip → Result ResolveError (List ℕ)
resolve_by net found (some ip) = ok (net.ip_string (ip_bytes ip))
resolve_by net found none = lookup_ip net found

-- resolveServerIP; `look_up` is net.LookupIP.
unfoldable pub resolve_server_ip :
    Net → (List ℕ → Option (List Ip)) → List ℕ → Result ResolveError (List ℕ)
resolve_server_ip net look_up host =
    if is_empty host then err no_hostname else resolve_by net (look_up host) (net.parse_ip host)

pub data ClientError : Type 0 where
  no_address invalid_url invalid_front_ip encryptor_failed transport_failed proxy_failed :
      ClientError
  resolve_failed : ResolveError → ClientError

-- The arguments of NewTransport and the fields of ProxyConfig that launchDpiClient fills.
pub record DpiClientConfig : Type 0 where
  pub server_url : List ℕ
  pub encryption_key : List ℕ
  pub server_name : List ℕ
  pub insecure_skip_verify : Bool
  pub follow_redirects : Bool
  pub front_host : List ℕ
  pub dial_ip : List ℕ
  pub protocol : List ℕ
  pub socks_addr : List ℕ
  pub http_addr : List ℕ
  pub dns_upstream : List ℕ
  pub dns_network : List ℕ
  pub verbose : Bool

-- The libraries that launchDpiClient calls: url.Parse with Hostname, and whether a constructor succeeds.
pub record Libraries : Type 0 where
  pub net : Net
  pub look_up : List ℕ → Option (List Ip)
  pub hostname : List ℕ → Option (List ℕ)
  pub new_encryptor : List ℕ → Bool
  pub new_transport : DpiClientConfig → Bool
  pub run_proxy : DpiClientConfig → Bool

abbrev pub front_ip_by : Net → Option Ip → Result ClientError (List ℕ)
front_ip_by net none = err invalid_front_ip
front_ip_by net (some ip) = ok (net.ip_string (ip_bytes ip))

-- The address that is dialed: front-ip, or else that of the server's host.
unfoldable pub dial_address : Libraries → List ℕ → List ℕ → Result ClientError (List ℕ)
dial_address lib host front_ip =
    if is_empty (trim_space front_ip)
    then map_err resolve_failed (resolve_server_ip lib.net lib.look_up host)
    else front_ip_by lib.net (lib.net.parse_ip (trim_space front_ip))

abbrev pub follow_by : Option Bool → Bool
follow_by none = true
follow_by (some b) = b

abbrev pub client_config : ClientConfig → List ℕ → List ℕ → DpiClientConfig
client_config c host dial_ip = record {
  server_url = c.address;
  encryption_key = dpi_or_default c.enc_key default_enc_key;
  server_name = if is_empty c.sni then host else c.sni;
  insecure_skip_verify = c.insecure;
  follow_redirects = follow_by c.follow_redirect;
  front_host = c.front_host;
  dial_ip = dial_ip;
  protocol = dpi_or_default c.protocol default_protocol;
  socks_addr =
      if is_empty c.listen && is_empty c.http_proxy_addr then text "127.0.0.1:1080" else c.listen;
  http_addr = c.http_proxy_addr;
  dns_upstream = dpi_or_default c.dns_upstream (text "1.1.1.1:53");
  dns_network = dpi_or_default c.dns_network (text "tcp");
  verbose = c.verbose;
}

abbrev pub parsed : Option (List ℕ) → Result ClientError (List ℕ)
parsed none = err invalid_url
parsed (some host) = ok host

-- launchDpiClient: what the proxy runs with, or the error that is logged.
unfoldable pub launch_dpi_client : Libraries → ClientConfig → Result ClientError DpiClientConfig
launch_dpi_client lib c = do
  guard (not (is_empty (trim_space c.address))) no_address
  host ← parsed (lib.hostname c.address)
  dial_ip ← dial_address lib host c.front_ip
  let cfg = client_config c host dial_ip
  guard (lib.new_encryptor cfg.encryption_key) encryptor_failed
  guard (lib.new_transport cfg) transport_failed
  guard (lib.run_proxy cfg) proxy_failed
  ok cfg
