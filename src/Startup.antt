-- ===== src/Startup.antt =====
-- main: the entries of the configuration, and what the process starts for each of them.
-- A string is the list of its bytes. What the files of main read from the network, the clock and crypto/rand are
-- arguments of the definitions.
pub mod Entries
pub mod Certs
pub mod DpiServer
pub mod DpiClient
mod Tests
use ptbridge.Base.{
  ℕ, zero, suc, ◌+◌, ◌-◌, ◌*◌, ◌/◌, ◌%◌, ◌<◌, ◌≡◌, refl, ap, ◌∙◌, ◌≢◌, inl, inr, Bool, true, false,
  ◌&&◌, ◌||◌, Option, List, [], ◌∷◌, arith, leb, ◌==◌, if◌then◌else◌, Bool-cases,
}

-- JsonServerConfigImpl, as far as main reads it.
pub record ServerConfig : Type 0 where
  pub kind : List ℕ
  pub listen : List ℕ
  pub use_external_service : Bool
  pub external_service_address : List ℕ
  pub cert : List ℕ
  pub private_key : List ℕ
  pub enc_key : List ℕ
  pub protocol : List ℕ
  pub http_addr : List ℕ
  pub https_addr : List ℕ
  pub tls_cert_file : List ℕ
  pub tls_key_file : List ℕ
  pub acme_email : List ℕ
  pub acme_domain : List ℕ
  pub self_signed : Bool
  pub redirect : List ℕ
  pub cert_dir : List ℕ

-- JsonClientConfigImpl, as far as main reads it for a dpi client.
pub record ClientConfig : Type 0 where
  pub kind : List ℕ
  pub listen : List ℕ
  pub address : List ℕ
  pub enc_key : List ℕ
  pub protocol : List ℕ
  pub sni : List ℕ
  pub insecure : Bool
  pub http_proxy_addr : List ℕ
  pub follow_redirect : Option Bool
  pub dns_upstream : List ℕ
  pub dns_network : List ℕ
  pub front_host : List ℕ
  pub front_ip : List ℕ
  pub verbose : Bool

abbrev pub is_empty : List ℕ → Bool
is_empty [] = true
is_empty (b ∷ s) = false

-- unicode.IsSpace on the bytes of ASCII
abbrev pub is_space : ℕ → Bool
is_space b = (leb 9 b && leb b 13) || b == 32

abbrev drop_spaces : List ℕ → List ℕ
drop_spaces [] = []
drop_spaces (b ∷ s) = if is_space b then drop_spaces s else b ∷ s

-- the spaces at the end, where `kept` says that nothing but spaces follows
abbrev trim_right : List ℕ → List ℕ
trim_right [] = []
trim_right (b ∷ s) = let rest = trim_right s in if is_empty rest && is_space b then [] else b ∷ rest

-- strings.TrimSpace on ASCII
unfoldable pub trim_space : List ℕ → List ℕ
trim_space s = trim_right (drop_spaces s)

-- dpiOrDefault
unfoldable pub dpi_or_default : List ℕ → List ℕ → List ℕ
dpi_or_default value fallback = if is_empty (trim_space value) then fallback else value

-- strconv.Itoa of a number that is not negative: its decimal digits, at most `fuel` of them.
unfoldable pub digits : ℕ → ℕ → List ℕ → List ℕ
digits zero n acc = acc
digits (suc fuel) n acc =
    let more = digits fuel (n / 10) ((48 + n % 10) ∷ acc) in
    if n / 10 == 0 then (48 + n % 10) ∷ acc else more

abbrev pub itoa : ℕ → List ℕ
itoa n = digits (n + 1) n []

pub is_empty-false : (s : List ℕ) → s ≢ [] → is_empty s ≡ false
is_empty-false [] given = absurd (given refl)
is_empty-false (b ∷ s) given = refl

-- The number that decimal digits continue.
abbrev value_from : ℕ → List ℕ → ℕ
value_from v [] = v
value_from v (d ∷ s) = value_from (v * 10 + (d - 48)) s

digits-value :
    (fuel n : ℕ) (acc : List ℕ) → n < fuel → value_from 0 (digits fuel n acc) ≡ value_from n acc
unfolding digits
digits-value zero n acc enough = absurd (omega arith)
digits-value (suc fuel) n acc enough = elim (Bool-cases (n / 10 == 0)) [
  | inl h ↦ let small : n % 10 ≡ n = ground arith in rw h (ap (λ v. value_from v acc) (omega arith))
  | inr h ↦
      let less : n / 10 < fuel = ground arith in
      rw h (
        digits-value fuel (n / 10) ((48 + n % 10) ∷ acc) less
        ∙ ap (λ v. value_from v acc) (omega arith))
]

-- Itoa writes the number: the digits that it is given room for are enough.
pub itoa-value : (n : ℕ) → value_from 0 (itoa n) ≡ n
itoa-value n = digits-value (n + 1) n [] (omega arith)
