-- ===== src/Startup/DpiClient/Dials.antt =====
-- The address that launchDpiClient dials.
use ptbridge.Base.{
  ◌↔◌, sym, false, panic, out_of_fuel, ℕ, ◌≡◌, refl, ap, ◌∙◌, ◌≢◌, ◌⊎◌, inl, inr, true, Option,
  none, some, List, [], ◌∷◌, ◌++◌, Bool-cases, Result, ok, err, map_err, ok-injective,
}
use ptbridge.Socks5.{Ip, v4, v6, ip_bytes, Net}
use ptbridge.Startup.{is_empty-false, is_empty, trim_space}
use ptbridge.Startup.DpiServer.{nonempty}
use ptbridge.Startup.DpiClient.{
  prefer_v4, lookup_ip, resolve_by, resolve_server_ip, resolve_failed, Libraries, front_ip_by,
  dial_address,
}

abbrev pub AllV6 : List Ip → Type 0
AllV6 [] = Unit
AllV6 (v4 b ∷ ips) = ⊥
AllV6 (v6 b ∷ ips) = AllV6 ips

-- The addresses of a name: its first IPv4 address, or, if it has none, its first address.
abbrev pub IsPreferred : Net → List Ip → List ℕ → Type 0
IsPreferred net ips dial_ip =
    ((before after : List Ip) × (b : List ℕ) × AllV6 before
      × (ips ≡ before ++ (v4 b ∷ after))
      × (dial_ip ≡ net.ip_string b))
    ⊎ ((b : List ℕ) × (after : List Ip) × AllV6 ips
        × (ips ≡ v6 b ∷ after)
        × (dial_ip ≡ net.ip_string b))

-- The address of a host, which is itself an address or a name that is looked up.
abbrev pub IsResolved : Libraries → List ℕ → List ℕ → Type 0
IsResolved lib host dial_ip =
    ((ip : Ip) × (lib.net.parse_ip host ≡ some ip) × (dial_ip ≡ lib.net.ip_string (ip_bytes ip)))
    ⊎ ((ips : List Ip) × (lib.net.parse_ip host ≡ none)
        × (lib.look_up host ≡ some ips)
        × IsPreferred lib.net ips dial_ip)

-- The address to dial: the front address where one is given, and else that of the server's host.
abbrev pub IsDialed : Libraries → (host front_ip dial_ip : List ℕ) → Type 0
IsDialed lib host front_ip dial_ip =
    ((trim_space front_ip ≡ []) × (host ≢ []) × IsResolved lib host dial_ip)
    ⊎ ((ip : Ip) × (trim_space front_ip ≢ [])
        × (lib.net.parse_ip (trim_space front_ip) ≡ some ip)
        × (dial_ip ≡ lib.net.ip_string (ip_bytes ip)))

empty-is : (s : List ℕ) → is_empty s ≡ true → s ≡ []
empty-is [] e = refl
empty-is (b ∷ s) e = cc

pub empty-not : (s : List ℕ) → is_empty s ≡ false → s ≢ []
empty-not [] e h = cc
empty-not (b ∷ s) e h = nonempty b s h

-- The choice of prefer_v4.
prefer_v4-cases :
    (first : List ℕ) (ips : List Ip)
    → ((before after : List Ip) × (b : List ℕ) × AllV6 before
        × (ips ≡ before ++ (v4 b ∷ after))
        × (prefer_v4 first ips ≡ b))
      ⊎ (AllV6 ips × (prefer_v4 first ips ≡ first))
unfolding prefer_v4
prefer_v4-cases first [] = inr (tt, refl)
prefer_v4-cases first (v4 b ∷ ips) = inl ([], ips, b, tt, refl, refl)
prefer_v4-cases first (v6 a ∷ ips) = elim (prefer_v4-cases first ips) [
  | inl (before, after, b, six, same, is) ↦
      inl (v6 a ∷ before, after, b, six, ap (λ l. v6 a ∷ l) same, is)
  | inr (six, is) ↦ inr (six, is)
]

lookup_ip-IsPreferred :
    (net : Net) (found : Option (List Ip)) (dial_ip : List ℕ)
    → lookup_ip net found ≡ ok dial_ip
    → (ips : List Ip) × (found ≡ some ips) × IsPreferred net ips dial_ip
unfolding prefer_v4
lookup_ip-IsPreferred net none dial_ip e = cc
lookup_ip-IsPreferred net (some []) dial_ip e = cc
lookup_ip-IsPreferred net (some (v4 b ∷ ips)) dial_ip e =
    (v4 b ∷ ips, refl, inl ([], ips, b, tt, refl, sym (ok-injective e)))
lookup_ip-IsPreferred net (some (v6 a ∷ ips)) dial_ip e = (
  v6 a ∷ ips,
  refl,
  elim (prefer_v4-cases a (v6 a ∷ ips)) [
    | inl (before, after, b, six, same, is) ↦
        inl (before, after, b, six, same, sym (ok-injective e) ∙ ap net.ip_string is)
    | inr (six, is) ↦ inr (a, ips, six, refl, sym (ok-injective e) ∙ ap net.ip_string is)
  ],
)

resolve_by-IsResolved :
    (lib : Libraries) (host dial_ip : List ℕ) (parse : Option Ip)
    → lib.net.parse_ip host ≡ parse
    → resolve_by lib.net (lib.look_up host) parse ≡ ok dial_ip
    → IsResolved lib host dial_ip
resolve_by-IsResolved lib host dial_ip (some ip) p e = inl (ip, p, sym (ok-injective e))
resolve_by-IsResolved lib host dial_ip none p e =
    let (ips, found, preferred) = lookup_ip-IsPreferred lib.net (lib.look_up host) dial_ip e in
    inr (ips, p, found, preferred)

map_err-ok : {E F A : Type 0} (f : E → F) (r : Result E A) (a : A) → map_err f r ≡ ok a → r ≡ ok a
map_err-ok f (ok b) a e = ap ok (ok-injective e)
map_err-ok f (err b) a e = cc
map_err-ok f panic a e = cc
map_err-ok f out_of_fuel a e = cc

resolve_server_ip-IsResolved :
    (lib : Libraries) (host dial_ip : List ℕ)
    → resolve_server_ip lib.net lib.look_up host ≡ ok dial_ip
    → (host ≢ []) × IsResolved lib host dial_ip
unfolding resolve_server_ip
resolve_server_ip-IsResolved lib [] dial_ip e = cc
resolve_server_ip-IsResolved lib (b ∷ host) dial_ip e =
    (nonempty b host, resolve_by-IsResolved lib (b ∷ host) dial_ip _ refl e)

front_ip_by-ok :
    (net : Net) (parse : Option Ip) (dial_ip : List ℕ)
    → front_ip_by net parse ≡ ok dial_ip
    → (ip : Ip) × (parse ≡ some ip) × (dial_ip ≡ net.ip_string (ip_bytes ip))
front_ip_by-ok net none dial_ip e = cc
front_ip_by-ok net (some ip) dial_ip e = (ip, refl, sym (ok-injective e))

dial_address-IsDialed :
    (lib : Libraries) (host front_ip dial_ip : List ℕ)
    → dial_address lib host front_ip ≡ ok dial_ip
    → IsDialed lib host front_ip dial_ip
unfolding dial_address
dial_address-IsDialed lib host front_ip dial_ip e =
    elim (Bool-cases (is_empty (trim_space front_ip))) [
      | inl h ↦
          let (given, resolved) =
            resolve_server_ip-IsResolved lib host dial_ip
              (map_err-ok resolve_failed _ _ (rw h at e)) in
          inl (empty-is (trim_space front_ip) h, given, resolved)
      | inr h ↦
          let (ip, p, is) = front_ip_by-ok lib.net _ dial_ip (rw h at e) in
          inr (ip, empty-not (trim_space front_ip) h, p, is)
    ]

prefer_v4-append :
    (first : List ℕ) (before : List Ip) (b : List ℕ) (after : List Ip)
    → AllV6 before
    → prefer_v4 first (before ++ (v4 b ∷ after)) ≡ b
unfolding prefer_v4
prefer_v4-append first [] b after six = refl
prefer_v4-append first (v6 a ∷ before) b after six = prefer_v4-append first before b after six
prefer_v4-append first (v4 a ∷ before) b after six = absurd six

prefer_v4-six : (first : List ℕ) (ips : List Ip) → AllV6 ips → prefer_v4 first ips ≡ first
unfolding prefer_v4
prefer_v4-six first [] six = refl
prefer_v4-six first (v6 a ∷ ips) six = prefer_v4-six first ips six
prefer_v4-six first (v4 a ∷ ips) six = absurd six

lookup_ip-preferred :
    (net : Net) (ips : List Ip) (dial_ip : List ℕ)
    → IsPreferred net ips dial_ip
    → lookup_ip net (some ips) ≡ ok dial_ip
lookup_ip-preferred net [] dial_ip (inl ([], after, b, six, same, is)) = cc
lookup_ip-preferred net [] dial_ip (inl (ip ∷ before, after, b, six, same, is)) = cc
lookup_ip-preferred net [] dial_ip (inr (b, after, six, same, is)) = cc
lookup_ip-preferred net (ip ∷ ips) dial_ip (inl (before, after, b, six, same, is)) =
    ap (λ l. ok (net.ip_string (prefer_v4 (ip_bytes ip) l))) same
    ∙ ap (λ s. ok (net.ip_string s)) (prefer_v4-append (ip_bytes ip) before b after six)
    ∙ ap ok (sym is)
lookup_ip-preferred net (v4 a ∷ ips) dial_ip (inr (b, after, six, same, is)) = absurd six
lookup_ip-preferred net (v6 a ∷ ips) dial_ip (inr (b, after, six, same, is)) =
    let bytes : a ≡ b = cc in
    ap (λ s. ok (net.ip_string s)) (prefer_v4-six a (v6 a ∷ ips) six ∙ bytes) ∙ ap ok (sym is)

resolve_by-resolved :
    (lib : Libraries) (host dial_ip : List ℕ)
    → IsResolved lib host dial_ip
    → resolve_by lib.net (lib.look_up host) (lib.net.parse_ip host) ≡ ok dial_ip
resolve_by-resolved lib host dial_ip (inl (ip, p, is)) =
    ap (resolve_by lib.net (lib.look_up host)) p ∙ ap ok (sym is)
resolve_by-resolved lib host dial_ip (inr (ips, p, found, preferred)) =
    ap (resolve_by lib.net (lib.look_up host)) p
    ∙ ap (lookup_ip lib.net) found
    ∙ lookup_ip-preferred lib.net ips dial_ip preferred

resolve_server_ip-resolved :
    (lib : Libraries) (host dial_ip : List ℕ)
    → host ≢ []
    → IsResolved lib host dial_ip
    → resolve_server_ip lib.net lib.look_up host ≡ ok dial_ip
unfolding resolve_server_ip
resolve_server_ip-resolved lib [] dial_ip given resolved = absurd (given refl)
resolve_server_ip-resolved lib (b ∷ host) dial_ip given resolved =
    resolve_by-resolved lib (b ∷ host) dial_ip resolved

dial_address-dialed :
    (lib : Libraries) (host front_ip dial_ip : List ℕ)
    → IsDialed lib host front_ip dial_ip
    → dial_address lib host front_ip ≡ ok dial_ip
unfolding dial_address
dial_address-dialed lib host front_ip dial_ip (inl (blank, given, resolved)) =
    rw (blank, resolve_server_ip-resolved lib host dial_ip given resolved) refl
dial_address-dialed lib host front_ip dial_ip (inr (ip, front, p, is)) =
    rw (is_empty-false (trim_space front_ip) front, p, is) refl

-- The address is dialed exactly if it is the one to dial.
pub dial_address-IsDialed_iff :
    (lib : Libraries) (host front_ip dial_ip : List ℕ)
    → (dial_address lib host front_ip ≡ ok dial_ip) ↔ IsDialed lib host front_ip dial_ip
dial_address-IsDialed_iff lib host front_ip dial_ip =
    (dial_address-IsDialed lib host front_ip dial_ip, dial_address-dialed lib host front_ip dial_ip)
