-- ===== src/Startup/Entries.antt =====
-- main/ptbridge.go: the loops of main over the entries of the configuration.
use ptbridge.Base.{
  ◌≢◌, Option-cases, =ˢ_iff, ℕ, ◌+◌, ◌≡◌, refl, sym, ap, ◌∙◌, ◌⊎◌, inl, inr, Bool, true, false,
  Option, none, some, List, [], ◌∷◌, ◌++◌, arith, if◌then◌else◌, Bool-cases, text, ◌=ˢ◌,
}
use ptbridge.Startup.{ServerConfig, is_empty, itoa}

-- What the loops keep between the entries: the counter of tags without a port, and the internal SOCKS server.
pub record Loops : Type 0 where
  pub no_tag_counter : ℕ
  pub internal_socks : List ℕ
  pub socks_started : ℕ

-- buildTag; `port` is what net.SplitHostPort finds.
unfoldable pub build_tag : (List ℕ → Option (List ℕ)) → List ℕ → List ℕ → ℕ → List ℕ × ℕ
build_tag split_port kind listen counter = elim (split_port listen) [
  | some port ↦ (kind ++ (text "-" ++ port), counter)
  | none ↦ (kind ++ (text "-" ++ itoa (counter + 1)), counter + 1)
]

pub data Launch : Type 0 where
  dpi_server snowflake_server : ServerConfig → List ℕ → Launch
  obfs_server : ServerConfig → List ℕ → Launch

-- The lazy start of the internal server, whose address is what runInternalSocks returns: it is never empty.
abbrev pub with_internal : List ℕ → Loops → Loops
with_internal address l =
    if is_empty l.internal_socks
    then record l { internal_socks = address; socks_started = l.socks_started + 1 }
    else l

-- An obfs entry, by `!c.UseExternalService`.
abbrev pub obfs_entry : Bool → ServerConfig → List ℕ → Loops → Loops → Launch × Loops
obfs_entry true c tag l1 l2 = (obfs_server c tag, l1)
obfs_entry false c tag l1 l2 =
    (obfs_server (record c { external_service_address = l2.internal_socks }) tag, l2)

-- The body of the loop over the server entries.
unfoldable pub server_entry :
    (List ℕ → Option (List ℕ)) → List ℕ → ServerConfig → Loops → Launch × Loops
server_entry split_port address c l =
    let (tag, counter) = build_tag split_port c.kind c.listen l.no_tag_counter in
    let l1 : Loops = record l { no_tag_counter = counter } in
    let l2 = with_internal address l1 in
    let obfs = obfs_entry c.use_external_service c tag l1 l2 in
    if c.kind =ˢ text "dpi"
    then (dpi_server c tag, l1)
    else if c.kind =ˢ text "snowflake"
    then (snowflake_server c tag, l1)
    else obfs

unfoldable pub server_loop :
    (List ℕ → Option (List ℕ)) → List ℕ → List ServerConfig → Loops → List Launch × Loops
server_loop split_port address [] l = ([], l)
server_loop split_port address (c ∷ cs) l =
    let (launch, l1) = server_entry split_port address c l in
    let (launches, l2) = server_loop split_port address cs l1 in (launch ∷ launches, l2)

abbrev pub start : Loops
start = record { no_tag_counter = 0; internal_socks = []; socks_started = 0 }

-- The internal server runs exactly if it has an address, and it was started once.
abbrev pub IsOnce : List ℕ → Loops → Type 0
IsOnce address l =
    ((l.internal_socks ≡ []) × (l.socks_started ≡ 0))
    ⊎ ((l.internal_socks ≡ address) × (l.socks_started ≡ 1))

-- The tag of an entry: its kind, and its port, or else a number.
abbrev pub IsTag : (List ℕ → Option (List ℕ)) → ServerConfig → List ℕ → Type 0
IsTag split_port c tag =
    ((port : List ℕ) × (split_port c.listen ≡ some port) × (tag ≡ c.kind ++ (text "-" ++ port)))
    ⊎ ((n : ℕ) × (split_port c.listen ≡ none) × (tag ≡ c.kind ++ (text "-" ++ itoa n)))

-- What an entry is launched as, by its kind. An obfs server that uses no service of its own is pointed at the internal
-- one; all else is as in the entry.
abbrev pub IsServed : (List ℕ → Option (List ℕ)) → List ℕ → ServerConfig → Launch → Type 0
IsServed split_port address c (dpi_server c' tag) =
    (c.kind ≡ text "dpi") × (c' ≡ c) × IsTag split_port c tag
IsServed split_port address c (snowflake_server c' tag) =
    (c.kind ≡ text "snowflake") × (c' ≡ c) × IsTag split_port c tag
IsServed split_port address c (obfs_server c' tag) =
    (c.kind ≢ text "dpi")
    × (c.kind ≢ text "snowflake")
    × (c' ≡ record c {
      external_service_address =
          if c.use_external_service then c.external_service_address else address;
    })
    × IsTag split_port c tag

abbrev pub AreServed :
    (List ℕ → Option (List ℕ)) → List ℕ → List ServerConfig → List Launch → Type 0
AreServed split_port address [] [] = Unit
AreServed split_port address [] (l ∷ ls) = ⊥
AreServed split_port address (c ∷ cs) [] = ⊥
AreServed split_port address (c ∷ cs) (l ∷ ls) =
    IsServed split_port address c l × AreServed split_port address cs ls

with_internal-IsOnce :
    (address : List ℕ) (l : Loops)
    → is_empty address ≡ false
    → IsOnce address l
    → IsOnce address (with_internal address l)
      × ((with_internal address l).internal_socks ≡ address)
with_internal-IsOnce address l given (inl (e, f)) =
    let test : is_empty l.internal_socks ≡ true = ap is_empty e in
    let is : with_internal address l
        ≡ record l { internal_socks = address; socks_started = l.socks_started + 1 } =
      ap
        (λ b.
          if b
          then record l { internal_socks = address; socks_started = l.socks_started + 1 }
          else l)
        test in
    (
      inr (ap (λ m. m.internal_socks) is, ap (λ m. m.socks_started) is ∙ omega arith),
      ap (λ m. m.internal_socks) is,
    )
with_internal-IsOnce address l given (inr (e, f)) =
    let test : is_empty l.internal_socks ≡ false = ap is_empty e ∙ given in
    let is : with_internal address l ≡ l =
      ap
        (λ b.
          if b
          then record l { internal_socks = address; socks_started = l.socks_started + 1 }
          else l)
        test in
    (
      inr (ap (λ m. m.internal_socks) is ∙ e, ap (λ m. m.socks_started) is ∙ f),
      ap (λ m. m.internal_socks) is ∙ e,
    )

module _ (split_port : List ℕ → Option (List ℕ)) (address : List ℕ)
    (given : is_empty address ≡ false) where
  build_tag-IsTag :
      (c : ServerConfig) (counter : ℕ)
      → IsTag split_port c (build_tag split_port c.kind c.listen counter).0
  unfolding build_tag
  build_tag-IsTag c counter = elim (Option-cases (split_port c.listen)) [
    | inl h ↦ inr (counter + 1, h, rw (build_tag, h) refl)
    | inr (port, h) ↦ inl (port, h, rw (build_tag, h) refl)
  ]

  is_kind : (s t : List ℕ) → (s =ˢ t) ≡ false → s ≢ t
  is_kind s t h e = let same = (=ˢ_iff s t).1 e in cc

  server_entry-IsServed :
      (c : ServerConfig) (l : Loops)
      → IsOnce address l
      → IsServed split_port address c (server_entry split_port address c l).0
        × IsOnce address (server_entry split_port address c l).1
  unfolding server_entry
  server_entry-IsServed c l once =
      let (tag, counter) = build_tag split_port c.kind c.listen l.no_tag_counter in
      let l1 : Loops = record l { no_tag_counter = counter } in
      let (once2, is) = with_internal-IsOnce address l1 given once in
      elim (Bool-cases (c.kind =ˢ text "dpi")) [
        | inl h ↦
            rw h
              (((=ˢ_iff c.kind (text "dpi")).0 h, refl, build_tag-IsTag c l.no_tag_counter), once)
        | inr h ↦ elim (Bool-cases (c.kind =ˢ text "snowflake")) [
          | inl g ↦
              rw (h, g)
                (
                  (
                    (=ˢ_iff c.kind (text "snowflake")).0 g,
                    refl,
                    build_tag-IsTag c l.no_tag_counter,
                  ),
                  once,
                )
          | inr g ↦
              rw (h, g)
                (served tag l1 (with_internal address l1) c.use_external_service refl is
                  (is_kind c.kind (text "dpi") h) (is_kind c.kind (text "snowflake") g)
                  (build_tag-IsTag c l.no_tag_counter) once once2)
        ]
      ]
    where
      with_service : List ℕ → ServerConfig
      with_service service = record c { external_service_address = service }

      served :
          (tag : List ℕ) (l1 l2 : Loops) (b : Bool)
          → c.use_external_service ≡ b
          → l2.internal_socks ≡ address
          → c.kind ≢ text "dpi"
          → c.kind ≢ text "snowflake"
          → IsTag split_port c tag
          → IsOnce address l1
          → IsOnce address l2
          → IsServed split_port address c (obfs_entry b c tag l1 l2).0
            × IsOnce address (obfs_entry b c tag l1 l2).1
      served tag l1 l2 true h is d s t one two = (
        (
          d,
          s,
          sym (ap (λ b. with_service (if b then c.external_service_address else address)) h),
          t,
        ),
        one,
      )
      served tag l1 l2 false h is d s t one two = (
        (
          d,
          s,
          ap with_service is
              ∙ sym (ap (λ b. with_service (if b then c.external_service_address else address)) h),
          t,
        ),
        two,
      )

  -- With an address for the internal SOCKS server that is not empty, and that server started once or not at all
  -- before: every entry is launched once, in order, by its kind (`dpi` as a dpi server, `snowflake` as a snowflake
  -- server, and any other as an obfs server), with its configuration unchanged, but that an obfs server without a service
  -- of its own is given that address; its tag is its kind and its port, or a number if it has none; and the internal
  -- server is started once at most.
  pub server_loop-AreServed :
      (cs : List ServerConfig) (l : Loops)
      → IsOnce address l
      → AreServed split_port address cs (server_loop split_port address cs l).0
        × IsOnce address (server_loop split_port address cs l).1
  unfolding server_loop
  server_loop-AreServed [] l once = (tt, once)
  server_loop-AreServed (c ∷ cs) l once =
      let (served, once1) = server_entry-IsServed c l once in
      let (rest, once2) = server_loop-AreServed cs (server_entry split_port address c l).1 once1 in
      ((served, rest), once2)
