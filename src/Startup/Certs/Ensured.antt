-- ===== src/Startup/Certs/Ensured.antt =====
-- main/ptbridge.go: what ensureServerCerts leaves to do.
use ptbridge.Base.{
  ℕ, ◌+◌, ◌≡◌, refl, ap, subst, ◌≢◌, inl, inr, Bool, true, false, ◌&&◌, none, some, List, [], ◌∷◌,
  Bool-cases, ok, >>=-eq-ok, ok-injective, text, ◌=ˢ◌,
}
use ptbridge.Startup.{ServerConfig, is_empty, is_empty-false}
use ptbridge.Startup.Certs.{Identity, needs_cert, certify, ensure_loop, ensure_server_certs}

certify-again :
    (identity : Identity) (s s' : ServerConfig)
    → ((cert key : List ℕ) → identity ≡ some (cert, key) → cert ≢ [])
    → certify identity s ≡ ok s'
    → needs_cert s' ≡ false
certify-again none s s' real e = cc
certify-again (some (cert, key)) s s' real e =
    let full : is_empty cert ≡ false = is_empty-false cert (real cert key refl) in
    subst (λ q. needs_cert q ≡ false) (ok-injective e)
      (and-false (s.kind =ˢ text "obfs4") (is_empty cert) full)
  where
    and-false : (a b : Bool) → b ≡ false → (a && b) ≡ false
    and-false true b h = h
    and-false false b h = refl

module _ (identities identities' : ℕ → Identity)
    (real : (k : ℕ) (cert key : List ℕ) → identities k ≡ some (cert, key) → cert ≢ []) where
  ensure_loop-kept :
      (s : ServerConfig) (ss : List ServerConfig) (j : ℕ)
      → needs_cert s ≡ false
      → ensure_loop identities' (j + 1) false ss ≡ ok (ss, false)
      → ensure_loop identities' j false (s ∷ ss) ≡ ok (s ∷ ss, false)
  unfolding ensure_loop
  ensure_loop-kept s ss j has rest = rw (has, rest) refl

  ensure_loop-again :
      (ss ss' : List ServerConfig) (i j : ℕ) (dirty dirty' : Bool)
      → ensure_loop identities i dirty ss ≡ ok (ss', dirty')
      → ensure_loop identities' j false ss' ≡ ok (ss', false)
  unfolding ensure_loop
  ensure_loop-again [] ss' i j dirty dirty' e =
      subst (λ q. ensure_loop identities' j false q ≡ ok (q, false))
        (ap (λ r. r.0) (ok-injective e)) refl
  ensure_loop-again (s ∷ ss) ss' i j dirty dirty' e = elim (Bool-cases (needs_cert s)) [
    | inl h ↦
        let (s1, made, e1) = >>=-eq-ok (certify (identities i) s) _ (rw h at e) in
        let (r, rest, e2) = >>=-eq-ok (ensure_loop identities (i + 1) true ss) _ e1 in
        subst (λ q. ensure_loop identities' j false q ≡ ok (q, false))
          (ap (λ p. p.0) (ok-injective e2))
          (ensure_loop-kept s1 r.0 j (certify-again (identities i) s s1 (real i) made)
            (ensure_loop-again ss r.0 (i + 1) (j + 1) true r.1 rest))
    | inr h ↦
        let (r, rest, e2) = >>=-eq-ok (ensure_loop identities (i + 1) dirty ss) _ (rw h at e) in
        subst (λ q. ensure_loop identities' j false q ≡ ok (q, false))
          (ap (λ p. p.0) (ok-injective e2))
          (ensure_loop-kept s r.0 j h (ensure_loop-again ss r.0 (i + 1) (j + 1) dirty r.1 rest))
  ]

  -- If no generated certificate is empty, the entries that a run of ensureServerCerts leaves are left as they are by
  -- a next run, which has nothing to write to the file.
  pub ensure_server_certs-again :
      (ss ss' : List ServerConfig) (dirty : Bool)
      → ensure_server_certs identities ss ≡ ok (ss', dirty)
      → ensure_server_certs identities' ss' ≡ ok (ss', false)
  ensure_server_certs-again ss ss' dirty e = ensure_loop-again ss ss' 0 0 false dirty e
