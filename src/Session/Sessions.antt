-- ===== src/Session/Sessions.antt =====
-- handler.go: the sessions of acceptSmux, by client number. A session is the number of its acceptSmux call, and
-- smux's own state of it is whether it was closed. The parts under the lock are steps.
use ptbridge.Base.{
  ℕ, ◌+◌, ◌≡◌, ap, ◌∙◌, Bool, true, false, not, ◌&&◌, ◌||◌, Option, none, some, List, [], ◌∷◌,
  arith, ◌==◌, if◌then◌else◌, lookup, delete, insert, lookup-delete, lookup-insert,
}

-- Server.smuxSessions, the sessions that were not closed, and the number of the next one.
pub record Sessions : Type 0 where
  pub smux_sessions : List (ℕ × ℕ)
  pub live : List ℕ
  pub next_session : ℕ

-- sess.Close
unfoldable pub close_session : ℕ → List ℕ → List ℕ
close_session n [] = []
close_session n (k ∷ ks) = let rest = close_session n ks in if k == n then rest else k ∷ rest

abbrev pub close_old : Option ℕ → List ℕ → List ℕ
close_old none ks = ks
close_old (some n) ks = close_session n ks

-- The part of acceptSmux before RunStreamAcceptor.
unfoldable pub accept_session : ℕ → Sessions → Sessions
accept_session client s = record {
  smux_sessions = insert client s.next_session s.smux_sessions;
  live = s.next_session ∷ close_old (lookup client s.smux_sessions) s.live;
  next_session = s.next_session + 1;
}

-- The deferred function of the session `n`.
unfoldable pub session_ended : ℕ → ℕ → Sessions → Sessions
session_ended client n s = record s {
  smux_sessions = delete client s.smux_sessions;
  live = close_session n s.live;
}

-- Whether a session is open.
abbrev pub is_live : ℕ → List ℕ → Bool
is_live n [] = false
is_live n (k ∷ ks) = k == n || is_live n ks

is_live-close_session :
    (n m : ℕ) (ks : List ℕ) → is_live m (close_session n ks) ≡ (not (m == n) && is_live m ks)
unfolding close_session
is_live-close_session n m [] = ground arith
is_live-close_session n m (k ∷ ks) = ground (arith, is_live-close_session n m ks)

two-live :
    (client : ℕ) (s : Sessions)
    → (accept_session client (accept_session client s)).live
      ≡ (s.next_session + 1) ∷ close_session s.next_session (accept_session client s).live
unfolding accept_session
two-live client s =
    ap
      (λ o.
        (s.next_session + 1)
        ∷ close_old o (s.next_session ∷ close_old (lookup client s.smux_sessions) s.live))
      (lookup-insert client s.next_session s.smux_sessions)

-- A session that takes the place of its client's older one is open, and the older one is closed; but once the older
-- one's function has ended, the client has no session in the table, though the newer one is still open: the next
-- session of the client does not close it.
pub session_ended-evicts :
    (client : ℕ) (s : Sessions)
    → let two = accept_session client (accept_session client s) in
      let old = s.next_session in
      let new = s.next_session + 1 in
      let after = session_ended client old two in
      (lookup client two.smux_sessions ≡ some new)
      × (is_live new two.live ≡ true)
      × (is_live old two.live ≡ false)
      × (is_live old after.live ≡ false)
      × (lookup client after.smux_sessions ≡ none)
      × (is_live new after.live ≡ true)
      × (is_live new (accept_session client after).live ≡ true)
unfolding session_ended accept_session
session_ended-evicts client s =
    let old = s.next_session in
    let two = (accept_session client (accept_session client s)).live in
    let front : is_live (old + 1) two ≡ true =
      ap (is_live (old + 1)) (two-live client s) ∙ ground arith in
    let same : (old == old) ≡ true = ground arith in
    let other : (old + 1 == old) ≡ false = ground arith in
    let replaced : is_live old two ≡ false =
      ap (is_live old) (two-live client s)
      ∙ ground (arith, is_live-close_session old old (accept_session client s).live, same) in
    let closed : is_live old (close_session old two) ≡ false =
      is_live-close_session old old two ∙ ap (λ b. not b && is_live old two) same in
    let kept : is_live (old + 1) (close_session old two) ≡ true =
      is_live-close_session old (old + 1) two
      ∙ ap (λ b. not b && is_live (old + 1) two) other
      ∙ front in
    let gone =
      lookup-delete client (accept_session client (accept_session client s)).smux_sessions in
    (
      lookup-insert client (old + 1) (accept_session client s).smux_sessions,
      front,
      replaced,
      closed,
      gone,
      kept,
      ap (λ o. is_live (old + 1) ((old + 1 + 1) ∷ close_old o (close_session old two))) gone
          ∙ ground (arith, kept),
    )
