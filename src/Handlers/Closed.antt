-- ===== src/Handlers/Closed.antt =====
-- Which connections the handlers leave open, on every branch.
use ptbridge.Base.{
  ◌++◌, ◌≡◌, ap, ◌∙◌, Bool, true, false, not, ◌&&◌, ◌||◌, none, List, [], ◌∷◌, if◌then◌else◌,
}
use ptbridge.Handlers.{
  ends, copy_loop, Peer, client, remote, Event, accepts, opens, closes, replies, dials, panics,
  reply_succeeded, reply_general_failure, ClientCalls, client_dialed, internal_by, handler_by,
  client_handler,
}

abbrev pub is_peer : Peer → Peer → Bool
is_peer client client = true
is_peer client remote = false
is_peer remote client = false
is_peer remote remote = true

-- Whether a connection is open after the events.
abbrev pub open_after : Peer → Bool → List Event → Bool
open_after p b [] = b
open_after p b (accepts q ∷ es) = open_after p (is_peer p q || b) es
open_after p b (opens q ∷ es) = open_after p (is_peer p q || b) es
open_after p b (closes q ∷ es) = open_after p (not (is_peer p q) && b) es
open_after p b (replies n ∷ es) = open_after p b es
open_after p b (dials t ∷ es) = open_after p b es
open_after p b (ends q ∷ es) = open_after p b es
open_after p b (panics ∷ es) = open_after p b es

-- No connection is open in the end.
abbrev pub AreClosed : List Event → Type 0
AreClosed es = (p : Peer) → open_after p false es ≡ false

-- When FromURL fails, the handler of an obfs client tells its own client that it failed, then dials without the
-- obfuscation, and, if that succeeds, tells it that it succeeded.
pub client_handler-unobfuscated :
    (c : ClientCalls)
    → c.handshake ≡ true
    → c.url ≡ true
    → c.from_url ≡ false
    → c.socks5 ≡ true
    → c.dial false ≡ none
    → (rest : List Event) × (client_handler true c
        ≡ accepts client
          ∷ replies reply_general_failure
          ∷ dials false
          ∷ opens remote
          ∷ replies reply_succeeded
          ∷ rest)
unfolding client_handler
client_handler-unobfuscated c h given u s d = (
  if c.reply
      then copy_loop c.first ++ (closes remote ∷ closes client ∷ [])
      else closes remote ∷ closes client ∷ [],
  ap (λ b. accepts client ∷ (if b then handler_by true c else closes client ∷ [])) h
      ∙ ap
          (λ b.
            accepts client
            ∷ (if b then internal_by c.from_url c.socks5 c else panics ∷ closes client ∷ []))
          given
      ∙ ap (λ b. accepts client ∷ internal_by b c.socks5 c) u
      ∙ ap (λ b. accepts client ∷ internal_by false b c) s
      ∙ ap
          (λ o.
            accepts client
            ∷ replies reply_general_failure
            ∷ dials false
            ∷ client_dialed c.first c.reply o)
          d,
)
