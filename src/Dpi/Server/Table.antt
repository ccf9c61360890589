-- ===== src/Dpi/Server/Table.antt =====
-- The invariant of the table of clients, and the changes that keep it.
use ptbridge.Base.{
  ℕ-cases, ℕ, ◌≡◌, ◌≢◌, sym, subst, ap, ◌∙◌, get_elem?, set, some, some-injective, none≢some, false,
  lookup, insert, delete, lookup-delete, lookup-delete_other, lookup-insert, lookup-insert_other,
  get_elem?-set, get_elem?-set_other, inl, inr,
}
use ptbridge.Dpi.Server.{
  Remote, ClientConn, Server, register_client, unregister_client, update_remote,
}

-- Each entry is under the id that its connection was made for, and the connection is open.
abbrev pub IsEntry : Server → ℕ → ClientConn → Type 0
IsEntry s k c =
    (r : Remote) × (get_elem? s.remotes c.remote ≡ some r) × (r.conn_id ≡ k) × (r.closed ≡ false)

abbrev pub IsServer : Server → Type 0
IsServer s = (k : ℕ) (c : ClientConn) → lookup k s.clients ≡ some c → IsEntry s k c

pub unregister_client-IsServer :
    (k : ℕ) (s : Server) → IsServer s → IsServer (unregister_client k s)
unfolding unregister_client
unregister_client-IsServer k s valid j c h = elim (ℕ-cases j k) [
  | inl e ↦ absurd (
      none≢some
        (sym (lookup-delete k s.clients) ∙ ap (λ i. lookup i (delete k s.clients)) (sym e) ∙ h))
  | inr e ↦ valid j c (sym (lookup-delete_other k j s.clients e) ∙ h)
]

pub register_client-IsServer :
    (k : ℕ) (c : ClientConn) (s : Server)
    → IsServer s
    → IsEntry s k c
    → IsServer (register_client k c s)
unfolding register_client
register_client-IsServer k c s valid entry j d h = elim (ℕ-cases j k) [
  | inl e ↦
      let same : some c ≡ some d =
        sym (lookup-insert k c s.clients) ∙ ap (λ i. lookup i (insert k c s.clients)) (sym e) ∙ h in
      subst (λ i. IsEntry s i d) (sym e) (subst (IsEntry s k) (some-injective same) entry)
  | inr e ↦ valid j d (sym (lookup-insert_other k j c s.clients e) ∙ h)
]

-- A connection that is replaced by one of the same id that is still open.
pub update_remote-IsServer :
    (i : ℕ) (r r' : Remote) (s : Server)
    → IsServer s
    → get_elem? s.remotes i ≡ some r
    → r'.conn_id ≡ r.conn_id
    → r'.closed ≡ r.closed
    → IsServer (update_remote i r' s)
update_remote-IsServer i r r' s valid found same as_open k c h = elim (ℕ-cases c.remote i) [
  | inl e ↦
      let (q, at, id, up) = valid k c h in
      let it : some q ≡ some r = sym at ∙ ap (get_elem? s.remotes) e ∙ found in
      let is : q ≡ r = some-injective it in
      (
        r',
        ap (get_elem? (set s.remotes i r')) e ∙ get_elem?-set s.remotes i r' r found,
        same ∙ ap (λ x. x.conn_id) (sym is) ∙ id,
        as_open ∙ ap (λ x. x.closed) (sym is) ∙ up,
      )
  | inr e ↦
      let (q, at, id, up) = valid k c h in
      (q, get_elem?-set_other s.remotes i c.remote r' e ∙ at, id, up)
]

-- Closing the connection `i` takes the only entry that can refer to it.
pub close_remote-IsServer :
    (i : ℕ) (r : Remote) (s : Server)
    → IsServer s
    → get_elem? s.remotes i ≡ some r
    → (r' : Remote) → IsServer (unregister_client r.conn_id (update_remote i r' s))
unfolding unregister_client
close_remote-IsServer i r s valid found r' j c h = elim (ℕ-cases j r.conn_id) [
  | inl e ↦ absurd (
      none≢some (
        sym (lookup-delete r.conn_id s.clients)
        ∙ ap (λ k. lookup k (delete r.conn_id s.clients)) (sym e)
        ∙ h))
  | inr e ↦
      let (q, at, id, up) = valid j c (sym (lookup-delete_other r.conn_id j s.clients e) ∙ h) in
      let apart : c.remote ≢ i = λ same. e (
        sym id
        ∙ ap (λ x. x.conn_id) (some-injective (sym at ∙ ap (get_elem? s.remotes) same ∙ found))) in
      (q, get_elem?-set_other s.remotes i c.remote r' apart ∙ at, id, up)
]
