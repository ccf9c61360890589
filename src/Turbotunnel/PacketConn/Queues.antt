-- ===== src/Turbotunnel/PacketConn/Queues.antt =====
-- What the queues of a packet connection stand for: a bounded list of packets for each address.
use ptbridge.Base.{
  ℕ, ◌≤◌, ◌<◌, ◌≡◌, refl, inl, inr, Bool, true, false, Option, none, some, List, [], ◌∷◌, arith,
  ◌==◌, if◌then◌else◌, ℕ-cases, length, length-append, ok, ok-injective, insert, lookup-insert_if,
}
use ptbridge.Turbotunnel.ClientMap.{ClientRecord}
use ptbridge.Turbotunnel.ClientMap.Views.{view}
use ptbridge.Turbotunnel.ClientMap.Ops.{IsClientMap}
use ptbridge.Turbotunnel.PacketConn.{
  queue_size, CloseError, Op, QueuePacketConn, offer, contents, op_error,
}

-- A connection has an error once it is closed.
abbrev pub HasError : Option CloseError → Type 0
HasError none = ⊥
HasError (some e) = Unit

-- Each live client has a channel of its own, and no channel has more than `queue_size` packets.
pub record IsConn (c : QueuePacketConn) : Type 0 where
  pub clients_well : IsClientMap c.clients
  pub made :
      (x : ℕ) (r : ClientRecord) → view c.clients x ≡ some r → r.send_queue < c.clients.next_queue
  pub own :
      (x y : ℕ) (r s : ClientRecord)
      → view c.clients x ≡ some r
      → view c.clients y ≡ some s
      → r.send_queue ≡ s.send_queue
      → x ≡ y
  pub fresh : (q : ℕ) → c.clients.next_queue ≤ q → contents q c.channels ≡ []
  pub bounded : (q : ℕ) → length (contents q c.channels) ≤ queue_size
  pub received : length c.recv_queue ≤ queue_size
  pub reason : c.closed ≡ true → HasError c.close_err

abbrev pub outgoing_by : Option ClientRecord → List (ℕ × List (List ℕ)) → List (List ℕ)
outgoing_by none channels = []
outgoing_by (some r) channels = contents r.send_queue channels

-- The packets that wait for a client.
abbrev pub outgoing : ℕ → QueuePacketConn → List (List ℕ)
outgoing addr c = outgoing_by (view c.clients addr) c.channels

pub length-offer {ℓ} :
    {A : Type ℓ} (x : A) (xs : List A) → length xs ≤ queue_size → length (offer x xs) ≤ queue_size
unfolding offer
length-offer x xs h = ground (arith, length-append xs (x ∷ []))

pub contents-insert :
    (q j : ℕ) (xs : List (List ℕ)) (channels : List (ℕ × List (List ℕ)))
    → contents j (insert q xs channels) ≡ (if j == q then xs else contents j channels)
contents-insert q j xs channels = elim (ℕ-cases j q) [
  | inl e ↦
      let test : (j == q) ≡ true = ground arith in rw (lookup-insert_if q j xs channels, test) refl
  | inr e ↦
      let test : (j == q) ≡ false = ground arith in rw (lookup-insert_if q j xs channels, test) refl
]

-- A call that returned found the connection open.
pub open-ok {ℓ} :
    {A : Type ℓ} (b : Bool) (op : Op) (e : Option CloseError) (x y : A)
    → (if b then op_error op e else ok x) ≡ ok y
    → (b ≡ false) × (x ≡ y)
open-ok false op e x y h = (refl, ok-injective h)
open-ok true op none x y h = cc
open-ok true op (some e) x y h = cc
