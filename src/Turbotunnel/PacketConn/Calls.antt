-- ===== src/Turbotunnel/PacketConn/Calls.antt =====
-- queuepacketconn.go: what each call of a packet connection does to the packets of each address.
use ptbridge.Base.{
  ℕ, ◌≤◌, ◌<◌, ◌≡◌, refl, sym, ap, ◌∙◌, ◌≢◌, inl, inr, true, false, Option, none, some, List, [],
  ◌∷◌, arith, ◌==◌, if◌then◌else◌, ℕ-cases, Option-cases, length, ok, ◌>>=◌, Returns, returns,
  Returns-bind, Returns-if, insert,
}
use ptbridge.Turbotunnel.ClientMap.{ClientRecord, remove_expired}
use ptbridge.Turbotunnel.ClientMap.Views.{view}
use ptbridge.Turbotunnel.ClientMap.Expiry.{live, remove_expired-IsExpired}
use ptbridge.Turbotunnel.PacketConn.{
  queue_size, QueuePacketConn, offer, contents, run, outgoing_queue, write_to, expire, receive_by,
  receive,
}
use ptbridge.Turbotunnel.PacketConn.Queues.{
  IsConn, outgoing_by, outgoing, length-offer, contents-insert,
}
use ptbridge.Turbotunnel.PacketConn.Sent.{Returns-run, outgoing_queue-IsOpened}

-- A channel whose packets change to `xs`.
abbrev pub put : ℕ → List (List ℕ) → QueuePacketConn → QueuePacketConn
put q xs c = record c { channels = insert q xs c.channels }

module _ (q : ℕ) (xs : List (List ℕ)) (c : QueuePacketConn) where
  pub put-IsConn :
      IsConn c → q < c.clients.next_queue → length xs ≤ queue_size → IsConn (put q xs c)
  put-IsConn well known small = record {
    clients_well = well.clients_well;
    made = well.made;
    own = well.own;
    fresh = λ k h.
        let test : (k == q) ≡ false = ground arith in
        rw (contents-insert q k xs c.channels, test) (well.fresh k h);
    bounded = λ k. elim (ℕ-cases k q) [
      | inl e ↦
          let test : (k == q) ≡ true = ground arith in
          rw (contents-insert q k xs c.channels, test) small
      | inr e ↦
          let test : (k == q) ≡ false = ground arith in
          rw (contents-insert q k xs c.channels, test) (well.bounded k)
    ];
    received = well.received;
    reason = well.reason;
  }

  -- Only the client of the channel has other packets.
  outgoing-put :
      (addr x : ℕ) (r : ClientRecord)
      → IsConn c
      → view c.clients addr ≡ some r
      → r.send_queue ≡ q
      → outgoing x (put q xs c) ≡ (if x == addr then xs else outgoing x c)
  outgoing-put addr x r well seen is = elim (ℕ-cases x addr) [
    | inl e ↦
        let test : (x == addr) ≡ true = ground arith in
        let test' : (q == q) ≡ true = ground arith in
        let here : view c.clients x ≡ some r = ap (view c.clients) e ∙ seen in
        rw (test, here, is, contents-insert q q xs c.channels, test') refl
    | inr e ↦
        let test : (x == addr) ≡ false = ground arith in
        rw test (elim (Option-cases (view c.clients x)) [
          | inl missing ↦ rw missing refl
          | inr (s, found) ↦
              let other : s.send_queue ≢ q =
                λ same. e (well.own x addr s r found seen (same ∙ sym is)) in
              let test' : (s.send_queue == q) ≡ false = ground arith in
              rw (found, contents-insert q s.send_queue xs c.channels, test') refl
        ])
  ]

-- The call returns, with the connection well-formed and the packets of each address as `out` has them.
pub record Leaves (out : ℕ → List (List ℕ)) (c' : QueuePacketConn) : Type 0 where
  pub well : IsConn c'
  pub outgoings : (x : ℕ) → outgoing x c' ≡ out x

-- WriteTo on a well-formed open connection returns the packet's length and leaves it well-formed. The packet is
-- then the last of its client's, or is dropped when there are 32 of them, and the packets of the other clients are
-- as they were.
pub write_to-Leaves :
    (p : List ℕ) (addr now : ℕ) (c : QueuePacketConn)
    → IsConn c
    → c.closed ≡ false
    → Returns
        (λ r.
          (r.0 ≡ length p)
          × Leaves (λ x. if x == addr then offer p (outgoing addr c) else outgoing x c) r.1)
        (write_to p addr now c)
unfolding write_to
write_to-Leaves p addr now c well is_open =
    Returns-if c.closed _ _ (λ shut. absurd (ground arith))
      (λ e.
        Returns-bind (outgoing_queue addr now c) _ (outgoing_queue-IsOpened addr now c well)
          (λ (q, c') opened.
            let xs = offer p (contents q c'.channels) in
            let small = length-offer p (contents q c'.channels) (opened.well.bounded q) in
            returns (
              refl,
              record {
                well = put-IsConn q xs c' opened.well opened.known small;
                outgoings = λ x.
                    outgoing-put q xs c' addr x _ opened.well opened.there refl
                    ∙ ap (λ ys. if x == addr then offer p ys else outgoing x c') opened.packets
                    ∙ ap (λ ys. if x == addr then offer p (outgoing addr c) else ys)
                        (opened.outgoings x);
              },
            )))

-- What a receiver takes from the channel of a client.
pub receive-Leaves :
    (addr : ℕ) (r : ClientRecord) (p : List ℕ) (rest : List (List ℕ)) (c : QueuePacketConn)
    → IsConn c
    → view c.clients addr ≡ some r
    → outgoing addr c ≡ p ∷ rest
    → (c' : QueuePacketConn) × (receive r.send_queue c ≡ some (p, c'))
      × Leaves (λ x. if x == addr then rest else outgoing x c) c'
unfolding receive
receive-Leaves addr r p rest c well seen waits =
    let q = r.send_queue in
    let here : contents q c.channels ≡ p ∷ rest =
      sym (ap (λ o. outgoing_by o c.channels) seen) ∙ waits in
    (
      put q rest c,
      ap (receive_by q c) here,
      record {
        well =
            put-IsConn q rest c well (well.made addr r seen)
              (omega (arith, well.bounded q, ap length here));
        outgoings = λ x. outgoing-put q rest c addr x r well seen refl;
      },
    )

-- What the goroutine of the client map leaves of a connection.
pub expire-Leaves :
    (now timeout : ℕ) (c : QueuePacketConn)
    → IsConn c
    → Returns
        (Leaves (λ x. outgoing_by (live now timeout (view c.clients x)) c.channels))
        (expire now timeout c)
unfolding expire
expire-Leaves now timeout c well =
    Returns-bind (run (remove_expired now timeout c.clients)) _
      (Returns-run _ (remove_expired-IsExpired now timeout c.clients well.clients_well))
      (λ clients' left.
        let kept : (x : ℕ) (r : ClientRecord)
            → view clients' x ≡ some r
            → view c.clients x ≡ some r =
          λ x r h. live-some now timeout (view c.clients x) r (sym (left.views x) ∙ h) in
        returns (record {
          well = record {
            clients_well = left.well;
            made = λ x r h. omega (arith, well.made x r (kept x r h), left.queues);
            own = λ x y r s hx hy same. well.own x y r s (kept x r hx) (kept y s hy) same;
            fresh = λ q h. well.fresh q (omega (arith, left.queues));
            bounded = well.bounded;
            received = well.received;
            reason = well.reason;
          };
          outgoings = λ x. ap (λ o. outgoing_by o c.channels) (left.views x);
        }))
  where
    live-some :
        (now timeout : ℕ) (o : Option ClientRecord) (r : ClientRecord)
        → live now timeout o ≡ some r
        → o ≡ some r
    live-some now timeout none r h = h
    live-some now timeout (some s) r h = ground arith

drained :
    (addr x : ℕ) (o : ℕ → List (List ℕ)) (w y : List (List ℕ))
    → o addr ≡ []
    → y ≡ (if x == addr then w else o x)
    → (if x == addr then [] else y) ≡ o x
drained addr x o w y empty is = elim (ℕ-cases x addr) [
  | inl e ↦ let test : (x == addr) ≡ true = ground arith in rw (test, e) (sym empty)
  | inr e ↦
      let test : (x == addr) ≡ false = ground arith in
      let same : y ≡ o x = rw test at is in rw test same
]

-- On a well-formed open connection, where no packet waits for the client, a packet that is written to it is what
-- its channel gives next, and after that the packets of every client are as before.
pub write_to-receive :
    (p : List ℕ) (addr now now' : ℕ) (c : QueuePacketConn)
    → IsConn c
    → c.closed ≡ false
    → outgoing addr c ≡ []
    → Returns
        (λ o. (c' : QueuePacketConn) × (o ≡ some (p, c')) × Leaves (λ x. outgoing x c) c')
        (write_to p addr now c >>= λ r. outgoing_queue addr now' r.1 >>= λ s. ok (receive s.0 s.1))
write_to-receive p addr now now' c well is_open empty =
    Returns-bind (write_to p addr now c) _ (write_to-Leaves p addr now c well is_open)
      (λ (n, c1) (same, left).
        Returns-bind (outgoing_queue addr now' c1) _
          (outgoing_queue-IsOpened addr now' c1 left.well)
          (λ (q, c2) opened.
            let test : (addr == addr) ≡ true = ground arith in
            let one : outgoing addr c2 ≡ p ∷ [] =
              opened.outgoings addr
              ∙ left.outgoings addr
              ∙ ap (λ b. if b then offer p (outgoing addr c) else outgoing addr c) test
              ∙ ap (offer p) empty
              ∙ unfold offer in refl in
            let (c', got, after) = receive-Leaves addr _ p [] c2 opened.well opened.there one in
            returns (
              c',
              got,
              record {
                well = after.well;
                outgoings = λ x.
                    after.outgoings x
                    ∙ drained addr x (λ y. outgoing y c) _ _ empty
                        (opened.outgoings x ∙ left.outgoings x);
              },
            )))
