-- ===== src/Turbotunnel/ClientMap/Calls.antt =====
-- clientmap.go: SendQueue, whatever the order of the heap.
use ptbridge.Base.{
  ℕ, ◌+◌, ◌≡◌, refl, sym, ap, ◌∙◌, inl, inr, Option, none, some, ◌==◌, if◌then◌else◌, Option-cases,
  Returns, returns, Returns-bind, lookup,
}
use ptbridge.Turbotunnel.ClientMap.{
  ClientRecord, ClientMapInner, heap_push, heap_fix, touch, send_queue,
}
use ptbridge.Turbotunnel.ClientMap.Views.{record_at, view}
use ptbridge.Turbotunnel.ClientMap.Ops.{IsClientMap, heap_push-Makes, heap_fix-Makes}

-- The channel that SendQueue gives for what it finds.
abbrev pub queue_of : ℕ → Option ClientRecord → ℕ
queue_of q none = q
queue_of q (some r) = r.send_queue

abbrev pub next_of : ℕ → Option ClientRecord → ℕ
next_of q none = q + 1
next_of q (some r) = q

-- The client has the channel `q` from now on, and the others are as before.
pub record IsSent (addr now : ℕ) (inner : ClientMapInner) (p : ℕ × ClientMapInner) : Type 0 where
  pub well : IsClientMap p.1
  pub queue : p.0 ≡ queue_of inner.next_queue (view inner addr)
  pub next : (p.1).next_queue ≡ next_of inner.next_queue (view inner addr)
  pub views :
      (x : ℕ)
      → view p.1 x ≡ (
          if x == addr
          then some (record { addr = addr; last_seen = now; send_queue = p.0 })
          else view inner x)

numbered-IsClientMap :
    (inner : ClientMapInner) (q : ℕ)
    → IsClientMap inner
    → IsClientMap (record inner { next_queue = q })
numbered-IsClientMap inner q well = record {
  indexed = record {
    to_index = well.indexed.to_index;
    to_record = well.indexed.to_record;
    same_length = well.indexed.same_length;
    unique = well.indexed.unique;
  };
  heap = well.heap;
}

-- On a client map whose index and heap are in order, SendQueue returns and leaves them in order. The channel is
-- the client's, or one with the next number if it had none; the client's record then has this channel and the time
-- of the call, and every other address has the record that it had.
pub send_queue-IsSent :
    (addr now : ℕ) (inner : ClientMapInner)
    → IsClientMap inner
    → Returns (IsSent addr now inner) (send_queue addr now inner)
unfolding send_queue
send_queue-IsSent addr now inner well = elim (Option-cases (lookup addr inner.by_addr)) [
  | inl e ↦
      let r : ClientRecord = record {
        addr = addr;
        last_seen = now;
        send_queue = inner.next_queue;
      } in
      let before : ClientMapInner = record inner { next_queue = inner.next_queue + 1 } in
      let missing : view inner addr ≡ none = ap (record_at inner.by_age) e in
      rw e (
        Returns-bind (heap_push r before) _
          (heap_push-Makes before (numbered-IsClientMap inner _ well) r e)
          (λ pushed made. returns (record {
            well = made.well;
            queue = sym (ap (queue_of inner.next_queue) missing);
            next = made.queues ∙ sym (ap (next_of inner.next_queue) missing);
            views = made.views;
          })))
  | inr (i, e) ↦
      let (r, at, own) = well.indexed.to_record addr i e in
      let r' : ClientRecord = record r { last_seen = now } in
      let found : view inner addr ≡ some r = ap (record_at inner.by_age) e ∙ at in
      rw (e, at)
        (Returns-bind (heap_fix i (touch i now r inner)) _
          (heap_fix-Makes inner well i r r' at refl)
          (λ fixed made. returns (record {
            well = made.well;
            queue = sym (ap (queue_of inner.next_queue) found);
            next = made.queues ∙ sym (ap (next_of inner.next_queue) found);
            views = λ x.
                made.views x
                ∙ ap
                    (λ a.
                      if x == a
                      then some (record { addr = a; last_seen = now; send_queue = r.send_queue })
                      else view inner x)
                    own;
          })))
]
