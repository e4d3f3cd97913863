-- ===== src/Bus/Loss.antt =====
-- `MessageBus::flush` with the RDMA transport disabled: the outboxes of the other workers are dropped.
use pregel.Common.{
  ℕ, suc, ◌==◌, ◌≡◌, refl, ◌∙◌, sym, ap, List, [], ◌∷◌, ◌++◌, false, if◌then◌else◌, get_or,
  replicate, arith, append_assoc, append-nil,
}
use pregel.Types.{Message}
use pregel.Bus.{
  MessageBus, route_box, flush_box, flush_boxes, flush, fetch_remote, take_inbox, drain_inbox,
}
use pregel.Bus.Flush.{share, share_lem}

-- From `b` to `c` without a transport: the own share goes to the inbox, and nothing else is kept.
record Dropped (mine : List Message) (b c : MessageBus) : Type 0 where
  local : c.local_id ≡ b.local_id
  rdma : c.use_rdma ≡ false
  link : c.transport ≡ b.transport
  boxes : c.outboxes ≡ b.outboxes
  inbox : c.inbox ≡ b.inbox ++ mine

flush_box-Dropped :
    (w : ℕ) (box : List Message) (now : ℕ) (b : MessageBus)
    → b.use_rdma ≡ false
    → Dropped (if w == b.local_id then box else []) b (flush_box w box now b)
unfolding flush_box route_box
flush_box-Dropped w [] now b h = record {
  local = refl;
  rdma = h;
  link = refl;
  boxes = refl;
  inbox = ground (arith, append-nil b.inbox);
}
flush_box-Dropped w (m ∷ ms) now b h = record {
  local = ground arith;
  rdma = ground arith;
  link = ground arith;
  boxes = ground arith;
  inbox = ground (arith, append-nil b.inbox);
}

flush_boxes-Dropped :
    (w : ℕ) (boxes : List (List Message)) (now : ℕ) (b : MessageBus)
    → b.use_rdma ≡ false
    → Dropped (share w boxes b.local_id) b (flush_boxes w boxes now b)
unfolding flush_boxes
flush_boxes-Dropped w [] now b h = record {
  local = refl;
  rdma = h;
  link = refl;
  boxes = refl;
  inbox = sym (append-nil b.inbox);
}
flush_boxes-Dropped w (box ∷ boxes) now b h =
    let first = flush_box-Dropped w box now b h in
    let rest = flush_boxes-Dropped (suc w) boxes now (flush_box w box now b) first.rdma in
    record {
      local = rest.local ∙ first.local;
      rdma = rest.rdma;
      link = rest.link ∙ first.link;
      boxes = rest.boxes ∙ first.boxes;
      inbox =
          rest.inbox
          ∙ ap (λ l. l ++ share (suc w) boxes (flush_box w box now b).local_id) first.inbox
          ∙ ap (λ u. (b.inbox ++ (if w == b.local_id then box else [])) ++ share (suc w) boxes u)
              first.local
          ∙ append_assoc b.inbox _ _;
    }

-- With the RDMA simulation off, a flush followed by a drain hands over what was in the inbox and the
-- worker's own outbox, and nothing else is left anywhere: the outboxes are empty and the transport is
-- as it was, so the messages for the other workers are lost.
pub flush_without_rdma :
    (now : ℕ) (b : MessageBus)
    → b.use_rdma ≡ false
    → let c = flush now b in
      ((drain_inbox c).1 ≡ b.inbox ++ get_or b.outboxes b.local_id [])
      × (c.outboxes ≡ replicate b.worker_count [])
      × (c.transport ≡ b.transport)
unfolding flush drain_inbox fetch_remote take_inbox
flush_without_rdma now b h =
    let d =
      flush_boxes-Dropped 0 b.outboxes now (record b { outboxes = replicate b.worker_count [] })
        h in
    (rw d.rdma (d.inbox ∙ ap (◌++◌ b.inbox) (share_lem b.outboxes b.local_id)), d.boxes, d.link)
