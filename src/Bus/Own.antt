-- ===== src/Bus/Own.antt =====
-- `MessageBus::flush` and `MessageBus::drain_inbox`: what a worker sends to itself, with RDMA or without.
use pregel.Common.{
  ℕ, suc, ◌==◌, ◌≡◌, refl, ◌∙◌, sym, ap, List, [], ◌∷◌, ◌++◌, if◌then◌else◌, get_or, replicate,
  arith, append_assoc, append-nil, none, some, Option-cases, inl, inr,
}
use pregel.Types.{Message}
use pregel.Rdma.Transport.{receive_all}
use pregel.Bus.{
  MessageBus, route_box, flush_box, flush_boxes, flush, fetch_remote, take_inbox, drain_inbox,
}
use pregel.Bus.Flush.{share, share_lem}

-- From `b` to `c`: the own share goes to the inbox.
record Kept (mine : List Message) (b c : MessageBus) : Type 0 where
  local : c.local_id ≡ b.local_id
  workers : c.worker_count ≡ b.worker_count
  boxes : c.outboxes ≡ b.outboxes
  inbox : c.inbox ≡ b.inbox ++ mine

flush_box-Kept :
    (w : ℕ) (box : List Message) (now : ℕ) (b : MessageBus)
    → Kept (if w == b.local_id then box else []) b (flush_box w box now b)
unfolding flush_box route_box
flush_box-Kept w [] now b = record {
  local = refl;
  workers = refl;
  boxes = refl;
  inbox = ground (arith, append-nil b.inbox);
}
flush_box-Kept w (m ∷ ms) now b = elim (Option-cases b.transport) [
  | inl e ↦ record {
    local = ground (arith, e);
    workers = ground (arith, e);
    boxes = ground (arith, e);
    inbox = ground (arith, e, append-nil b.inbox);
  }
  | inr (t, e) ↦ record {
    local = ground (arith, e);
    workers = ground (arith, e);
    boxes = ground (arith, e);
    inbox = ground (arith, e, append-nil b.inbox);
  }
]

flush_boxes-Kept :
    (w : ℕ) (boxes : List (List Message)) (now : ℕ) (b : MessageBus)
    → Kept (share w boxes b.local_id) b (flush_boxes w boxes now b)
unfolding flush_boxes
flush_boxes-Kept w [] now b = record {
  local = refl;
  workers = refl;
  boxes = refl;
  inbox = sym (append-nil b.inbox);
}
flush_boxes-Kept w (box ∷ boxes) now b =
    let first = flush_box-Kept w box now b in
    let rest = flush_boxes-Kept (suc w) boxes now (flush_box w box now b) in
    record {
      local = rest.local ∙ first.local;
      workers = rest.workers ∙ first.workers;
      boxes = rest.boxes ∙ first.boxes;
      inbox =
          rest.inbox
          ∙ ap (λ l. l ++ share (suc w) boxes (flush_box w box now b).local_id) first.inbox
          ∙ ap (λ u. (b.inbox ++ (if w == b.local_id then box else [])) ++ share (suc w) boxes u)
              first.local
          ∙ append_assoc b.inbox _ _;
    }

-- What the transport has received for the worker.
abbrev pub remote_mail : MessageBus → List Message
remote_mail b =
    if b.use_rdma then elim b.transport [ none ↦ [] | some t ↦ (receive_all t).1 ] else []

pub drain-inbox : (b : MessageBus) → (drain_inbox b).1 ≡ b.inbox ++ remote_mail b
unfolding drain_inbox fetch_remote take_inbox
drain-inbox b = elim (Option-cases b.transport) [
  | inl e ↦ ground (arith, e, append-nil b.inbox)
  | inr (t, e) ↦ ground (arith, e, append-nil b.inbox)
]

pub drain-outboxes : (b : MessageBus) → (drain_inbox b).0.outboxes ≡ b.outboxes
unfolding drain_inbox fetch_remote take_inbox
drain-outboxes b = elim (Option-cases b.transport) [
  | inl e ↦ ground (arith, e)
  | inr (t, e) ↦ ground (arith, e)
]

pub drain-keeps :
    (b : MessageBus)
    → ((drain_inbox b).0.inbox ≡ [])
      × ((drain_inbox b).0.local_id ≡ b.local_id)
      × ((drain_inbox b).0.worker_count ≡ b.worker_count)
unfolding drain_inbox fetch_remote take_inbox
drain-keeps b = elim (Option-cases b.transport) [
  | inl e ↦ (ground (arith, e), ground (arith, e), ground (arith, e))
  | inr (t, e) ↦ (ground (arith, e), ground (arith, e), ground (arith, e))
]

pub flush-keeps :
    (now : ℕ) (b : MessageBus)
    → let c = flush now b in
      (c.inbox ≡ b.inbox ++ get_or b.outboxes b.local_id [])
      × (c.local_id ≡ b.local_id)
      × (c.worker_count ≡ b.worker_count)
      × (c.outboxes ≡ replicate b.worker_count [])
unfolding flush
flush-keeps now b =
    let d =
      flush_boxes-Kept 0 b.outboxes now (record b { outboxes = replicate b.worker_count [] }) in
    (d.inbox ∙ ap (◌++◌ b.inbox) (share_lem b.outboxes b.local_id), d.local, d.workers, d.boxes)
