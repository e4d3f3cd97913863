-- ===== src/Bus.antt =====
-- message_bus.hpp and .cpp, `MessageBus`: one worker's outboxes, inbox and transport.
-- A call under one lock is one step; the partition map and the clock are arguments.
pub mod Routing
pub mod Flush
pub mod Loss
pub mod Own
pub mod Barrier
use pregel.Common.{
  ℕ, suc, zero, ◌+◌, ◌==◌, List, [], ◌∷◌, ◌++◌, Bool, true, false, ltb, if◌then◌else◌, length,
  get_or, set, replicate, Option, none, some,
}
use pregel.Types.{Message, u64}
use pregel.Partition.{PartitionMap, owner_of}
use pregel.Rdma.Transport.{RdmaTransport, new_transport, send_batch, receive_all, run_pairs}

pub record MessageBus : Type 0 where
  pub local_id : ℕ
  pub worker_count : ℕ
  pub use_rdma : Bool
  pub transport : Option RdmaTransport
  pub outboxes : List (List Message)
  pub inbox : List Message
  pub msgs_sent : ℕ
  pub msgs_received : ℕ

unfoldable pub new_bus : ℕ → ℕ → Bool → MessageBus
new_bus local workers use_rdma = record {
  local_id = local;
  worker_count = workers;
  use_rdma = use_rdma;
  transport = if use_rdma then some (new_transport local workers) else none;
  outboxes = replicate workers [];
  inbox = [];
  msgs_sent = 0;
  msgs_received = 0;
}

-- `outboxes_[w].push_back(m)`; `none` is the write behind the end of `outboxes_`, which C++ leaves
-- undefined.
unfoldable pub push_outbox : ℕ → Message → MessageBus → Option MessageBus
push_outbox w m b =
    if ltb w (length b.outboxes)
    then some (record b { outboxes = set b.outboxes w (get_or b.outboxes w [] ++ m ∷ []) })
    else none

unfoldable pub enqueue : PartitionMap → Message → MessageBus → Option MessageBus
unfolding push_outbox
enqueue p m b = push_outbox (owner_of p m.dst) m b

unfoldable pub enqueue_batch : PartitionMap → List Message → MessageBus → Option MessageBus
enqueue_batch p [] b = some b
enqueue_batch p (m ∷ ms) b = elim (enqueue p m b) [ none ↦ none | some b' ↦ enqueue_batch p ms b' ]

-- The branch of `flush` for a box that is not empty.
unfoldable pub route_box : ℕ → List Message → ℕ → MessageBus → MessageBus
route_box w box now b =
    if w == b.local_id
    then record b { inbox = b.inbox ++ box }
    else if b.use_rdma
    then elim b.transport [
      | none ↦ b
      | some t ↦ record b { transport = some (send_batch w box now t).0 }
    ]
    else b

unfoldable pub flush_box : ℕ → List Message → ℕ → MessageBus → MessageBus
flush_box w [] now b = b
flush_box w (m ∷ ms) now b =
    route_box w (m ∷ ms) now (record b { msgs_sent = u64 (b.msgs_sent + length (m ∷ ms)) })

-- The loop of `flush` over the boxes of the workers `w`, `w + 1`, …
unfoldable pub flush_boxes : ℕ → List (List Message) → ℕ → MessageBus → MessageBus
flush_boxes w [] now b = b
flush_boxes w (box ∷ boxes) now b = flush_boxes (suc w) boxes now (flush_box w box now b)

unfoldable pub flush : ℕ → MessageBus → MessageBus
flush now b = flush_boxes 0 b.outboxes now (record b { outboxes = replicate b.worker_count [] })

-- The first part of `drain_inbox`: what the transport has received.
unfoldable pub fetch_remote : MessageBus → MessageBus
fetch_remote b =
    if b.use_rdma
    then elim b.transport [
      | none ↦ b
      | some t ↦ record b {
        transport = some (receive_all t).0;
        inbox = b.inbox ++ (receive_all t).1;
      }
    ]
    else b

unfoldable pub take_inbox : MessageBus → MessageBus × List Message
take_inbox b =
    (record b { inbox = []; msgs_received = u64 (b.msgs_received + length b.inbox) }, b.inbox)

unfoldable pub drain_inbox : MessageBus → MessageBus × List Message
drain_inbox b = take_inbox (fetch_remote b)

-- The network threads of the transport, in the time between two supersteps.
unfoldable pub network : (ℕ → ℕ × ℕ) → MessageBus → MessageBus
network rounds b = record b {
  transport = elim b.transport [
    | none ↦ none
    | some t ↦ some (record t { qps = run_pairs rounds 0 t.qps })
  ];
}
