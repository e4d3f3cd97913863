-- ===== src/Rdma/QueuePair.antt =====
-- rdma_transport.hpp and .cpp, `QueuePair`: one sender's writes to one remote worker, the wire
-- (the network thread), the inbox and the completion queue.
-- Each access under one lock, and each access of an atomic, is one step. Times are microseconds.
-- The byte buffers `send_buf_` and `recv_buf_` and the counter `next_wr_id_` are used by no code.
pub mod Wire
pub mod Loop
use pregel.Common.{
  ℕ, suc, zero, ◌+◌, ◌-◌, ◌%◌, ◌^◌, List, [], ◌∷◌, ◌++◌, Bool, true, false, ltb, leb, if◌then◌else◌,
  min, length, take, drop, map,
}
use pregel.Types.{Message, Payload, MsgType, sizeof_message, u64}

pub record PendingWrite : Type 0 where
  pub wr_id : ℕ
  pub msg : Message
  pub deliver_at : ℕ

pub record RdmaCompletion : Type 0 where
  pub wr_id : ℕ
  pub bytes : ℕ
  pub success : Bool

-- Where the network thread stands in the inner loop of `network_loop`, with the write it holds.
pub data NetPc : Type 0 where
  waiting : NetPc
  popped : PendingWrite → NetPc
  boxed : PendingWrite → NetPc
  completed : NetPc

pub record QueuePair : Type 0 where
  pub local : ℕ
  pub remote : ℕ
  pub in_flight : List PendingWrite
  pub net : NetPc
  pub inbox : List Message
  pub cq : List RdmaCompletion
  pub pending_wr : ℕ

abbrev pub rdma_latency_us : ℕ
rdma_latency_us = 2

abbrev pub new_pair : ℕ → ℕ → QueuePair
new_pair local remote = record {
  local = local;
  remote = remote;
  in_flight = [];
  net = waiting;
  inbox = [];
  cq = [];
  pending_wr = 0;
}

-- The word at byte `at` of a blank message after its first `len` bytes have been written.
abbrev pub copied_word : ℕ → ℕ → ℕ → ℕ
copied_word len at w = if leb 8 (len - at) then w else w % 256 ^ (len - at)

-- `Message msg{}; memcpy(&msg, src, len)`, on a little-endian machine.
unfoldable pub memcpy_message : Message → ℕ → Message
memcpy_message m len = record {
  src = copied_word len 0 m.src;
  dst = copied_word len 8 m.dst;
  type = if ltb 16 len then m.type else MsgType.order_fill;
  step = copied_word len 24 m.step;
  payload = record {
    word0 = copied_word len 32 m.payload.word0;
    word1 = copied_word len 40 m.payload.word1;
    word2 = copied_word len 48 m.payload.word2;
    word3 = copied_word len 56 m.payload.word3;
  };
}

-- `post_write` has two steps: the push under `flight_mu_`, then the count.
unfoldable pub post_push : Message → ℕ → ℕ → ℕ → QueuePair → QueuePair
post_push m len wr_id now q = record q {
  in_flight =
      q.in_flight
      ++ record { wr_id = wr_id; msg = memcpy_message m len; deliver_at = now + rdma_latency_us }
        ∷ [];
}

unfoldable pub post_count : QueuePair → QueuePair
post_count q = record q { pending_wr = u64 (q.pending_wr + 1) }

unfoldable pub post_write : Message → ℕ → ℕ → ℕ → QueuePair → QueuePair × Bool
post_write m len wr_id now q =
    if ltb sizeof_message len then (q, false) else (post_count (post_push m len wr_id now q), true)

-- The front of the wire, taken if its time has come.
unfoldable pub net_pop : ℕ → QueuePair → QueuePair
net_pop now q = elim q.in_flight [
  | [] ↦ q
  | w ∷ rest ↦ if leb w.deliver_at now then record q { in_flight = rest; net = popped w } else q
]

-- One step of the network thread.
unfoldable pub net_step : ℕ → QueuePair → QueuePair
unfolding net_pop
net_step now q = elim q.net [
  | waiting ↦ net_pop now q
  | popped w ↦ record q { inbox = q.inbox ++ w.msg ∷ []; net = boxed w }
  | boxed w ↦ record q {
    cq = q.cq ++ record { wr_id = w.wr_id; bytes = sizeof_message; success = true } ∷ [];
    net = completed;
  }
  | completed ↦ record q { pending_wr = u64 (q.pending_wr + (2 ^ 64 - 1)); net = waiting }
]

-- One round of the inner loop of `network_loop`, undisturbed.
unfoldable pub deliver_front : ℕ → QueuePair → QueuePair
deliver_front now q = net_step now (net_step now (net_step now (net_step now q)))

-- The inner loop: it ends when the wire is empty or its front is not due. Each round that goes on
-- takes one write off the wire, so their number is enough fuel.
unfoldable pub network_rounds : ℕ → ℕ → QueuePair → QueuePair
network_rounds zero now q = q
network_rounds (suc fuel) now q = network_rounds fuel now (deliver_front now q)

unfoldable pub network_loop : ℕ → QueuePair → QueuePair
unfolding network_rounds
network_loop now q = network_rounds (length q.in_flight) now q

unfoldable pub poll_cq : ℕ → QueuePair → QueuePair × List RdmaCompletion
poll_cq max_completions q =
    let n = min (length q.cq) max_completions in (record q { cq = drop n q.cq }, take n q.cq)

-- `flush` spins until this holds.
unfoldable pub flush_done : QueuePair → Bool
flush_done q = leb q.pending_wr 0

unfoldable pub drain_received : QueuePair → QueuePair × List Message
drain_received q = (record q { inbox = [] }, q.inbox)
