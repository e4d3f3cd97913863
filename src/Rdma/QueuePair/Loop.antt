-- ===== src/Rdma/QueuePair/Loop.antt =====
-- What posting and an undisturbed run of the network thread's loop do to a queue pair.
use pregel.Common.{
  ℕ, ◌+◌, ◌-◌, ◌^◌, ◌≤◌, ◌≡◌, refl, ap, ◌∙◌, List, [], ◌∷◌, ◌++◌, true, length, map, append_assoc,
  append-nil, arith, All,
}
use pregel.Types.{Message, sizeof_message, u64}
use pregel.Rdma.QueuePair.{
  QueuePair, PendingWrite, RdmaCompletion, waiting, post_push, post_count, post_write, net_step,
  deliver_front, network_rounds, network_loop, memcpy_message, rdma_latency_us,
}

-- A copy of the whole message is the message.
pub memcpy_message-sizeof : (m : Message) → memcpy_message m sizeof_message ≡ m
unfolding memcpy_message
memcpy_message-sizeof m = refl

-- The write that `RdmaTransport::send` posts.
abbrev pub whole : ℕ → ℕ → Message → PendingWrite
whole wr_id now m = record { wr_id = wr_id; msg = m; deliver_at = now + rdma_latency_us }

pub post_write-whole :
    (m : Message) (wr_id now : ℕ) (q : QueuePair)
    → post_write m sizeof_message wr_id now q ≡ (
      record q {
        in_flight = q.in_flight ++ whole wr_id now m ∷ [];
        pending_wr = u64 (q.pending_wr + 1);
      },
      true,
    )
unfolding post_write post_push post_count memcpy_message
post_write-whole m wr_id now q = refl

abbrev pub AllDue : ℕ → List PendingWrite → Type 0
AllDue now = All (λ w. w.deliver_at ≤ now)

abbrev pub completion_of : PendingWrite → RdmaCompletion
completion_of w = record { wr_id = w.wr_id; bytes = sizeof_message; success = true }

-- The queue pair after its network thread has delivered the writes `ws`, with `rest` left.
abbrev delivered : QueuePair → List PendingWrite → ℕ → QueuePair
delivered q ws n = record q {
  in_flight = [];
  net = waiting;
  inbox = q.inbox ++ map (λ w. w.msg) ws;
  cq = q.cq ++ map completion_of ws;
  pending_wr = n;
}

abbrev landed : QueuePair → PendingWrite → List PendingWrite → QueuePair
landed q w ws = record q {
  in_flight = ws;
  net = waiting;
  inbox = q.inbox ++ w.msg ∷ [];
  cq = q.cq ++ completion_of w ∷ [];
  pending_wr = u64 (q.pending_wr + (2 ^ 64 - 1));
}

deliver_front_due :
    (now : ℕ) (q : QueuePair) (w : PendingWrite) (ws : List PendingWrite)
    → q.net ≡ waiting
    → q.in_flight ≡ w ∷ ws
    → w.deliver_at ≤ now
    → deliver_front now q ≡ landed q w ws
unfolding deliver_front net_step
deliver_front_due now q w ws e f h = ground arith

-- A loop over writes that are all due empties the wire into the inbox, in order, one completion each.
network_rounds_due :
    (now : ℕ) (q : QueuePair) (ws : List PendingWrite)
    → q.net ≡ waiting
    → q.in_flight ≡ ws
    → AllDue now ws
    → (n : ℕ) × (network_rounds (length ws) now q ≡ delivered q ws n)
unfolding network_rounds
network_rounds_due now q [] e f h =
    (q.pending_wr, ground (arith, append-nil q.inbox, append-nil q.cq))
network_rounds_due now q (w ∷ ws) e f h =
    let (n, r) = network_rounds_due now (landed q w ws) ws refl refl h.1 in
    (
      n,
      ap (network_rounds (length ws) now) (deliver_front_due now q w ws e f h.0)
          ∙ (r
              ∙ ground (
                arith,
                append_assoc q.inbox (w.msg ∷ []) (map (λ u. u.msg) ws),
                append_assoc q.cq (completion_of w ∷ []) (map completion_of ws),
              )),
    )

pub network_loop_due :
    (now : ℕ) (q : QueuePair)
    → q.net ≡ waiting
    → AllDue now q.in_flight
    → (n : ℕ) × (network_loop now q ≡ delivered q q.in_flight n)
unfolding network_loop
network_loop_due now q e h = network_rounds_due now q q.in_flight e refl h

pub network_loop_empty : (now : ℕ) (q : QueuePair) → q.in_flight ≡ [] → network_loop now q ≡ q
unfolding network_loop network_rounds
network_loop_empty now q e = rw (e, network_loop)
