-- ===== src/Rdma/Transport.antt =====
-- rdma_transport.hpp and .cpp, `RdmaTransport`: one worker's queue pairs, one to each other worker.
pub mod Batch
pub mod Receive
pub mod Wires
pub mod New
use pregel.Common.{
  ℕ, suc, zero, ◌+◌, ◌*◌, ◌==◌, List, [], ◌∷◌, ◌++◌, Bool, true, false, ltb, leb, if◌then◌else◌,
  ◌&&◌, ◌||◌, length, get_or, set, Option, none, some,
}
use pregel.Types.{Message, sizeof_message, u64}
use pregel.Rdma.QueuePair.{
  QueuePair, new_pair, post_write, drain_received, poll_cq, network_rounds, network_loop,
}

-- A slot of `qps_` is a null pointer for the worker itself.
pub record RdmaTransport : Type 0 where
  pub local_id : ℕ
  pub worker_count : ℕ
  pub qps : List (Option QueuePair)
  pub bytes_sent : ℕ
  pub rdma_ops : ℕ

-- The slots for the workers `i`, …, `i + n - 1`.
unfoldable pub new_pairs : ℕ → ℕ → ℕ → List (Option QueuePair)
new_pairs local i zero = []
new_pairs local i (suc n) =
    (if i == local then none else some (new_pair local i)) ∷ new_pairs local (suc i) n

unfoldable pub new_transport : ℕ → ℕ → RdmaTransport
unfolding new_pairs
new_transport local workers = record {
  local_id = local;
  worker_count = workers;
  qps = new_pairs local 0 workers;
  bytes_sent = 0;
  rdma_ops = 0;
}

-- The test `dst >= worker_count_ || dst == local_id_ || !qps_[dst]` fails with a queue pair.
unfoldable pub pair_to : RdmaTransport → ℕ → Option QueuePair
pair_to t dst = if leb t.worker_count dst || dst == t.local_id then none else get_or t.qps dst none

-- `send` once the test has passed: the write id is taken, the write posted, the bytes counted.
unfoldable pub send_on : QueuePair → ℕ → Message → ℕ → RdmaTransport → RdmaTransport × Bool
send_on q dst m now t =
    let (q', posted) = post_write m sizeof_message t.rdma_ops now q in
    (
      record t {
        qps = set t.qps dst (some q');
        rdma_ops = u64 (t.rdma_ops + 1);
        bytes_sent = if posted then u64 (t.bytes_sent + sizeof_message) else t.bytes_sent;
      },
      posted,
    )

unfoldable pub send : ℕ → Message → ℕ → RdmaTransport → RdmaTransport × Bool
unfolding pair_to send_on
send dst m now t = elim (pair_to t dst) [ none ↦ (t, false) | some q ↦ send_on q dst m now t ]

-- `for (m : msgs) ok &= send(dst, m)`, with the clock's readings taken as one.
unfoldable pub send_each : ℕ → List Message → ℕ → RdmaTransport × Bool → RdmaTransport × Bool
send_each dst [] now r = r
send_each dst (m ∷ ms) now (t, sent) =
    send_each dst ms now ((send dst m now t).0, sent && (send dst m now t).1)

unfoldable pub send_batch : ℕ → List Message → ℕ → RdmaTransport → RdmaTransport × Bool
unfolding pair_to send_each
send_batch dst ms now t = elim (pair_to t dst) [
  | none ↦ (t, false)
  | some q ↦ send_each dst ms now (t, true)
]

unfoldable pub receive_from : ℕ → RdmaTransport → RdmaTransport × List Message
unfolding pair_to
receive_from src t = elim (pair_to t src) [
  | none ↦ (t, [])
  | some q ↦ (record t { qps = set t.qps src (some (drain_received q).0) }, (drain_received q).1)
]

-- The loop of `receive_all` over the slots from `i` on, with what it gathers.
unfoldable pub drain_pairs :
    ℕ → ℕ → List (Option QueuePair) → List (Option QueuePair) × List Message
drain_pairs local i [] = ([], [])
drain_pairs local i (none ∷ qs) =
    (none ∷ (drain_pairs local (suc i) qs).0, (drain_pairs local (suc i) qs).1)
drain_pairs local i (some q ∷ qs) =
    let (qs', ms) = drain_pairs local (suc i) qs in
    if i == local
    then (some q ∷ qs', ms)
    else (some (drain_received q).0 ∷ qs', (drain_received q).1 ++ ms)

unfoldable pub receive_all : RdmaTransport → RdmaTransport × List Message
unfolding drain_pairs
receive_all t = let (qs, ms) = drain_pairs t.local_id 0 t.qps in (record t { qps = qs }, ms)

unfoldable pub poll_pairs : List (Option QueuePair) → List (Option QueuePair) × ℕ
poll_pairs [] = ([], 0)
poll_pairs (none ∷ qs) = (none ∷ (poll_pairs qs).0, (poll_pairs qs).1)
poll_pairs (some q ∷ qs) =
    let (qs', n) = poll_pairs qs in (some (poll_cq 64 q).0 ∷ qs', length (poll_cq 64 q).1 + n)

unfoldable pub poll_completions : RdmaTransport → RdmaTransport × ℕ
unfolding poll_pairs
poll_completions t = let (qs, n) = poll_pairs t.qps in (record t { qps = qs }, n)

-- Every network thread of the transport runs its loop at time `now`.
unfoldable pub run_networks : ℕ → List (Option QueuePair) → List (Option QueuePair)
run_networks now [] = []
run_networks now (none ∷ qs) = none ∷ run_networks now qs
run_networks now (some q ∷ qs) = some (network_loop now q) ∷ run_networks now qs

unfoldable pub deliver : ℕ → RdmaTransport → RdmaTransport
unfolding run_networks
deliver now t = record t { qps = run_networks now t.qps }

-- What the network threads of the queue pairs for the workers `i`, `i + 1`, … do in some time: each makes some
-- number of rounds of its loop, the reading of the clock by which it finds writes due with it.
unfoldable pub run_pairs : (ℕ → ℕ × ℕ) → ℕ → List (Option QueuePair) → List (Option QueuePair)
run_pairs rounds i [] = []
run_pairs rounds i (none ∷ qs) = none ∷ run_pairs rounds (suc i) qs
run_pairs rounds i (some q ∷ qs) =
    some (network_rounds (rounds i).0 (rounds i).1 q) ∷ run_pairs rounds (suc i) qs
