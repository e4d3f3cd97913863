-- ===== src/Rdma/Transport/Receive.antt =====
-- What `RdmaTransport::receive_all` returns after the same transport has sent.
use pregel.Common.{
  ℕ, suc, zero, ◌+◌, ◌≡◌, ◌<◌, ◌≤◌, ◌≢◌, refl, List, [], ◌∷◌, ◌++◌, length, get_or, set, Option,
  none, some, arith, append-nil, map, ap, ap₂, subst, ◌∙◌, ◌^◌, All,
}
use native.Mathlib.Nat.{zero-add}
use pregel.Types.{Message, u64}
use pregel.Rdma.QueuePair.{QueuePair, waiting, drain_received, network_loop, rdma_latency_us}
use pregel.Rdma.QueuePair.Loop.{AllDue, network_loop_due, network_loop_empty}
use pregel.Rdma.Transport.{
  RdmaTransport, pair_to, send_batch, drain_pairs, run_networks, deliver, receive_all,
}
use pregel.Rdma.Transport.Batch.{
  writes, queued, Sent, send_batch-Sends, pair_to-remote, pair_to-slot, pair_to-lt,
}

-- A queue pair at rest: nothing on the wire, in the thread's hands or in the inbox.
abbrev pub IsIdle : Option QueuePair → Type 0
IsIdle none = Unit
IsIdle (some q) = (q.net ≡ waiting) × (q.in_flight ≡ []) × (q.inbox ≡ [])

drain_idle :
    (local i later : ℕ) (qs : List (Option QueuePair))
    → All IsIdle qs
    → (drain_pairs local i (run_networks later qs)).1 ≡ []
unfolding drain_pairs run_networks drain_received
drain_idle local i later [] h = refl
drain_idle local i later (none ∷ qs) h = drain_idle local (suc i) later qs h.1
drain_idle local i later (some q ∷ qs) h =
    ground (arith, network_loop_empty later q, drain_idle local (suc i) later qs h.1)

drain_one :
    (local i later d : ℕ) (qs : List (Option QueuePair)) (q : QueuePair)
    → All IsIdle qs
    → d < length qs
    → i + d ≢ local
    → (drain_pairs local i (run_networks later (set qs d (some q)))).1
      ≡ (network_loop later q).inbox
unfolding drain_pairs run_networks drain_received
drain_one local i later d [] q h l n = elim l [ ]
drain_one local i later zero (p ∷ qs) q h l n =
    ground (arith, drain_idle local (suc i) later qs h.1, append-nil (network_loop later q).inbox)
drain_one local i later (suc d) (none ∷ qs) q h l n =
    drain_one local (suc i) later d qs q h.1 (omega arith) (omega arith)
drain_one local i later (suc d) (some p ∷ qs) q h l n = ground (
  arith,
  network_loop_empty later p,
  drain_one local (suc i) later d qs q h.1 (omega arith) (omega arith),
)

pub writes-msg : (id now : ℕ) (ms : List Message) → map (λ w. w.msg) (writes id now ms) ≡ ms
writes-msg id now [] = refl
writes-msg id now (m ∷ ms) = ap (◌∷◌ m) (writes-msg (u64 (id + 1)) now ms)

writes-AllDue :
    (id now later : ℕ) (ms : List Message)
    → now + rdma_latency_us ≤ later
    → AllDue later (writes id now ms)
writes-AllDue id now later [] h = tt
writes-AllDue id now later (m ∷ ms) h = (h, writes-AllDue (u64 (id + 1)) now later ms h)

All-slot :
    (qs : List (Option QueuePair)) (i : ℕ) (q : QueuePair)
    → All IsIdle qs
    → get_or qs i none ≡ some q
    → IsIdle (some q)
All-slot [] i q h e = cc
All-slot (p ∷ qs) zero q h e = subst IsIdle e h.0
All-slot (p ∷ qs) (suc i) q h e = All-slot qs i q h.1 e

loop_inbox :
    (later id now n : ℕ) (q : QueuePair) (ms : List Message)
    → IsIdle (some q)
    → now + rdma_latency_us ≤ later
    → (network_loop later (queued q (writes id now ms) n)).inbox ≡ ms
loop_inbox later id now n q ms h t =
    ap (λ p. p.inbox) (network_loop_due later (queued q (writes id now ms) n) h.0 due).1
    ∙ rw (h.2, h.1) (writes-msg id now ms)
  where
    due : AllDue later (q.in_flight ++ writes id now ms)
    due = rw h.1 (writes-AllDue id now later ms t)

-- What a worker sends to another worker comes back to itself: from a transport at rest, a batch to
-- any other worker, once the wire has delivered it, is what the same transport's next
-- `receive_all` returns.
pub batch_returns_to_sender :
    (t : RdmaTransport) (q : QueuePair) (dst : ℕ) (ms : List Message) (now later : ℕ)
    → pair_to t dst ≡ some q
    → t.rdma_ops < 2 ^ 64
    → t.bytes_sent < 2 ^ 64
    → All IsIdle t.qps
    → now + rdma_latency_us ≤ later
    → (receive_all (deliver later (send_batch dst ms now t).0)).1 ≡ ms
unfolding receive_all deliver
batch_returns_to_sender t q dst ms now later e a b idle due =
    ap₂ (λ l qs. (drain_pairs l 0 (run_networks later qs)).1) sent.same_local sent.slots
    ∙ drain_one t.local_id 0 later dst t.qps _ idle (pair_to-lt t q dst e) remote
    ∙ loop_inbox later t.rdma_ops now sent.count q ms
        (All-slot t.qps dst q idle (pair_to-slot t q dst e)) due
  where
    sent : Sent t q dst ms now (send_batch dst ms now t).0
    sent = (send_batch-Sends t q dst ms now e a b).1

    remote : 0 + dst ≢ t.local_id
    remote = rw zero-add (pair_to-remote t q dst e)
