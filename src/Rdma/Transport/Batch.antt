-- ===== src/Rdma/Transport/Batch.antt =====
-- What `RdmaTransport::send_batch` posts.
use pregel.Common.{
  ℕ, ◌+◌, ◌*◌, ◌≡◌, ◌<◌, ◌≢◌, refl, List, [], ◌∷◌, ◌++◌, Bool, true, length, get_or, set, none,
  some, arith, get_or-set_self, get_or-ne-lt, set-set, set-get_or, ◌^◌, ap, subst, ◌∙◌, sym,
  append_assoc, append-nil,
}
use pregel.Types.{Message, sizeof_message, u64}
use pregel.Rdma.QueuePair.{QueuePair, PendingWrite}
use pregel.Rdma.QueuePair.Loop.{whole, post_write-whole}
use pregel.Rdma.Transport.{RdmaTransport, pair_to, send_on, send, send_each, send_batch}

-- The writes of a batch: consecutive ids from `id` on, due after the latency.
abbrev pub writes : ℕ → ℕ → List Message → List PendingWrite
writes id now [] = []
writes id now (m ∷ ms) = whole id now m ∷ writes (u64 (id + 1)) now ms

-- The queue pair after it has taken a batch, with the count `n` of outstanding writes.
abbrev pub queued : QueuePair → List PendingWrite → ℕ → QueuePair
queued q ws n = record q { in_flight = q.in_flight ++ ws; pending_wr = n }

-- What a batch of `ms` to `dst` leaves: the writes at the end of that pair's wire.
pub record Sent (t : RdmaTransport) (q : QueuePair) (dst : ℕ) (ms : List Message) (now : ℕ)
    (t' : RdmaTransport) : Type 0 where
  pub same_local : t'.local_id ≡ t.local_id
  pub same_count : t'.worker_count ≡ t.worker_count
  pub count : ℕ
  pub slots : t'.qps ≡ set t.qps dst (some (queued q (writes t.rdma_ops now ms) count))
  pub ids : t'.rdma_ops ≡ u64 (t.rdma_ops + length ms)
  pub bytes : t'.bytes_sent ≡ u64 (t.bytes_sent + sizeof_message * length ms)

abbrev sent_one : RdmaTransport → QueuePair → ℕ → Message → ℕ → RdmaTransport
sent_one t q dst m now = record t {
  qps = set t.qps dst (some (queued q (whole t.rdma_ops now m ∷ []) (u64 (q.pending_wr + 1))));
  rdma_ops = u64 (t.rdma_ops + 1);
  bytes_sent = u64 (t.bytes_sent + sizeof_message);
}

send_queued :
    (t : RdmaTransport) (q : QueuePair) (dst : ℕ) (m : Message) (now : ℕ)
    → pair_to t dst ≡ some q
    → send dst m now t ≡ (sent_one t q dst m now, true)
unfolding send_on send
send_queued t q dst m now e = rw (send, e, post_write-whole m t.rdma_ops now q)

pub pair_to-slot :
    (t : RdmaTransport) (q : QueuePair) (dst : ℕ)
    → pair_to t dst ≡ some q
    → get_or t.qps dst none ≡ some q
unfolding pair_to
pair_to-slot t q dst e = ground arith

pub pair_to-remote :
    (t : RdmaTransport) (q : QueuePair) (dst : ℕ) → pair_to t dst ≡ some q → dst ≢ t.local_id
unfolding pair_to
pair_to-remote t q dst e = ground arith

pub pair_to-lt :
    (t : RdmaTransport) (q : QueuePair) (dst : ℕ) → pair_to t dst ≡ some q → dst < length t.qps
unfolding pair_to
pair_to-lt t q dst e = get_or-ne-lt t.qps dst none (λ h. ground arith)

pair_to-set :
    (t : RdmaTransport) (q q' : QueuePair) (dst n b : ℕ)
    → pair_to t dst ≡ some q
    → pair_to (record t { qps = set t.qps dst (some q'); rdma_ops = n; bytes_sent = b }) dst
      ≡ some q'
unfolding pair_to
pair_to-set t q q' dst n b e =
    ground (arith, get_or-set_self t.qps dst (some q') none (pair_to-lt t q dst e))

abbrev Sends : RdmaTransport → QueuePair → ℕ → List Message → ℕ → RdmaTransport × Bool → Type 0
Sends t q dst ms now r = (r.1 ≡ true) × Sent t q dst ms now r.0

-- A batch of one message more, from what the rest of the batch leaves.
Sends-cons :
    (t : RdmaTransport) (q : QueuePair) (dst : ℕ) (m : Message) (ms : List Message) (now : ℕ)
    (r : RdmaTransport × Bool)
    → Sends
        (sent_one t q dst m now)
        (queued q (whole t.rdma_ops now m ∷ []) (u64 (q.pending_wr + 1)))
        dst
        ms
        now
        r
    → Sends t q dst (m ∷ ms) now r
Sends-cons t q dst m ms now r ih = (
  ih.0,
  record {
    same_local = ih.1.same_local;
    same_count = ih.1.same_count;
    count = ih.1.count;
    slots =
        ih.1.slots
        ∙ set-set t.qps dst _ _
        ∙ ap (λ ws. set t.qps dst (some (record q { in_flight = ws; pending_wr = ih.1.count })))
            (append_assoc q.in_flight (whole t.rdma_ops now m ∷ []) _);
    ids = omega (arith, ih.1.ids);
    bytes = omega (arith, ih.1.bytes);
  },
)

-- The loop, once the test has passed.
send_each-Sends :
    (dst : ℕ) (ms : List Message) (now : ℕ) (t : RdmaTransport) (q : QueuePair)
    → pair_to t dst ≡ some q
    → t.rdma_ops < 2 ^ 64
    → t.bytes_sent < 2 ^ 64
    → Sends t q dst ms now (send_each dst ms now (t, true))
unfolding send_each
send_each-Sends dst [] now t q e a b = (
  refl,
  record {
    same_local = refl;
    same_count = refl;
    count = q.pending_wr;
    slots = nothing_queued;
    ids = omega arith;
    bytes = omega arith;
  },
)
  where
    nothing_queued : t.qps ≡ set t.qps dst (some (queued q [] q.pending_wr))
    nothing_queued =
        sym (set-get_or t.qps dst none)
        ∙ ap (set t.qps dst) (pair_to-slot t q dst e)
        ∙ ap (λ ws. set t.qps dst (some (record q { in_flight = ws })))
            (sym (append-nil q.in_flight))
send_each-Sends dst (m ∷ ms) now t q e a b = Sends-cons t q dst m ms now _ (
    subst (λ r. Sends (sent_one t q dst m now) after dst ms now (send_each dst ms now r))
      (sym (send_queued t q dst m now e))
      (send_each-Sends dst ms now (sent_one t q dst m now) after (pair_to-set t q after dst _ _ e)
        (omega arith) (omega arith)))
  where
    after : QueuePair
    after = queued q (whole t.rdma_ops now m ∷ []) (u64 (q.pending_wr + 1))

-- A batch to another worker is posted whole and in order: its messages go to the end of that
-- worker's wire with consecutive write ids (modulo 2 ^ 64), every other queue pair is left alone,
-- and the counters of operations and bytes grow by the messages sent (modulo 2 ^ 64).
pub send_batch-Sends :
    (t : RdmaTransport) (q : QueuePair) (dst : ℕ) (ms : List Message) (now : ℕ)
    → pair_to t dst ≡ some q
    → t.rdma_ops < 2 ^ 64
    → t.bytes_sent < 2 ^ 64
    → ((send_batch dst ms now t).1 ≡ true) × Sent t q dst ms now (send_batch dst ms now t).0
unfolding send_batch
send_batch-Sends t q dst ms now e a b = rw (e, send_batch) (send_each-Sends dst ms now t q e a b)
