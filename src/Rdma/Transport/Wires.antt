-- ===== src/Rdma/Transport/Wires.antt =====
-- The wires of one worker's transport, and what a batch puts on them.
use pregel.Common.{
  ℕ, ◌^◌, ◌<◌, ◌≡◌, ◌≢◌, ◌==◌, List, [], ◌++◌, if◌then◌else◌, get_or, map, Option, none, some,
  arith, append-nil, get_or-set, ◌∙◌, sym, ap, Bool-cases, ==_iff, inl, inr, map-append,
}
use pregel.Types.{Message}
use pregel.Rdma.QueuePair.{QueuePair}
use pregel.Rdma.Transport.{RdmaTransport, send_batch, pair_to}
use pregel.Rdma.Transport.Batch.{pair_to-lt, pair_to-slot}
use pregel.Rdma.Transport.Batch.{Sent, send_batch-Sends, writes, queued}
use pregel.Rdma.Transport.Receive.{writes-msg}

-- The messages in flight to worker `w`.
abbrev pub wire_of : Option QueuePair → List Message
wire_of none = []
wire_of (some q) = map (λ x. x.msg) q.in_flight

abbrev pub wire_to : RdmaTransport → ℕ → List Message
wire_to t w = wire_of (get_or t.qps w none)

-- The transport of worker `local` among `workers`, with a queue pair for every other worker.
pub record IsWired (local workers : ℕ) (t : RdmaTransport) : Type 0 where
  pub mine : t.local_id ≡ local
  pub all : t.worker_count ≡ workers
  pub ops : t.rdma_ops < 2 ^ 64
  pub bytes : t.bytes_sent < 2 ^ 64
  pub pairs : (w : ℕ) → w < workers → w ≢ local → (q : QueuePair) × (get_or t.qps w none ≡ some q)

-- One message list to one worker, among the wires of all.
abbrev pub if_to : ℕ → ℕ → List Message → List Message
if_to w u box = if w == u then box else []

pub IsWired-pair_to :
    {local workers : ℕ} {t : RdmaTransport} (w : ℕ)
    → IsWired local workers t
    → w < workers
    → w ≢ local
    → (q : QueuePair) × (pair_to t w ≡ some q)
unfolding pair_to
IsWired-pair_to {t} w h l n = let (q, e) = h.pairs w l n in (q, ground (arith, e))

module _ {local workers : ℕ} {t : RdmaTransport} (w : ℕ) (box : List Message) (now : ℕ)
    (h : IsWired local workers t) (l : w < workers) (n : w ≢ local) where
  abbrev pair : QueuePair
  pair = (IsWired-pair_to w h l n).0

  abbrev is_pair : pair_to t w ≡ some pair
  is_pair = (IsWired-pair_to w h l n).1

  abbrev sent : Sent t pair w box now (send_batch w box now t).0
  sent = (send_batch-Sends t pair w box now is_pair h.ops h.bytes).1

  abbrev pair_after : QueuePair
  pair_after = queued pair (writes t.rdma_ops now box) sent.count

  slot_after :
      (u : ℕ)
      → get_or (send_batch w box now t).0.qps u none
        ≡ (if w == u then some pair_after else get_or t.qps u none)
  slot_after u =
      ap (λ qs. get_or qs u none) sent.slots
      ∙ get_or-set t.qps w u (some pair_after) none (pair_to-lt t pair w is_pair)

  pair_wire : wire_of (some pair_after) ≡ wire_to t w ++ box
  pair_wire =
      map-append (λ x. x.msg) pair.in_flight (writes t.rdma_ops now box)
      ∙ ap (◌++◌ (map (λ x. x.msg) pair.in_flight)) (writes-msg t.rdma_ops now box)
      ∙ ap (λ s. wire_of s ++ box) (sym (pair_to-slot t pair w is_pair))

  pub send_batch-IsWired : IsWired local workers (send_batch w box now t).0
  send_batch-IsWired = record {
    mine = sent.same_local ∙ h.mine;
    all = sent.same_count ∙ h.all;
    ops = omega (arith, sent.ids);
    bytes = omega (arith, sent.bytes);
    pairs = λ u lt ne. elim (Bool-cases (w == u)) [
      | inl hit ↦ (pair_after, slot_after u ∙ rw hit)
      | inr miss ↦ ((h.pairs u lt ne).0, slot_after u ∙ rw miss (h.pairs u lt ne).1)
    ];
  }

  pub send_batch-wire :
      (u : ℕ) → wire_to (send_batch w box now t).0 u ≡ wire_to t u ++ if_to w u box
  send_batch-wire u = elim (Bool-cases (w == u)) [
    | inl hit ↦
        ap wire_of (slot_after u)
        ∙ rw hit (pair_wire ∙ ap (λ v. wire_to t v ++ box) ((==_iff w u).0 hit))
    | inr miss ↦ ap wire_of (slot_after u) ∙ rw miss (sym (append-nil (wire_to t u)))
  ]
