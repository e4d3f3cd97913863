-- ===== src/Rdma/QueuePair/Wire.antt =====
-- `QueuePair` under any interleaving of its poster, its network thread and its readers.
-- `Trace` carries, beside the queue pair, what the threads have done so far: the writes posted, those
-- whose count is still to come, the messages drained and the completions polled.
use pregel.Common.{
  ℕ, ◌+◌, ◌-◌, ◌^◌, ◌<◌, ◌≤◌, ◌≡◌, refl, ap, sym, ◌∙◌, List, [], ◌∷◌, ◌++◌, true, leb, length, take,
  drop, map, append_assoc, append-nil, map-append, arith, length-append, take-append-drop, inl, inr,
  Bool-cases, min,
}
use pregel.Types.{Message, sizeof_message, u64}
use pregel.Rdma.QueuePair.{
  QueuePair, PendingWrite, RdmaCompletion, NetPc, waiting, popped, boxed, completed, new_pair,
  post_push, post_count, net_pop, net_step, poll_cq, drain_received, flush_done, memcpy_message,
  rdma_latency_us,
}

pub record Trace : Type 0 where
  pub qp : QueuePair
  pub posted : List PendingWrite
  pub uncounted : ℕ
  pub drained : List Message
  pub polled : List RdmaCompletion

abbrev pub started : ℕ → ℕ → Trace
started local remote = record {
  qp = new_pair local remote;
  posted = [];
  uncounted = 0;
  drained = [];
  polled = [];
}

abbrev entry : Message → ℕ → ℕ → PendingWrite
entry m wr_id now = record {
  wr_id = wr_id;
  msg = memcpy_message m sizeof_message;
  deliver_at = now + rdma_latency_us;
}

unfoldable pub push_step : Message → ℕ → ℕ → Trace → Trace
push_step m wr_id now t = record t {
  qp = post_push m sizeof_message wr_id now t.qp;
  posted = t.posted ++ entry m wr_id now ∷ [];
  uncounted = t.uncounted + 1;
}

unfoldable pub count_step : Trace → Trace
count_step t = record t { qp = post_count t.qp; uncounted = t.uncounted - 1 }

unfoldable pub drain_step : Trace → Trace
drain_step t = record t {
  qp = (drain_received t.qp).0;
  drained = t.drained ++ (drain_received t.qp).1;
}

unfoldable pub poll_step : ℕ → Trace → Trace
poll_step n t = record t { qp = (poll_cq n t.qp).0; polled = t.polled ++ (poll_cq n t.qp).1 }

pub data Step (t : Trace) : Trace → Type 0 where
  push : (m : Message) (wr_id now : ℕ) → Step t (push_step m wr_id now t)
  count : 0 < t.uncounted → Step t (count_step t)
  net : (now : ℕ) → Step t (record t { qp = net_step now t.qp })
  drain : Step t (drain_step t)
  poll : (n : ℕ) → Step t (poll_step n t)

pub data Reach (local remote : ℕ) : Trace → Type 0 where
  start : Reach local remote (started local remote)
  later : {s t : Trace} → Reach local remote s → Step s t → Reach local remote t

-- What the network thread holds that is not yet in the inbox, and not yet in the completion queue.
abbrev pub unboxed : NetPc → List PendingWrite
unboxed (popped w) = w ∷ []
unboxed _ = []

abbrev pub uncompleted : NetPc → List PendingWrite
uncompleted (popped w) = w ∷ []
uncompleted (boxed w) = w ∷ []
uncompleted _ = []

abbrev pub busy : NetPc → ℕ
busy waiting = 0
busy _ = 1

abbrev pub msgs : List PendingWrite → List Message
msgs = map λ w. w.msg

abbrev pub completion : PendingWrite → RdmaCompletion
completion w = record { wr_id = w.wr_id; bytes = sizeof_message; success = true }

pub record Inv (t : Trace) : Type 0 where
  pub in_order :
      msgs t.posted ≡ t.drained ++ (t.qp.inbox ++ (msgs (unboxed t.qp.net) ++ msgs t.qp.in_flight))
  pub completions :
      map completion t.posted
      ≡ t.polled ++ (t.qp.cq ++ map completion (uncompleted t.qp.net ++ t.qp.in_flight))
  pub pending : u64 (t.qp.pending_wr + t.uncounted) ≡ u64 (length t.qp.in_flight + busy t.qp.net)
  pub small : t.qp.pending_wr < 2 ^ 64
  pub outstanding : t.uncounted ≤ length t.posted

push-Inv : (m : Message) (wr_id now : ℕ) (t : Trace) → Inv t → Inv (push_step m wr_id now t)
unfolding push_step post_push
push-Inv m wr_id now t v = record {
  in_order = simp (map-append, v.in_order, append_assoc);
  completions = simp (map-append, v.completions, append_assoc);
  pending = omega (arith, v.pending, length-append t.qp.in_flight (entry m wr_id now ∷ []));
  small = v.small;
  outstanding = omega (arith, v.outstanding, length-append t.posted (entry m wr_id now ∷ []));
}

count-Inv : (t : Trace) → 0 < t.uncounted → Inv t → Inv (count_step t)
unfolding count_step post_count
count-Inv t h v = record {
  in_order = v.in_order;
  completions = v.completions;
  pending = omega (arith, v.pending);
  small = omega arith;
  outstanding = omega (arith, v.outstanding);
}

drain-Inv : (t : Trace) → Inv t → Inv (drain_step t)
unfolding drain_step drain_received
drain-Inv t v = record {
  in_order = v.in_order ∙ sym (append_assoc t.drained t.qp.inbox _);
  completions = v.completions;
  pending = v.pending;
  small = v.small;
  outstanding = v.outstanding;
}

poll-Inv : (n : ℕ) (t : Trace) → Inv t → Inv (poll_step n t)
unfolding poll_step poll_cq
poll-Inv n t v = record {
  in_order = v.in_order;
  completions =
      v.completions
      ∙ ap (λ c. t.polled ++ (c ++ rest)) (sym (take-append-drop k t.qp.cq))
      ∙ ap (◌++◌ t.polled) (append_assoc (take k t.qp.cq) (drop k t.qp.cq) rest)
      ∙ sym (append_assoc t.polled (take k t.qp.cq) (drop k t.qp.cq ++ rest));
  pending = v.pending;
  small = v.small;
  outstanding = v.outstanding;
}
  where
    k : ℕ
    k = min (length t.qp.cq) n

    rest : List RdmaCompletion
    rest = map completion (uncompleted t.qp.net ++ t.qp.in_flight)

-- The network thread takes a write off the wire.
pop-Inv :
    (now : ℕ) (t : Trace) (ws : List PendingWrite)
    → t.qp.in_flight ≡ ws
    → t.qp.net ≡ waiting
    → Inv t
    → Inv (record t { qp = net_pop now t.qp })
unfolding net_pop
pop-Inv now t [] e f v = rw (e, net_pop) v
pop-Inv now t (w ∷ ws) e f v = elim (Bool-cases (leb w.deliver_at now)) [
  | inl due ↦
      rw (e, net_pop, due)
        (record {
          in_order = rw (e, f) at v.in_order;
          completions = rw (e, f) at v.completions;
          pending = omega (arith, rw (e, f) at v.pending);
          small = v.small;
          outstanding = v.outstanding;
        })
  | inr early ↦ rw (e, net_pop, early) v
]

net-Inv_at :
    (now : ℕ) (t : Trace) (pc : NetPc)
    → t.qp.net ≡ pc
    → Inv t
    → Inv (record t { qp = net_step now t.qp })
unfolding net_step
net-Inv_at now t waiting f v = rw (f, net_step) (pop-Inv now t t.qp.in_flight refl f v)
net-Inv_at now t (popped w) f v =
    rw (f, net_step)
      (record {
        in_order =
            (rw f at v.in_order)
            ∙ ap (◌++◌ t.drained) (sym (append_assoc t.qp.inbox (w.msg ∷ []) _));
        completions = rw f at v.completions;
        pending = omega (arith, rw f at v.pending);
        small = v.small;
        outstanding = v.outstanding;
      })
net-Inv_at now t (boxed w) f v =
    rw (f, net_step)
      (record {
        in_order = rw f at v.in_order;
        completions =
            (rw f at v.completions)
            ∙ ap (◌++◌ t.polled) (sym (append_assoc t.qp.cq (completion w ∷ []) _));
        pending = omega (arith, rw f at v.pending);
        small = v.small;
        outstanding = v.outstanding;
      })
net-Inv_at now t completed f v =
    rw (f, net_step)
      (record {
        in_order = rw f at v.in_order;
        completions = rw f at v.completions;
        pending = omega (arith, rw f at v.pending);
        small = omega arith;
        outstanding = v.outstanding;
      })

Step-Inv : {s t : Trace} → Step s t → Inv s → Inv t
Step-Inv {s} (push m wr_id now) v = push-Inv m wr_id now s v
Step-Inv {s} (count h) v = count-Inv s h v
Step-Inv {s} (net now) v = net-Inv_at now s s.qp.net refl v
Step-Inv {s} drain v = drain-Inv s v
Step-Inv {s} (poll n) v = poll-Inv n s v

started-Inv : (local remote : ℕ) → Inv (started local remote)
started-Inv local remote = record {
  in_order = refl;
  completions = refl;
  pending = refl;
  small = omega arith;
  outstanding = omega arith;
}

pub Reach-Inv : {local remote : ℕ} {t : Trace} → Reach local remote t → Inv t
Reach-Inv {local} {remote} start = started-Inv local remote
Reach-Inv (later r st) = Step-Inv st (Reach-Inv r)

-- Whatever the interleaving of posts, wire steps, drains and polls, the messages posted are, in the
-- order of the posts and each exactly once: those drained, those in the inbox, the one in the hands
-- of the network thread, and those in flight.
pub wire_fifo :
    {local remote : ℕ} {t : Trace}
    → Reach local remote t
    → msgs t.posted ≡ t.drained ++ (t.qp.inbox ++ (msgs (unboxed t.qp.net) ++ msgs t.qp.in_flight))
wire_fifo r = (Reach-Inv r).in_order

-- A successful completion is posted once for each write, in the order of the posts: those polled,
-- those in the queue, and those whose write is still under way make up all the writes.
pub wire_completions :
    {local remote : ℕ} {t : Trace}
    → Reach local remote t
    → map completion t.posted
      ≡ t.polled ++ (t.qp.cq ++ map completion (uncompleted t.qp.net ++ t.qp.in_flight))
wire_completions r = (Reach-Inv r).completions

quiet : (ws : List PendingWrite) (pc : NetPc) → length ws + busy pc ≡ 0 → (ws ≡ []) × (pc ≡ waiting)
quiet [] waiting h = (refl, refl)
quiet [] (popped w) h = absurd (omega arith)
quiet [] (boxed w) h = absurd (omega arith)
quiet [] completed h = absurd (omega arith)
quiet (w ∷ ws) pc h = absurd (omega arith)

flushed :
    (t : Trace)
    → Inv t
    → t.uncounted ≡ 0
    → length t.qp.in_flight + busy t.qp.net < 2 ^ 64
    → flush_done t.qp ≡ true
    → (t.qp.in_flight ≡ []) × (t.qp.net ≡ waiting)
unfolding flush_done
flushed t v z b d = quiet t.qp.in_flight t.qp.net (ground (arith, v.pending))

-- When `flush` returns while no post is under way, and fewer than 2 ^ 64 writes are outstanding,
-- nothing is left on the wire: the messages posted are those drained and those in the inbox.
pub flush_complete :
    {local remote : ℕ} {t : Trace}
    → Reach local remote t
    → t.uncounted ≡ 0
    → length t.qp.in_flight + busy t.qp.net < 2 ^ 64
    → flush_done t.qp ≡ true
    → (t.qp.in_flight ≡ []) × (msgs t.posted ≡ t.drained ++ t.qp.inbox)
flush_complete {local} {remote} {t} r z b d =
    let (e, f) = flushed t (Reach-Inv r) z b d in
    (
      e,
      (rw (e, f) at (wire_fifo {local = local} {remote = remote} {t = t} r))
          ∙ ap (◌++◌ t.drained) (append-nil t.qp.inbox),
    )
