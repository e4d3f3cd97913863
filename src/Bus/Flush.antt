-- ===== src/Bus/Flush.antt =====
-- `MessageBus::flush` with the RDMA transport: where the outboxes go.
use pregel.Common.{
  ℕ, suc, zero, ◌+◌, ◌^◌, ◌<◌, ◌≤◌, ◌≡◌, ◌≢◌, ◌==◌, refl, List, [], ◌∷◌, ◌++◌, true, false, length,
  get_or, replicate, none, some, arith, append_assoc, append-nil, ◌∙◌, sym, ap, ap₂, subst,
  Bool-cases, ==_iff, inl, inr,
}
use native.Mathlib.Nat.{zero-add}
use pregel.Types.{Message, u64}
use pregel.Rdma.Transport.{RdmaTransport, send_batch}
use pregel.Rdma.Transport.{new_transport}
use pregel.Rdma.Transport.New.{new_transport-IsWired}
use pregel.Bus.{MessageBus, new_bus, route_box, flush_box, flush_boxes, flush}
use pregel.Rdma.Transport.Wires.{wire_to, IsWired, if_to, send_batch-IsWired, send_batch-wire}

-- A bus whose transport is in use and connected.
pub record IsLive (b : MessageBus) : Type 0 where
  pub link : RdmaTransport
  pub linked : b.transport ≡ some link
  pub rdma : b.use_rdma ≡ true
  pub wired : IsWired b.local_id b.worker_count link
  pub counted : b.msgs_sent < 2 ^ 64

abbrev pub bus_wire : MessageBus → ℕ → List Message
bus_wire b u = elim b.transport [ none ↦ [] | some t ↦ wire_to t u ]

-- From `b` to `c`, worker `u` is sent `f u`, `n` messages in all; the own share goes to the inbox.
pub record Moved (f : ℕ → List Message) (n : ℕ) (b c : MessageBus) : Type 0 where
  pub live : IsLive c
  pub local : c.local_id ≡ b.local_id
  pub workers : c.worker_count ≡ b.worker_count
  pub boxes : c.outboxes ≡ b.outboxes
  pub received : c.msgs_received ≡ b.msgs_received
  pub inbox : c.inbox ≡ b.inbox ++ f b.local_id
  pub wire : (u : ℕ) → u ≢ b.local_id → bus_wire c u ≡ bus_wire b u ++ f u
  pub sent : c.msgs_sent ≡ u64 (b.msgs_sent + n)

Moved-trans :
    (f g : ℕ → List Message) (m n : ℕ) (a b c : MessageBus)
    → Moved f m a b
    → Moved g n b c
    → Moved (λ u. f u ++ g u) (m + n) a c
Moved-trans f g m n a b c r s = record {
  live = s.live;
  local = s.local ∙ r.local;
  workers = s.workers ∙ r.workers;
  boxes = s.boxes ∙ r.boxes;
  received = s.received ∙ r.received;
  inbox =
      s.inbox
      ∙ ap₂ (λ l u. l ++ g u) r.inbox r.local
      ∙ append_assoc a.inbox (f a.local_id) (g a.local_id);
  wire = λ u ne.
      s.wire u (λ e. ne (e ∙ r.local))
      ∙ ap (λ l. l ++ g u) (r.wire u ne)
      ∙ append_assoc (bus_wire a u) (f u) (g u);
  sent = omega (arith, r.sent, s.sent);
}

-- A box for the worker itself.
flush_own :
    (w : ℕ) (box : List Message) (b : MessageBus)
    → w ≡ b.local_id
    → IsLive b
    → Moved
        (λ u. if_to w u box)
        (length box)
        b
        (record b { msgs_sent = u64 (b.msgs_sent + length box); inbox = b.inbox ++ box })
flush_own w box b e h = record {
  live = record {
    link = h.link;
    linked = h.linked;
    rdma = h.rdma;
    wired = h.wired;
    counted = omega arith;
  };
  local = refl;
  workers = refl;
  boxes = refl;
  received = refl;
  inbox = ground arith;
  wire = λ u ne. ground (arith, append-nil (bus_wire b u));
  sent = refl;
}

-- A box for another worker.
flush_other :
    (w : ℕ) (box : List Message) (now : ℕ) (b : MessageBus) (h : IsLive b)
    → w < b.worker_count
    → w ≢ b.local_id
    → Moved
        (λ u. if_to w u box)
        (length box)
        b
        (record b {
          msgs_sent = u64 (b.msgs_sent + length box);
          transport = some (send_batch w box now h.link).0;
        })
flush_other w box now b h l ne = record {
  live = record {
    link = (send_batch w box now h.link).0;
    linked = refl;
    rdma = h.rdma;
    wired = send_batch-IsWired w box now h.wired l ne;
    counted = omega arith;
  };
  local = refl;
  workers = refl;
  boxes = refl;
  received = refl;
  inbox = ground (arith, append-nil b.inbox);
  wire = λ u ne'.
      send_batch-wire w box now h.wired l ne u ∙ ap (λ l. l ++ if_to w u box) (linked_wire u);
  sent = refl;
}
  where
    linked_wire : (u : ℕ) → wire_to h.link u ≡ bus_wire b u
    linked_wire u = ground (arith, h.linked)

route_own :
    (w : ℕ) (box : List Message) (now : ℕ) (b : MessageBus)
    → (w == b.local_id) ≡ true
    → route_box w box now b ≡ record b { inbox = b.inbox ++ box }
unfolding route_box
route_own w box now b e = ground arith

route_other :
    (w : ℕ) (box : List Message) (now : ℕ) (b : MessageBus) (t : RdmaTransport)
    → (w == b.local_id) ≡ false
    → b.use_rdma ≡ true
    → b.transport ≡ some t
    → route_box w box now b ≡ record b { transport = some (send_batch w box now t).0 }
unfolding route_box
route_other w box now b t e f g = ground arith

flush_box-Moved :
    (w : ℕ) (box : List Message) (now : ℕ) (b : MessageBus)
    → IsLive b
    → w < b.worker_count
    → Moved (λ u. if_to w u box) (length box) b (flush_box w box now b)
unfolding flush_box
flush_box-Moved w [] now b h l = record {
  live = h;
  local = refl;
  workers = refl;
  boxes = refl;
  received = refl;
  inbox = ground (arith, append-nil b.inbox);
  wire = λ u ne. ground (arith, append-nil (bus_wire b u));
  sent = omega (arith, h.counted);
}
flush_box-Moved w (m ∷ ms) now b h l = elim (Bool-cases (w == b.local_id)) [
  | inl hit ↦
      subst (Moved (λ u. if_to w u (m ∷ ms)) (length (m ∷ ms)) b)
        (sym (route_own w (m ∷ ms) now counted hit))
        (flush_own w (m ∷ ms) b ((==_iff w b.local_id).0 hit) h)
  | inr miss ↦
      subst (Moved (λ u. if_to w u (m ∷ ms)) (length (m ∷ ms)) b)
        (sym (route_other w (m ∷ ms) now counted h.link miss h.rdma h.linked))
        (flush_other w (m ∷ ms) now b h l (ground arith))
]
  where
    counted : MessageBus
    counted = record b { msgs_sent = u64 (b.msgs_sent + length (m ∷ ms)) }

-- What the boxes of the workers `w`, `w + 1`, … hold for worker `u`, and how much in all.
abbrev pub share : ℕ → List (List Message) → ℕ → List Message
share w [] u = []
share w (box ∷ boxes) u = if_to w u box ++ share (suc w) boxes u

abbrev pub total : List (List Message) → ℕ
total [] = 0
total (box ∷ boxes) = length box + total boxes

share_before : (w : ℕ) (boxes : List (List Message)) (u : ℕ) → u < w → share w boxes u ≡ []
share_before w [] u h = refl
share_before w (box ∷ boxes) u h = ground (arith, share_before (suc w) boxes u (omega arith))

share_at : (w : ℕ) (boxes : List (List Message)) (d : ℕ) → share w boxes (w + d) ≡ get_or boxes d []
share_at w [] d = refl
share_at w (box ∷ boxes) zero =
    ground (arith, share_before (suc w) boxes (w + 0) (omega arith), append-nil box)
share_at w (box ∷ boxes) (suc d) = ground (arith, share_at (suc w) boxes d)

pub share_lem : (boxes : List (List Message)) (u : ℕ) → share 0 boxes u ≡ get_or boxes u []
share_lem boxes u =
    subst (λ v. share 0 boxes v ≡ get_or boxes u []) (zero-add u) (share_at 0 boxes u)

flush_boxes-Moved :
    (w : ℕ) (boxes : List (List Message)) (now : ℕ) (b : MessageBus)
    → IsLive b
    → w + length boxes ≤ b.worker_count
    → Moved (share w boxes) (total boxes) b (flush_boxes w boxes now b)
unfolding flush_boxes
flush_boxes-Moved w [] now b h l = record {
  live = h;
  local = refl;
  workers = refl;
  boxes = refl;
  received = refl;
  inbox = sym (append-nil b.inbox);
  wire = λ u ne. sym (append-nil (bus_wire b u));
  sent = omega (arith, h.counted);
}
flush_boxes-Moved w (box ∷ boxes) now b h l =
    Moved-trans (λ u. if_to w u box) (share (suc w) boxes) (length box) (total boxes) b _ _ first
      (flush_boxes-Moved (suc w) boxes now (flush_box w box now b) first.live
        (omega (arith, first.workers)))
  where
    first : Moved (λ u. if_to w u box) (length box) b (flush_box w box now b)
    first = flush_box-Moved w box now b h (omega arith)

emptied : MessageBus → MessageBus
emptied b = record b { outboxes = replicate b.worker_count [] }

-- A flush of a live bus with one outbox for each worker: its own outbox goes to the end of the inbox,
-- the outbox of every other worker to the end of the wire to that worker, all in order; the outboxes
-- are left empty, and the counter of messages sent grows by all of them (modulo 2 ^ 64).
pub flush_routes :
    (now : ℕ) (b : MessageBus)
    → IsLive b
    → length b.outboxes ≡ b.worker_count
    → let c = flush now b in
      IsLive c
      × (c.inbox ≡ b.inbox ++ get_or b.outboxes b.local_id [])
      × ((u : ℕ) → u ≢ b.local_id → bus_wire c u ≡ bus_wire b u ++ get_or b.outboxes u [])
      × (c.outboxes ≡ replicate b.worker_count [])
      × (c.msgs_sent ≡ u64 (b.msgs_sent + total b.outboxes))
      × (c.msgs_received ≡ b.msgs_received)
unfolding flush emptied
flush_routes now b h f = (
  moved.live,
  moved.inbox ∙ ap (◌++◌ b.inbox) (share_lem b.outboxes b.local_id),
  λ u ne. moved.wire u ne ∙ ap (◌++◌ (bus_wire b u)) (share_lem b.outboxes u),
  moved.boxes,
  moved.sent,
  moved.received,
)
  where
    moved : Moved (share 0 b.outboxes) (total b.outboxes) (emptied b) (flush now b)
    moved =
        flush_boxes-Moved 0 b.outboxes now (emptied b)
          (record {
            link = h.link;
            linked = h.linked;
            rdma = h.rdma;
            wired = h.wired;
            counted = h.counted;
          })
          (omega arith)

-- The constructor of a bus with RDMA builds a live one.
pub new_bus-IsLive : (local n : ℕ) → IsLive (new_bus local n true)
unfolding new_bus
new_bus-IsLive local n = record {
  link = new_transport local n;
  linked = refl;
  rdma = refl;
  wired = new_transport-IsWired local n;
  counted = omega arith;
}
