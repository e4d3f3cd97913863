-- ===== src/Coordinator/Run.antt =====
-- `Coordinator::run`: how many supersteps it makes, and when it stops.
use pregel.Common.{
  ℕ, suc, zero, ◌+◌, ◌≡◌, ◌≢◌, ◌⊎◌, refl, ◌∙◌, sym, ap, subst, List, [], ◌∷◌, ◌++◌, arith, All,
  length, length-replicate, inl, inr, Option, some, Option-cases, true, replicate, append_assoc,
  append-nil, ℕ_discrete,
}
use pregel.Types.{Message, u64}
use pregel.Partition.{PartitionMap, IsValid}
use pregel.Bus.{
  MessageBus, network, flush, flush_boxes, flush_box, route_box, drain_inbox, fetch_remote,
  take_inbox,
}
use pregel.Heartbeat.{Floating}
use pregel.Worker.{VertexClass, WorkerNode, compute_phase, run_superstep}
use pregel.Worker.Collect.{IsLawful, Superstep, run_superstep-Superstep}
use pregel.Coordinator.{
  Schedule, Beat, Coordinator, Report, run_workers, after_round, superstep, run_from, run,
}

-- The bus has an outbox for each worker of the map, and will have after a flush.
abbrev pub IsReady : PartitionMap → MessageBus → Type 0
IsReady p b = (length b.outboxes ≡ p.worker_count) × (b.worker_count ≡ p.worker_count)

route_box_keeps :
    (w : ℕ) (box : List Message) (now : ℕ) (b : MessageBus)
    → ((flush_box w box now b).outboxes ≡ b.outboxes)
      × ((flush_box w box now b).worker_count ≡ b.worker_count)
unfolding flush_box route_box
route_box_keeps w [] now b = (refl, refl)
route_box_keeps w (m ∷ ms) now b = elim (Option-cases b.transport) [
  | inl e ↦ (ground (arith, e), ground (arith, e))
  | inr (t, e) ↦ (ground (arith, e), ground (arith, e))
]

flush_boxes_keeps :
    (w : ℕ) (boxes : List (List Message)) (now : ℕ) (b : MessageBus)
    → ((flush_boxes w boxes now b).outboxes ≡ b.outboxes)
      × ((flush_boxes w boxes now b).worker_count ≡ b.worker_count)
unfolding flush_boxes
flush_boxes_keeps w [] now b = (refl, refl)
flush_boxes_keeps w (box ∷ boxes) now b =
    let k = flush_boxes_keeps (suc w) boxes now (flush_box w box now b) in
    let f = route_box_keeps w box now b in (k.0 ∙ f.0, k.1 ∙ f.1)

flush-IsReady :
    (p : PartitionMap) (now : ℕ) (b : MessageBus) → IsReady p b → IsReady p (flush now b)
unfolding flush
flush-IsReady p now b h =
    let k =
      flush_boxes_keeps 0 b.outboxes now (record b { outboxes = replicate b.worker_count [] }) in
    (ap length k.0 ∙ length-replicate b.worker_count [] ∙ h.1, k.1 ∙ h.1)

pub network-IsReady :
    (p : PartitionMap) (rounds : ℕ → ℕ × ℕ) (b : MessageBus)
    → IsReady p b
    → IsReady p (network rounds b)
unfolding network
network-IsReady p rounds b h = h

drain-IsReady : (p : PartitionMap) (b : MessageBus) → IsReady p b → IsReady p (drain_inbox b).0
unfolding drain_inbox fetch_remote take_inbox
drain-IsReady p b h = elim (Option-cases b.transport) [
  | inl e ↦ (ground (arith, e, h.0), ground (arith, e, h.1))
  | inr (t, e) ↦ (ground (arith, e, h.0), ground (arith, e, h.1))
]

module _ {V : Type 0} (C : VertexClass V) (p : PartitionMap) (sched : Schedule) where
  abbrev pub AllReady : List (WorkerNode V × MessageBus) → Type 0
  AllReady ws = All (λ w. IsReady p w.1) ws

  pub run_superstep-IsReady :
      (order : List ℕ → List ℕ) (step now : ℕ) (w : WorkerNode V) (b : MessageBus)
      → IsLawful C
      → IsValid p
      → IsReady p b
      → (r : WorkerNode V × (MessageBus × ℕ)) × (run_superstep C p order step now w b ≡ some r)
        × IsReady p r.1.0
        × Superstep C p now
            (compute_phase C order step (drain_inbox b).1 w).vertices
            (drain_inbox b).0
            r
  run_superstep-IsReady order step now w b l v h =
      let (r, c, s) = run_superstep-Superstep C p order step now w b l v h.0 in
      let d = drain-IsReady p b h in
      (
        r,
        c,
        subst (IsReady p) (sym s.flushed) (
            flush-IsReady p now s.routed_bus
              (s.routes.fits, ap (λ (x : MessageBus). x.worker_count) s.routes.rest ∙ d.1)),
        s,
      )

  run_workers-AllReady :
      (step now : ℕ) (ws : List (WorkerNode V × MessageBus))
      → IsLawful C
      → IsValid p
      → AllReady ws
      → (r : List (WorkerNode V × MessageBus) × ℕ) × (run_workers C p sched step now ws ≡ some r)
        × AllReady r.0
        × (length r.0 ≡ length ws)
  unfolding run_workers
  run_workers-AllReady step now [] l v h = (([], 0), refl, tt, refl)
  run_workers-AllReady step now ((w, b) ∷ ws) l v h =
      let (r, c, a, s) =
        run_superstep-IsReady (sched.orders step w.id) step now w
          (network (sched.rounds step w.id) b) l v
          (network-IsReady p (sched.rounds step w.id) b h.0) in
      let (rest, d, e, n) = run_workers-AllReady step now ws l v h.1 in
      (((r.0, r.1.0) ∷ rest.0, u64 (r.1.1 + rest.1)), rw (c, d) refl, (a, e), ap suc n)

-- The reports of a run from `step` on with `left` rounds to go: one for each superstep, up to the first
-- that has no active vertices, or until no round is left.
pub History : ℕ → ℕ → List Report → Type 0
History step zero rs = rs ≡ []
History step (suc n) [] = ⊥
History step (suc n) (r ∷ rs) =
    (r.step ≡ step) × (((r.active ≡ 0) × (rs ≡ [])) ⊎ ((r.active ≢ 0) × History (suc step) n rs))

module _ {V : Type 0} (C : VertexClass V) (p : PartitionMap) (sched : Schedule) {F : Floating}
    (clock : ℕ → ℕ → Beat) (time : ℕ → ℕ) where
  abbrev at_run : ℕ → ℕ → Coordinator V F → Option (Coordinator V F)
  at_run left step c = run_from C p sched clock time left step c

  RunsTo : ℕ → ℕ → Coordinator V F → Type 0
  RunsTo left step c =
      (c' : Coordinator V F) × (rs : List Report) × (at_run left step c ≡ some c')
      × (c'.reports ≡ c.reports ++ rs)
      × History step left rs
      × (length c'.workers ≡ length c.workers)

  -- The end of a round, by whether vertices are active.
  go_on :
      (left step : ℕ) (c c₁ : Coordinator V F) (active : ℕ)
      → superstep C p sched clock time step c ≡ some (c₁, active)
      → c₁.reports ≡ c.reports ++ record { step = step; active = active } ∷ []
      → length c₁.workers ≡ length c.workers
      → RunsTo left (suc step) c₁
      → RunsTo (suc left) step c
  unfolding run_from RunsTo History
  go_on left step c c₁ active e reports size (c', rs, k, q, h, n) = elim (ℕ_discrete active 0) [
    | yes z ↦ (
      c₁,
      record { step = step; active = active } ∷ [],
      rw e (ground (arith, z)),
      reports,
      (refl, inl (z, refl)),
      size,
    )
    | no z ↦ (
      c',
      record { step = step; active = active } ∷ rs,
      rw e (ground (arith, z, k)),
      q
          ∙ ap (λ l. l ++ rs) reports
          ∙ append_assoc c.reports (record { step = step; active = active } ∷ []) rs,
      (refl, inr (z, h)),
      n ∙ size,
    )
  ]

  run_from-RunsTo :
      (left step : ℕ) (c : Coordinator V F)
      → IsLawful C
      → IsValid p
      → AllReady C p sched c.workers
      → RunsTo left step c
  unfolding run_from RunsTo History superstep
  run_from-RunsTo zero step c l v h = (c, [], refl, sym (append-nil c.reports), refl, refl)
  run_from-RunsTo (suc left) step c l v h =
      let (r, e, a, n) = run_workers-AllReady C p sched step (time step) c.workers l v h in
      let c₁ = after_round clock step r.0 r.1 c in
      go_on left step c c₁ r.1 (rw e refl) refl n (run_from-RunsTo left (suc step) c₁ l v a)

  -- From workers with a valid partition map and buses to match, `run` always ends without an access out of
  -- range: it makes supersteps 0, 1, 2, … and reports each one, stops after the first one without
  -- active vertices, or else after exactly `max_supersteps`; then it is done, and has the same
  -- number of workers.
  pub run-History :
      (c : Coordinator V F)
      → IsLawful C
      → IsValid p
      → AllReady C p sched c.workers
      → (c' : Coordinator V F) × (rs : List Report) × (run C p sched clock time c ≡ some c')
        × (c'.reports ≡ c.reports ++ rs)
        × History 0 c.config.max_supersteps rs
        × (length c'.workers ≡ length c.workers)
        × (c'.done ≡ true)
  unfolding run RunsTo
  run-History c l v h =
      let (c', rs, k, q, s, n) = run_from-RunsTo c.config.max_supersteps 0 c l v h in
      (record c' { done = true }, rs, rw k refl, q, s, n, refl)
