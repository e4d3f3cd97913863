-- ===== src/Coordinator/Summary.antt =====
-- coordinator.cpp, the figures of `print_superstep_stats` and `print_summary`. Their layout, the throughput and the wall time are
-- left out.
use pregel.Common.{
  ℕ, suc, zero, ◌+◌, ◌<◌, ◌≡◌, refl, ap, subst, List, [], ◌∷◌, ◌==◌, true, false, Bool-cases, some,
  Option-cases, some-eq, inl, inr, arith, length, length-append, All, find,
}
use pregel.Types.{WorkerStats, u64}
use pregel.Partition.{PartitionMap}
use pregel.Bus.{MessageBus, network, drain_inbox}
use pregel.Heartbeat.{Floating}
use pregel.Worker.{
  VertexClass, WorkerNode, run_superstep, compute_phase, dispatch_messages, run_vertex,
  run_vertices, collect, collect_and_route_outbox, finish_superstep,
}
use pregel.Coordinator.{Schedule, Beat, Coordinator, run_workers, superstep, run_from, run}

-- What `print_summary` prints.
pub record Summary : Type 0 where
  pub workers : ℕ
  pub supersteps : ℕ
  pub vertices_computed : ℕ
  pub messages_routed : ℕ
  pub rdma_operations : ℕ
  pub latency_spikes : ℕ
  pub numa_migrations : ℕ

-- The sum of a counter over the workers.
unfoldable pub total : {V : Type 0} → (WorkerStats → ℕ) → List (WorkerNode V × MessageBus) → ℕ
total f [] = 0
total f (w ∷ ws) = u64 (f w.0.stats + total f ws)

-- The column Msgs/Step of `print_superstep_stats`.
unfoldable pub step_messages : {V : Type 0} {F : Floating} → Coordinator V F → ℕ
step_messages c = total (λ s. s.messages_sent) c.workers

unfoldable pub print_summary : {V : Type 0} {F : Floating} → Coordinator V F → Summary
print_summary c = record {
  workers = length c.workers;
  supersteps = u64 (c.current_step + 1);
  vertices_computed = total (λ s. s.vertices_processed) c.workers;
  messages_routed = total (λ s. s.messages_sent) c.workers;
  rdma_operations = total (λ s. s.rdma_ops) c.workers;
  latency_spikes = total (λ s. s.latency_spike_count) c.workers;
  numa_migrations = total (λ s. s.migrations_performed) c.workers;
}

-- These counters of a worker are zero.
abbrev pub IsIdle : WorkerStats → Type 0
IsIdle s = (s.rdma_ops ≡ 0) × (s.latency_spike_count ≡ 0) × (s.migrations_performed ≡ 0)

abbrev pub AllIdle : {V : Type 0} → List (WorkerNode V × MessageBus) → Type 0
AllIdle ws = All (λ w. IsIdle w.0.stats) ws

pub total-AllIdle :
    {V : Type 0} (ws : List (WorkerNode V × MessageBus))
    → AllIdle ws
    → (total (λ s. s.rdma_ops) ws ≡ 0)
      × (total (λ s. s.latency_spike_count) ws ≡ 0)
      × (total (λ s. s.migrations_performed) ws ≡ 0)
unfolding total
total-AllIdle [] a = (refl, refl, refl)
total-AllIdle (w ∷ ws) a =
    let r = total-AllIdle ws a.1 in
    (omega (arith, a.0.0, r.0), omega (arith, a.0.1, r.1), omega (arith, a.0.2, r.2))

module _ {V : Type 0} (C : VertexClass V) where
  run_vertex-IsIdle :
      (step x : ℕ) (w : WorkerNode V) → IsIdle w.stats → IsIdle (run_vertex C step x w).stats
  unfolding run_vertex
  run_vertex-IsIdle step x w i = elim (Option-cases (find x w.vertices)) [
    | inl e ↦ rw (e, run_vertex) i
    | inr (v, e) ↦ rw (e, run_vertex) i
  ]

  run_vertices-IsIdle :
      (step : ℕ) (vids : List ℕ) (w : WorkerNode V)
      → IsIdle w.stats
      → IsIdle (run_vertices C step vids w).stats
  unfolding run_vertices
  run_vertices-IsIdle step [] w i = i
  run_vertices-IsIdle step (x ∷ xs) w i =
      run_vertices-IsIdle step xs (run_vertex C step x w) (run_vertex-IsIdle step x w i)

  collect_and_route_outbox-IsIdle :
      (p : PartitionMap) (w : WorkerNode V) (b : MessageBus) (q : WorkerNode V × MessageBus)
      → collect_and_route_outbox C p w b ≡ some q
      → IsIdle w.stats
      → IsIdle q.0.stats
  unfolding collect_and_route_outbox
  collect_and_route_outbox-IsIdle p w b q e i =
      elim (Option-cases (collect C p w.vertices w.stats.messages_sent b)) [
        | inl n ↦ absurd (cc (rw n at e))
        | inr (r, n) ↦
            subst (λ (x : WorkerNode V × MessageBus). IsIdle x.0.stats) (some-eq (rw n at e)) i
      ]

  run_superstep-IsIdle :
      (p : PartitionMap) (order : List ℕ → List ℕ) (step now : ℕ) (w : WorkerNode V)
      (b : MessageBus) (r : WorkerNode V × (MessageBus × ℕ))
      → run_superstep C p order step now w b ≡ some r
      → IsIdle w.stats
      → IsIdle r.0.stats
  unfolding run_superstep finish_superstep compute_phase dispatch_messages
  run_superstep-IsIdle p order step now w b r e i =
      let w₁ = compute_phase C order step (drain_inbox b).1 w in
      let computed : IsIdle w₁.stats = run_vertices-IsIdle step _ _ i in
      elim (Option-cases (collect_and_route_outbox C p w₁ (drain_inbox b).0)) [
        | inl n ↦ absurd (cc (rw n at e))
        | inr (q, n) ↦
            subst (λ (x : WorkerNode V × (MessageBus × ℕ)). IsIdle x.0.stats) (some-eq (rw n at e))
              (collect_and_route_outbox-IsIdle p w₁ (drain_inbox b).0 q n computed)
      ]

  run_workers-AllIdle :
      (p : PartitionMap) (sched : Schedule) (step now : ℕ) (ws : List (WorkerNode V × MessageBus))
      (r : List (WorkerNode V × MessageBus) × ℕ)
      → run_workers C p sched step now ws ≡ some r
      → AllIdle ws
      → AllIdle r.0
  unfolding run_workers
  run_workers-AllIdle p sched step now [] r e a =
      subst (λ (x : List (WorkerNode V × MessageBus) × ℕ). AllIdle x.0) (some-eq e) tt
  run_workers-AllIdle p sched step now ((w, b) ∷ ws) r e a =
      let order = sched.orders step w.id in
      let b₁ = network (sched.rounds step w.id) b in
      elim (Option-cases (run_superstep C p order step now w b₁)) [
        | inl n ↦ absurd (cc (rw n at e))
        | inr (q, n) ↦ elim (Option-cases (run_workers C p sched step now ws)) [
          | inl m ↦ absurd (cc (rw (n, m) at e))
          | inr (rest, m) ↦
              subst (λ (x : List (WorkerNode V × MessageBus) × ℕ). AllIdle x.0)
                (some-eq (rw (n, m) at e))
                (
                  run_superstep-IsIdle p order step now w b₁ q n a.0,
                  run_workers-AllIdle p sched step now ws rest m a.1,
                )
        ]
      ]

-- The counters are zero, and the superstep is that of the last report.
abbrev pub Counted : {V : Type 0} {F : Floating} → Coordinator V F → Type 0
Counted c = AllIdle c.workers × (suc c.current_step ≡ length c.reports)

module _ {V : Type 0} (C : VertexClass V) (p : PartitionMap) (sched : Schedule) {F : Floating}
    (beats : ℕ → ℕ → Beat) (time : ℕ → ℕ) where
  abbrev CountedAt : ℕ → Coordinator V F → Type 0
  CountedAt step c = AllIdle c.workers × (c.current_step ≡ step) × (length c.reports ≡ suc step)

  superstep-CountedAt :
      (step : ℕ) (c : Coordinator V F) (r : Coordinator V F × ℕ)
      → superstep C p sched beats time step c ≡ some r
      → AllIdle c.workers
      → length c.reports ≡ step
      → CountedAt step r.0
  unfolding superstep
  superstep-CountedAt step c r e a n =
      elim (Option-cases (run_workers C p sched step (time step) c.workers)) [
        | inl m ↦ absurd (cc (rw m at e))
        | inr (q, m) ↦
            subst (λ (x : Coordinator V F × ℕ). CountedAt step x.0) (some-eq (rw m at e))
              (
                run_workers-AllIdle C p sched step (time step) c.workers q m a,
                refl,
                omega
                    (arith, n, length-append c.reports (record { step = step; active = q.1 } ∷ [])),
              )
      ]

  finish :
      (step left : ℕ) (c c' : Coordinator V F) (r : Coordinator V F × ℕ)
      → CountedAt step r.0
      → elim (r.1 == 0) [
        | true ↦ some r.0
        | false ↦ run_from C p sched beats time left (suc step) r.0
      ]
        ≡ some c'
      → (run_from C p sched beats time left (suc step) r.0 ≡ some c' → Counted c')
      → Counted c'
  finish step left c c' r k e ih = elim (Bool-cases (r.1 == 0)) [
    | inl z ↦ subst Counted (some-eq (rw z at e)) (k.0, omega (arith, k.1, k.2))
    | inr z ↦ ih (rw z at e)
  ]

  run_from-Counted :
      (left step : ℕ) (c c' : Coordinator V F)
      → run_from C p sched beats time (suc left) step c ≡ some c'
      → AllIdle c.workers
      → length c.reports ≡ step
      → Counted c'
  unfolding run_from
  run_from-Counted zero step c c' e a n =
      elim (Option-cases (superstep C p sched beats time step c)) [
        | inl m ↦ absurd (cc (rw m at e))
        | inr (r, m) ↦
            let k = superstep-CountedAt step c r m a n in
            finish step zero c c' r k (rw m at e)
              (λ f. subst Counted (some-eq f) (k.0, omega (arith, k.1, k.2)))
      ]
  run_from-Counted (suc left) step c c' e a n =
      elim (Option-cases (superstep C p sched beats time step c)) [
        | inl m ↦ absurd (cc (rw m at e))
        | inr (r, m) ↦
            let k = superstep-CountedAt step c r m a n in
            finish step (suc left) c c' r k (rw m at e)
              (λ f. run_from-Counted left (suc step) r.0 c' f k.0 k.2)
      ]

  run_rounds-Counted :
      (rounds : ℕ) (c c' : Coordinator V F)
      → run_from C p sched beats time rounds 0 c ≡ some c'
      → 0 < rounds
      → AllIdle c.workers
      → length c.reports ≡ 0
      → Counted c'
  run_rounds-Counted zero c c' e h a n = elim h [ ]
  run_rounds-Counted (suc left) c c' e h a n = run_from-Counted left 0 c c' e a n

  pub run-Counted :
      (c c' : Coordinator V F)
      → run C p sched beats time c ≡ some c'
      → 0 < c.config.max_supersteps
      → AllIdle c.workers
      → c.reports ≡ []
      → Counted c'
  unfolding run
  run-Counted c c' e h a n =
      elim (Option-cases (run_from C p sched beats time c.config.max_supersteps 0 c)) [
        | inl m ↦ absurd (cc (rw m at e))
        | inr (c₁, m) ↦
            let k = run_rounds-Counted c.config.max_supersteps c c₁ m h a (ap length n) in
            subst Counted (some-eq (rw m at e)) k
      ]
