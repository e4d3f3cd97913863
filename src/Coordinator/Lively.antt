-- ===== src/Coordinator/Lively.antt =====
-- `Coordinator::run` with a vertex that never votes to halt.
use pregel.Common.{
  ap, ℕ, suc, zero, ◌+◌, ◌^◌, ◌≤◌, ◌<◌, ◌≡◌, ◌⊎◌, refl, sym, ◌∙◌, List, [], ◌∷◌, ◌++◌, length, inl,
  inr, arith, append_assoc, append-nil, weigh, Gives, true,
}
use pregel.Types.{u64}
use pregel.Partition.{PartitionMap, IsValid}
use pregel.Bus.{MessageBus, drain_inbox, network}
use pregel.Heartbeat.{Floating}
use pregel.Worker.{VertexClass, WorkerNode}
use pregel.Worker.Collect.{IsLawful}
use pregel.Worker.Lively.{StaysLive, HasLive, Superstep-HasLive}
use pregel.Coordinator.{
  Schedule, Beat, Coordinator, Report, run_workers, after_round, superstep, run_from, run,
}
use pregel.Coordinator.Run.{AllReady, network-IsReady, run_superstep-IsReady}

-- The vertices of a worker, counted.
abbrev pub load : {V : Type 0} → WorkerNode V × MessageBus → ℕ
load w = length w.0.vertices

-- One report for each superstep from `step` on, none of them without active vertices.
abbrev pub Busy : ℕ → ℕ → List Report → Type 0
Busy step zero rs = rs ≡ []
Busy step (suc n) [] = ⊥
Busy step (suc n) (r ∷ rs) = (r.step ≡ step) × (0 < r.active) × Busy (suc step) n rs

pub Busy-length : (step n : ℕ) (rs : List Report) → Busy step n rs → length rs ≡ n
Busy-length step zero rs b = ap length b
Busy-length step (suc n) [] b = elim b [ ]
Busy-length step (suc n) (r ∷ rs) b = ap suc (Busy-length (suc step) n rs b.2)

module _ {V : Type 0} (C : VertexClass V) (Live : V → Type 0) where
  abbrev pub AnyLive : List (WorkerNode V × MessageBus) → Type 0
  AnyLive [] = ⊥
  AnyLive (w ∷ ws) = HasLive C Live w.0.vertices ⊎ AnyLive ws

module _ {V : Type 0} (C : VertexClass V) (Live : V → Type 0) (p : PartitionMap) (sched : Schedule)
    (lawful : IsLawful C) (stays : StaysLive C Live) (valid : IsValid p) where
  pub record Round (ws : List (WorkerNode V × MessageBus))
      (r : List (WorkerNode V × MessageBus) × ℕ) : Type 0 where
    pub ready : AllReady C p sched r.0
    pub same_load : weigh load r.0 ≡ weigh load ws
    pub bounded : r.1 ≤ weigh load ws
    pub live : AnyLive C Live ws → weigh load ws < 2 ^ 64 → AnyLive C Live r.0 × (0 < r.1)

  pub run_workers-Round :
      (step now : ℕ) (ws : List (WorkerNode V × MessageBus))
      → AllReady C p sched ws
      → Gives (Round ws) (run_workers C p sched step now ws)
  unfolding run_workers weigh
  run_workers-Round step now [] h = (
    ([], 0),
    refl,
    record { ready = tt; same_load = refl; bounded = omega arith; live = λ l b. elim l [ ] },
  )
  run_workers-Round step now ((w, b) ∷ ws) h =
      let order = sched.orders step w.id in
      let b₁ = network (sched.rounds step w.id) b in
      let (r, c, a, s) =
        run_superstep-IsReady C p sched order step now w b₁ lawful valid
          (network-IsReady p (sched.rounds step w.id) b h.0) in
      let (rest, d, t) = run_workers-Round step now ws h.1 in
      let k =
        Superstep-HasLive C Live stays p order step now (drain_inbox b₁).1 w (drain_inbox b₁).0 r
          s in
      (
        ((r.0, r.1.0) ∷ rest.0, u64 (r.1.1 + rest.1)),
        rw (c, d) refl,
        record {
          ready = (a, t.ready);
          same_load = omega (arith, k.1, t.same_load);
          bounded = omega (arith, k.2, t.bounded);
          live = λ any few. elim any [
            | inl l ↦ (inl (k.0 l).0, omega (arith, (k.0 l).1, k.2, t.bounded, few))
            | inr l ↦
                let q = t.live l (omega (arith, few)) in
                (inr q.0, omega (arith, q.1, k.2, t.bounded, few))
          ];
        },
      )

  module _ {F : Floating} (clock : ℕ → ℕ → Beat) (time : ℕ → ℕ) where
    abbrev pub BusyFor : ℕ → ℕ → Coordinator V F → Coordinator V F → Type 0
    BusyFor left step c c' = (rs : List Report) × (c'.reports ≡ c.reports ++ rs) × Busy step left rs

    run_from-BusyFor :
        (left step : ℕ) (c : Coordinator V F)
        → AllReady C p sched c.workers
        → AnyLive C Live c.workers
        → weigh load c.workers < 2 ^ 64
        → Gives (BusyFor left step c) (run_from C p sched clock time left step c)
    unfolding run_from superstep
    run_from-BusyFor zero step c ready live few = (c, refl, ([], sym (append-nil c.reports), refl))
    run_from-BusyFor (suc left) step c ready live few =
        let (r, e, t) = run_workers-Round step (time step) c.workers ready in
        let (alive, some_active) = t.live live few in
        let c₁ = after_round clock step r.0 r.1 c in
        let (c', f, (rs, q, busy)) =
          run_from-BusyFor left (suc step) c₁ t.ready alive (omega (arith, t.same_load, few)) in
        let report : Report = record { step = step; active = r.1 } in
        (
          c',
          rw e (ground (arith, some_active, f)),
          (report ∷ rs, q ∙ append_assoc c.reports (report ∷ []) rs, (refl, some_active, busy)),
        )

    -- If some vertex of some worker is live and there are fewer than 2 ^ 64 vertices, the run never ends early: it
    -- makes exactly `max_supersteps` supersteps, and every one of them has active vertices.
    pub run-Busy :
        (c : Coordinator V F)
        → AllReady C p sched c.workers
        → AnyLive C Live c.workers
        → weigh load c.workers < 2 ^ 64
        → Gives (BusyFor c.config.max_supersteps 0 c) (run C p sched clock time c)
    unfolding run
    run-Busy c ready live few =
        let (c', e, (rs, q, busy)) = run_from-BusyFor c.config.max_supersteps 0 c ready live few in
        (record c' { done = true }, rw e refl, (rs, q, busy))
