-- ===== src/Engine/Market/Busy.antt =====
-- `GraphEngine` on the order-book graph: its venues keep it running.
use pregel.Common.{
  ℕ, suc, zero, ◌+◌, ◌*◌, ◌^◌, ◌≤◌, ◌<◌, ◌≡◌, refl, sym, ◌∙◌, ap, subst, List, arith, ℤ, weigh,
  Gives, Gives-bind, ◌++◌,
}
use pregel.Types.{EngineConfig, u64}
use pregel.Partition.{PartitionMap, IsValid}
use pregel.Bus.{MessageBus}
use pregel.Heartbeat.{Floating}
use pregel.Worker.{WorkerNode}
use pregel.Coordinator.{Schedule, Beat}
use pregel.Coordinator.Run.{AllReady}
use pregel.Coordinator.Lively.{Busy-length, load, AnyLive, Busy, run-Busy, run_workers-Round}
use pregel.OrderBook.GraphVertex.{GraphVertex, graph_class, graph_class-IsLawful}
use pregel.OrderBook.Graph.{Source}
use pregel.Engine.Market.Loaded.{IsOpenVenue, venues-StaysLive, set_up_order_book-IsLoaded}
use pregel.Coordinator.Summary.{Counted, run-Counted, print_summary, total-AllIdle}
use pregel.Engine.Market.{run_order_book, benchmark, benchmark_from}

module _ {S Rng : Type 0} (F : Floating) (R : Source S Rng) (draw : Rng → ℤ × Rng)
    (sched : Schedule) (time : ℕ → ℕ) (hardware : ℕ) (threshold : F.Double) (now : ℕ → ℤ)
    (seed : S) where
  pub run_order_book-Ends :
      (clock : ℕ → ℕ → Beat) (config : EngineConfig)
      → 0 < config.worker_count
      → 0 < config.numa_nodes
      → Gives
          (λ c. Busy 0 config.max_supersteps c.reports × (0 < config.max_supersteps → Counted c))
          (run_order_book F R draw sched time hardware threshold now seed clock config)
  unfolding run_order_book
  run_order_book-Ends clock config h m =
      Gives-bind
        (set_up_order_book-IsLoaded F R draw sched time hardware threshold now seed config h m)
        λ e l.
          let (c, f, (rs, q, busy)) =
            run-Busy (graph_class draw) IsOpenVenue e.pmap sched (graph_class-IsLawful draw)
              (venues-StaysLive draw) l.valid clock time e.coordinator l.ready l.live
              (omega (arith, l.few)) in
          (
            c,
            f,
            (
              subst (Busy 0 config.max_supersteps) (sym (q ∙ ap (λ l. l ++ rs) l.no_reports))
                  (subst (λ x. Busy 0 x.max_supersteps rs) l.configured busy),
              λ some_step.
                  run-Counted (graph_class draw) e.pmap sched clock time e.coordinator c f
                    (subst (λ (x : EngineConfig). 0 < x.max_supersteps) (sym l.configured)
                      some_step)
                    l.idle l.no_reports,
            ),
          )

  -- A run of the engine on its order-book graph, with one worker and at least one NUMA node, always
  -- ends without an access out of range or a division by zero, and never before its limit, whatever
  -- the orders in which the tasks are completed: it makes exactly `max_supersteps` supersteps,
  -- numbered from 0, and each of them has active vertices.
  pub run_order_book-Busy :
      (clock : ℕ → ℕ → Beat) (config : EngineConfig)
      → config.worker_count ≡ 1
      → 0 < config.numa_nodes
      → Gives
          (λ c. Busy 0 config.max_supersteps c.reports)
          (run_order_book F R draw sched time hardware threshold now seed clock config)
  run_order_book-Busy clock config h m =
      let (c, f, (busy, counted)) = run_order_book-Ends clock config (omega arith) m in (c, f, busy)

  -- The summary after a run of the engine on its order-book graph, with at least one worker, one
  -- NUMA node and a limit of at least one superstep, shows the limit as the number of supersteps;
  -- the RDMA operations, latency spikes and NUMA migrations that it shows are zero, whatever has
  -- happened.
  pub print_summary-counts :
      (clock : ℕ → ℕ → Beat) (config : EngineConfig)
      → 0 < config.worker_count
      → 0 < config.numa_nodes
      → 0 < config.max_supersteps
      → config.max_supersteps < 2 ^ 64
      → Gives
          (λ c.
            let s = print_summary c in
            (s.supersteps ≡ config.max_supersteps)
            × (s.rdma_operations ≡ 0)
            × (s.latency_spikes ≡ 0)
            × (s.numa_migrations ≡ 0))
          (run_order_book F R draw sched time hardware threshold now seed clock config)
  unfolding print_summary
  print_summary-counts clock config h m some_step few =
      let (c, f, (busy, counted)) = run_order_book-Ends clock config h m in
      let (idle, steps) = counted some_step in
      let zeros = total-AllIdle c.workers idle in
      (
        c,
        f,
        (
          omega (arith, steps, Busy-length 0 config.max_supersteps c.reports busy, few),
          zeros.0,
          zeros.1,
          zeros.2,
        ),
      )

  Sums : ℕ → ℕ → List (WorkerNode (GraphVertex Rng) × MessageBus) × ℕ → Type 0
  Sums left total r = (total + left ≤ r.1) × (r.1 ≤ total + left * 2113)

  benchmark_from-Sums :
      (p : PartitionMap) (left step total : ℕ)
      (ws : List (WorkerNode (GraphVertex Rng) × MessageBus))
      → IsValid p
      → AllReady (graph_class draw) p sched ws
      → AnyLive (graph_class draw) IsOpenVenue ws
      → weigh load ws ≤ 2113
      → total + left * 2113 < 2 ^ 64
      → Gives (Sums left total) (benchmark_from (graph_class draw) p sched time left step ws total)
  unfolding benchmark_from Sums
  benchmark_from-Sums p zero step total ws valid ready live few fits =
      ((ws, total), refl, (omega arith, omega arith))
  benchmark_from-Sums p (suc left) step total ws valid ready live few fits =
      let (r, e, t) =
        run_workers-Round (graph_class draw) IsOpenVenue p sched (graph_class-IsLawful draw)
          (venues-StaysLive draw) valid step (time step) ws ready in
      let (alive, some_active) = t.live live (omega (arith, few)) in
      let sum : u64 (total + r.1) ≡ total + r.1 = omega (arith, fits, few, t.bounded) in
      let (q, f, (low, high)) =
        benchmark_from-Sums p left (suc step) (u64 (total + r.1)) r.0 valid t.ready alive
          (omega (arith, t.same_load, few)) (omega (arith, sum, fits, few, t.bounded)) in
      (q, rw e f, (omega (arith, low, sum, some_active), omega (arith, high, sum, few, t.bounded)))

  -- The benchmark of the engine, with one worker and at least one NUMA node, always ends, and its count, which
  -- does not wrap, is at least one vertex and at most 2,113 vertices for every superstep.
  pub benchmark-bounds :
      (supersteps : ℕ) (config : EngineConfig)
      → config.worker_count ≡ 1
      → 0 < config.numa_nodes
      → supersteps * 2113 < 2 ^ 64
      → Gives
          (λ r. (supersteps ≤ r.1) × (r.1 ≤ supersteps * 2113))
          (benchmark F R draw sched time hardware threshold now seed supersteps config)
  unfolding benchmark Sums
  benchmark-bounds supersteps config h m fits =
      Gives-bind
        (set_up_order_book-IsLoaded F R draw sched time hardware threshold now seed config
          (omega arith) m)
        λ e l.
          let (r, f, (low, high)) =
            benchmark_from-Sums e.pmap supersteps 0 0 e.coordinator.workers l.valid l.ready l.live
              l.few (omega (arith, fits)) in
          (r, f, (omega (arith, low), omega (arith, high)))
