-- ===== src/Engine/Market.antt =====
-- graph_engine.cpp, `GraphEngine` on the order-book graph: `load_graph`, `run` and `benchmark`, and the runs of
-- bench_throughput.cpp. The throughput that `benchmark` makes of its count, and its printing, are left out.
pub mod Loaded
pub mod Busy
pub mod Turns
use pregel.Common.{ℕ, suc, zero, ◌+◌, ◌/◌, List, [], ◌∷◌, true, false, Option, some, ◌>>=◌, ℤ, max}
use pregel.Types.{EngineConfig, default_config, u64}
use pregel.Partition.{PartitionMap}
use pregel.Bus.{MessageBus}
use pregel.Heartbeat.{Floating}
use pregel.Worker.{VertexClass, WorkerNode}
use pregel.Coordinator.{Schedule, Beat, Coordinator, run_workers, run}
use pregel.OrderBook.GraphVertex.{GraphVertex, graph_class}
use pregel.OrderBook.Graph.{Source, OrderBookGraphParams}
use pregel.OrderBook.Graph.Loops.{build_order_book_graph}
use pregel.Engine.{GraphEngine, setup_infrastructure, load_graph}

-- The parameters that `load_graph` sets.
abbrev pub graph_params : EngineConfig → OrderBookGraphParams
graph_params config = record {
  venue_count = 5;
  price_levels = 10;
  orders_per_level = 20;
  market_maker_count = 8;
  worker_count = config.worker_count;
}

-- The configuration of bench_throughput.cpp for `wc` workers.
abbrev pub bench_config : ℕ → EngineConfig
bench_config wc = record default_config {
  worker_count = wc;
  numa_nodes = max 1 (wc / 2);
  max_supersteps = 20;
  enable_rdma_sim = true;
  enable_fault_injection = false;
}

module _ {V : Type 0} (C : VertexClass V) (p : PartitionMap) (sched : Schedule) (time : ℕ → ℕ) where
  -- The loop of `benchmark` from `step` on, with `left` rounds to go, and the sum of what the workers returned.
  unfoldable pub benchmark_from :
      ℕ → ℕ → List (WorkerNode V × MessageBus) → ℕ → Option (List (WorkerNode V × MessageBus) × ℕ)
  benchmark_from zero step ws total_verts = some (ws, total_verts)
  benchmark_from (suc left) step ws total_verts = do
    r ← run_workers C p sched step (time step) ws
    benchmark_from left (suc step) r.0 (u64 (total_verts + r.1))

module _ {S Rng : Type 0} (F : Floating) (R : Source S Rng) (draw : Rng → ℤ × Rng)
    (sched : Schedule) (time : ℕ → ℕ) (hardware : ℕ) (threshold : F.Double) (now : ℕ → ℤ)
    (seed : S) where
  -- `load_graph`
  unfoldable pub load_order_book :
      GraphEngine (GraphVertex Rng) F → Option (GraphEngine (GraphVertex Rng) F)
  load_order_book e = do
    d ← build_order_book_graph R (graph_params e.coordinator.config) seed
    load_graph (graph_class draw) d.vertices e

  -- `setup_infrastructure(); load_graph();`
  unfoldable pub set_up_order_book : EngineConfig → Option (GraphEngine (GraphVertex Rng) F)
  set_up_order_book config = do
    e ← setup_infrastructure hardware threshold now config
    load_order_book e

  -- `GraphEngine::run`
  unfoldable pub run_order_book :
      (ℕ → ℕ → Beat) → EngineConfig → Option (Coordinator (GraphVertex Rng) F)
  run_order_book clock config = do
    e ← set_up_order_book config
    run (graph_class draw) e.pmap sched clock time e.coordinator

  -- `GraphEngine::benchmark`
  unfoldable pub benchmark :
      ℕ → EngineConfig → Option (List (WorkerNode (GraphVertex Rng) × MessageBus) × ℕ)
  benchmark supersteps config = do
    e ← set_up_order_book config
    benchmark_from (graph_class draw) e.pmap sched time supersteps 0 e.coordinator.workers 0

  -- The loop of bench_throughput.cpp over the worker counts, with the count of each benchmark.
  unfoldable pub bench_all : List ℕ → Option (List ℕ)
  bench_all [] = some []
  bench_all (wc ∷ wcs) = do
    r ← benchmark 10 (bench_config wc)
    rest ← bench_all wcs
    some (r.1 ∷ rest)

  -- `main` of bench_throughput.cpp
  unfoldable pub bench_throughput : Option (List ℕ)
  bench_throughput = bench_all (1 ∷ 2 ∷ 4 ∷ [])
