-- ===== src/Engine.antt =====
-- graph_engine.hpp and .cpp, `GraphEngine`. The graph is a parameter, the list of its vertices. The workers and
-- their buses are shared with the coordinator, and are kept there.
pub mod Distribution
pub mod Lively
pub mod Market
use pregel.Common.{
  ℕ, suc, zero, ◌/◌, List, [], ◌∷◌, Bool, true, set, get_elem?, Option, none, some, ◌>>=◌, ℤ, max,
}
use pregel.Types.{EngineConfig}
use pregel.Partition.{PartitionMap, empty_map, owner_of}
use pregel.Bus.{MessageBus, new_bus}
use pregel.Heartbeat.{Floating}
use pregel.Scheduler.{NumaScheduler, new_scheduler}
use pregel.Worker.{VertexClass, WorkerNode, new_worker, add_vertex}
use pregel.Coordinator.{Schedule, Beat, Coordinator, new_coordinator, run}

pub record GraphEngine (V : Type 0) (F : Floating) : Type 0 where
  pub pmap : PartitionMap
  pub scheduler : NumaScheduler (WorkerNode V)
  pub coordinator : Coordinator V F

-- The loop of `setup_infrastructure` over `left` workers from the worker `i` on.
unfoldable pub new_workers : {V : Type 0} → EngineConfig → ℕ → ℕ → List (WorkerNode V × MessageBus)
new_workers config i zero = []
new_workers config i (suc left) =
    (
      record (new_worker i config) { running = true },
      new_bus i config.worker_count config.enable_rdma_sim,
    )
    ∷ new_workers config (suc i) left

-- What `setup_infrastructure` sets up, on `hardware` threads. The threads of the scheduler start with it.
abbrev pub set_up :
    {V : Type 0} {F : Floating} → ℕ → F.Double → (ℕ → ℤ) → EngineConfig → GraphEngine V F
set_up hardware threshold now config = record {
  pmap = empty_map config.worker_count;
  scheduler = record (new_scheduler config.numa_nodes (max 1 (hardware / config.numa_nodes))) {
    running = true;
  };
  coordinator = new_coordinator config (new_workers config 0 config.worker_count) threshold now;
}

-- `a` after a division by `n`; `none` is the division by zero.
unfoldable pub divided_by {ℓ} : {A : Type ℓ} → ℕ → A → Option A
divided_by zero a = none
divided_by (suc n) a = some a

unfoldable pub setup_infrastructure :
    {V : Type 0} {F : Floating} → ℕ → F.Double → (ℕ → ℤ) → EngineConfig → Option (GraphEngine V F)
setup_infrastructure hardware threshold now config =
    divided_by config.numa_nodes (set_up hardware threshold now config)

module _ {V : Type 0} (C : VertexClass V) where
  -- `workers_[w]->add_vertex(v)`; `none` is the access behind the last worker.
  unfoldable pub add_to :
      ℕ → V → List (WorkerNode V × MessageBus) → Option (List (WorkerNode V × MessageBus))
  add_to w v ws = do x ← get_elem? ws w; some (set ws w (add_vertex C v x.0, x.1))

  unfoldable pub distribute_vertices :
      PartitionMap
      → List V
      → List (WorkerNode V × MessageBus)
      → Option (List (WorkerNode V × MessageBus))
  distribute_vertices p [] ws = some ws
  distribute_vertices p (v ∷ vs) ws = do
    ws' ← add_to (owner_of p (C.base v).id) v ws
    distribute_vertices p vs ws'

  -- `load_graph` with the vertices of the graph.
  unfoldable pub load_graph : {F : Floating} → List V → GraphEngine V F → Option (GraphEngine V F)
  load_graph vs e = do
    ws ← distribute_vertices e.pmap vs e.coordinator.workers
    some (record e { coordinator = record e.coordinator { workers = ws } })

  -- `GraphEngine::run` after its first line.
  unfoldable pub load_and_run :
      {F : Floating}
      → Schedule
      → (ℕ → ℕ → Beat)
      → (ℕ → ℕ)
      → List V
      → GraphEngine V F
      → Option (Coordinator V F)
  load_and_run sched clock time vs e = do
    e' ← load_graph vs e
    run C e'.pmap sched clock time e'.coordinator

  -- `GraphEngine::run`
  unfoldable pub run_engine :
      {F : Floating}
      → Schedule
      → (ℕ → ℕ → Beat)
      → (ℕ → ℕ)
      → ℕ
      → F.Double
      → (ℕ → ℤ)
      → List V
      → EngineConfig
      → Option (Coordinator V F)
  run_engine sched clock time hardware threshold now vs config = do
    e ← setup_infrastructure hardware threshold now config
    load_and_run sched clock time vs e
