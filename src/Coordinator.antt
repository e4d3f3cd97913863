-- ===== src/Coordinator.antt =====
-- coordinator.hpp and .cpp, `Coordinator`. The workers of a superstep run in parallel, each on its own bus. They
-- share the partition map, which no superstep writes, and the scheduler. The runs here are those in
-- which no `wait_all` returns before all tasks of its worker are completed, as it is with one
-- worker: then what the workers do is independent, and they are run one after the other. With more
-- workers `wait_all` can also return too early, and a superstep can then differ. Each worker is kept with its bus.
-- `SIZE_MAX` is 2 ^ 64 - 1. Printing, the wall clock and the thread that injects a fault are left out.
pub mod Run
pub mod Failover
pub mod Lively
pub mod Summary
pub mod Beats
use pregel.Common.{
  ℕ, suc, zero, ◌+◌, ◌-◌, ◌^◌, ◌==◌, List, [], ◌∷◌, ◌++◌, Bool, true, false, if◌then◌else◌, ltb,
  length, Option, none, some, ◌>>=◌, ℤ,
}
use pregel.Types.{EngineConfig, u64}
use pregel.Partition.{PartitionMap}
use pregel.Bus.{MessageBus, network}
use pregel.Heartbeat.{Floating, HeartbeatDetector, new_detector, receive_heartbeat}
use pregel.Heartbeat.Records.{Event, handle_all}
use pregel.Worker.{VertexClass, WorkerNode, vertex_count, run_superstep}
use pregel.Worker.Inboxes.{IsOrder}

-- What a superstep reports, to the callback if one is set.
pub record Report : Type 0 where
  pub step : ℕ
  pub active : ℕ

pub record Coordinator (V : Type 0) (F : Floating) : Type 0 where
  pub config : EngineConfig
  pub workers : List (WorkerNode V × MessageBus)
  pub hb : HeartbeatDetector F
  pub current_step : ℕ
  pub done : Bool
  pub total_vertices_processed : ℕ
  pub reports : List Report

abbrev pub size_max : ℕ
size_max = 2 ^ 64 - 1

-- The loop of `handle_worker_failure`, which only prints the worker that it finds.
unfoldable pub least_vertices :
    {V : Type 0} → ℕ → (new_owner min_vertices : ℕ) → List (WorkerNode V × MessageBus) → ℕ
least_vertices failed new_owner min_vertices [] = new_owner
least_vertices failed new_owner min_vertices ((w, b) ∷ ws) =
    let kept = least_vertices failed new_owner min_vertices ws in
    let taken = least_vertices failed w.id (vertex_count w) ws in
    if w.id == failed then kept else if ltb (vertex_count w) min_vertices then taken else kept

module _ {V : Type 0} {F : Floating} where
  unfoldable pub new_coordinator :
      EngineConfig → List (WorkerNode V × MessageBus) → F.Double → (ℕ → ℤ) → Coordinator V F
  new_coordinator config workers threshold now = record {
    config = config;
    workers = workers;
    hb =
        new_detector 0 config.worker_count config.heartbeat_interval_ms config.failure_timeout_ms
          threshold true false now;
    current_step = 0;
    done = false;
    total_vertices_processed = 0;
    reports = [];
  }

  unfoldable pub failover_target : ℕ → Coordinator V F → ℕ
  failover_target failed c = least_vertices failed 0 size_max c.workers

-- What a beat finds: its time, and what the monitor and the thread that injects a fault have done to the detector
-- since the beat before.
abbrev pub Beat : Type 0
Beat = ℤ × List Event

-- The beats of the workers below `n`.
unfoldable pub beat_all :
    {F : Floating} → ℕ → (ℕ → Beat) → HeartbeatDetector F → HeartbeatDetector F
beat_all zero beats d = d
beat_all (suc n) beats d =
    let (now, others) = beats n in receive_heartbeat n now (handle_all others (beat_all n beats d))

-- What a round leaves, with the workers and the active vertices after their superstep.
abbrev pub after_round :
    {V : Type 0} {F : Floating}
    → (ℕ → ℕ → Beat)
    → ℕ
    → List (WorkerNode V × MessageBus)
    → ℕ
    → Coordinator V F
    → Coordinator V F
after_round clock step workers active c = record c {
  current_step = step;
  hb = beat_all c.config.worker_count (clock step) c.hb;
  workers = workers;
  reports = c.reports ++ record { step = step; active = active } ∷ [];
  total_vertices_processed = u64 (c.total_vertices_processed + active);
}

-- What is not determined of a run, for each superstep and each worker: the order in which the scheduler
-- completes the tasks, and how far the network threads have come when the worker drains its bus.
pub record Schedule : Type 0 where
  pub orders : ℕ → ℕ → List ℕ → List ℕ
  pub reorders : (step w : ℕ) → IsOrder (orders step w)
  pub rounds : ℕ → ℕ → ℕ → ℕ × ℕ

module _ {V : Type 0} (C : VertexClass V) (p : PartitionMap) (sched : Schedule) where
  -- All workers run a superstep; with the sum of the counts that they return.
  unfoldable pub run_workers :
      ℕ → ℕ → List (WorkerNode V × MessageBus) → Option (List (WorkerNode V × MessageBus) × ℕ)
  run_workers step now [] = some ([], 0)
  run_workers step now ((w, b) ∷ ws) = do
    r ← run_superstep C p (sched.orders step w.id) step now w (network (sched.rounds step w.id) b)
    rest ← run_workers step now ws
    some ((r.0, r.1.0) ∷ rest.0, u64 (r.1.1 + rest.1))

module _ {V : Type 0} (C : VertexClass V) (p : PartitionMap) (sched : Schedule) {F : Floating}
    (clock : ℕ → ℕ → Beat) (time : ℕ → ℕ) where
  -- One round of the loop of `run`, with the number of active vertices.
  unfoldable pub superstep : ℕ → Coordinator V F → Option (Coordinator V F × ℕ)
  superstep step c = do
    r ← run_workers C p sched step (time step) c.workers
    some (after_round clock step r.0 r.1 c, r.1)

  -- The loop from `step` on, with `left` rounds to go.
  unfoldable pub run_from : ℕ → ℕ → Coordinator V F → Option (Coordinator V F)
  run_from zero step c = some c
  run_from (suc left) step c = do
    r ← superstep step c
    elim (r.1 == 0) [ true ↦ some r.0 | false ↦ run_from left (suc step) r.0 ]

  unfoldable pub run : Coordinator V F → Option (Coordinator V F)
  run c = do c' ← run_from c.config.max_supersteps 0 c; some (record c' { done = true })
