-- ===== src/Scheduler.antt =====
-- numa_scheduler.hpp and .cpp, `NumaScheduler`: one queue of tasks for each NUMA node.
-- What the tasks do is an update of a state `W` that they share. A duration is in microseconds.
pub mod Threads
pub mod Spikes
pub mod LeastLoaded
use pregel.Common.{
  ℕ, suc, zero, ◌+◌, ◌*◌, ◌-◌, ◌^◌, ◌%◌, ◌==◌, List, [], ◌∷◌, ◌++◌, Bool, true, false, ltb,
  if◌then◌else◌, length, get_elem?, get_or, set, replicate, tail, Option, none, some,
}
use pregel.Types.{u64}

pub record Task (W : Type 0) : Type 0 where
  pub task_id : ℕ
  pub preferred_numa_node : ℕ
  pub fn : W → W
  pub expected_duration : ℕ

pub record LatencyRecord : Type 0 where
  pub task_id : ℕ
  pub numa_node : ℕ
  pub actual : ℕ
  pub expected : ℕ
  pub is_spike : Bool

pub record NumaQueue (W : Type 0) : Type 0 where
  pub tasks : List (Task W)
  pub active_tasks : ℕ

pub record NumaScheduler (W : Type 0) : Type 0 where
  pub numa_nodes : ℕ
  pub threads_per_node : ℕ
  pub queues : List (NumaQueue W)
  pub running : Bool
  pub total_submitted : ℕ
  pub total_completed : ℕ
  pub spike_count : ℕ
  pub migrate_count : ℕ
  pub spikes : List LatencyRecord

abbrev pub spike_threshold : ℕ
spike_threshold = 3

-- The cap of the history.
abbrev pub max_spikes : ℕ
max_spikes = 1000

-- `wait_all` returns: `completed` was loaded before `submitted`.
unfoldable pub wait_done : (completed submitted : ℕ) → Bool
wait_done completed submitted = if ltb completed submitted then false else true

unfoldable pub cap : List LatencyRecord → List LatencyRecord
cap spikes = if ltb max_spikes (length spikes) then tail spikes else spikes

abbrev pub empty_queue : {W : Type 0} → NumaQueue W
empty_queue = record { tasks = []; active_tasks = 0 }

module _ {W : Type 0} where
  unfoldable pub new_scheduler : ℕ → ℕ → NumaScheduler W
  new_scheduler nodes threads = record {
    numa_nodes = nodes;
    threads_per_node = threads;
    queues = replicate nodes empty_queue;
    running = false;
    total_submitted = 0;
    total_completed = 0;
    spike_count = 0;
    migrate_count = 0;
    spikes = [];
  }

  abbrev pub queue_of : ℕ → NumaScheduler W → NumaQueue W
  queue_of node s = get_or s.queues node empty_queue

  abbrev pub with_queue : ℕ → NumaQueue W → NumaScheduler W → NumaScheduler W
  with_queue node q s = record s { queues = set s.queues node q }

  -- The block of `submit` under the lock. A scheduler has nodes: without any the remainder divides by zero.
  unfoldable pub push_task : Task W → NumaScheduler W → NumaScheduler W
  push_task t s =
      let node = t.preferred_numa_node % s.numa_nodes in
      let q = queue_of node s in
      with_queue node
        (record { tasks = q.tasks ++ t ∷ []; active_tasks = u64 (q.active_tasks + 1) }) s

  unfoldable pub count_submitted : NumaScheduler W → NumaScheduler W
  count_submitted s = record s { total_submitted = u64 (s.total_submitted + 1) }

  unfoldable pub submit : Task W → NumaScheduler W → NumaScheduler W
  submit t s = count_submitted (push_task t s)

  unfoldable pub submit_bulk : List (Task W) → NumaScheduler W → NumaScheduler W
  submit_bulk [] s = s
  submit_bulk (t ∷ ts) s = submit_bulk ts (submit t s)

  -- The loop of `least_loaded_node` over the queues of the nodes `i`, `i + 1`, …
  unfoldable pub least_from : ℕ → (best min_load : ℕ) → List (NumaQueue W) → ℕ
  least_from i best min_load [] = best
  least_from i best min_load (q ∷ qs) =
      let found = least_from (suc i) i q.active_tasks qs in
      let kept = least_from (suc i) best min_load qs in
      if ltb q.active_tasks min_load then found else kept

  -- `none` is the read of `queues_[0]` of a scheduler without nodes.
  unfoldable pub least_loaded_node : NumaScheduler W → Option ℕ
  least_loaded_node s = elim s.queues [
    | [] ↦ none
    | q ∷ qs ↦ some (least_from 1 0 q.active_tasks qs)
  ]

  -- `migrate_vertex`, with the node of the vertex afterwards.
  unfoldable pub migrate_vertex : ℕ → NumaScheduler W → Option (ℕ × NumaScheduler W)
  migrate_vertex current s = elim (least_loaded_node s) [
    | none ↦ none
    | some node ↦ some (
        if node == current
        then (current, s)
        else (node, record s { migrate_count = u64 (s.migrate_count + 1) }))
  ]

  unfoldable pub is_spike : ℕ → Task W → Bool
  is_spike actual t = ltb (t.expected_duration * spike_threshold) actual

  abbrev pub latency_of : ℕ → ℕ → Task W → LatencyRecord
  latency_of node actual t = record {
    task_id = t.task_id;
    numa_node = node;
    actual = actual;
    expected = t.expected_duration;
    is_spike = true;
  }

  unfoldable pub count_spike : NumaScheduler W → NumaScheduler W
  count_spike s = record s { spike_count = u64 (s.spike_count + 1) }

  unfoldable pub record_spike : LatencyRecord → NumaScheduler W → NumaScheduler W
  record_spike r s = record s { spikes = cap (s.spikes ++ r ∷ []) }

  unfoldable pub release : ℕ → NumaScheduler W → NumaScheduler W
  release node s =
      let q = queue_of node s in
      with_queue node (record q { active_tasks = u64 (q.active_tasks + 2 ^ 64 - 1) }) s

  unfoldable pub count_completed : NumaScheduler W → NumaScheduler W
  count_completed s = record s { total_completed = u64 (s.total_completed + 1) }
