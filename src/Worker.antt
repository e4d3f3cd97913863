-- ===== src/Worker.antt =====
-- worker_node.hpp and .cpp, `WorkerNode`. The vertices are of any class that has the operations of
-- `Vertex`. Each lock is held for one step; the tasks of a superstep touch separate vertices and are
-- run one after the other, in the order in which the scheduler completes them, a parameter.
pub mod Inboxes
pub mod Compute
pub mod Collect
pub mod Absorb
pub mod Lively
pub mod Refinement
pub mod Kept
pub mod Delivery
use pregel.Common.{
  ℕ, suc, zero, ◌+◌, ◌%◌, ◌==◌, List, [], ◌∷◌, ◌++◌, Bool, true, false, if◌then◌else◌, length,
  Option, none, some, Map, find, insert, erase, ◌>>=◌,
}
use pregel.Types.{Message, EngineConfig, WorkerStats, zero_stats, u64}
use pregel.Vertex.{Vertex, wake_up, clear_outbox, set_owner}
use pregel.Partition.{PartitionMap, migrate}
use pregel.Bus.{MessageBus, drain_inbox, enqueue_batch, flush}
use pregel.Scheduler.{Task}

-- A class derived from `Vertex`: its base part, and its `compute`.
pub record VertexClass (V : Type 0) : Type 0 where
  pub base : V → Vertex
  pub with_base : Vertex → V → V
  pub compute : List Message → ℕ → V → V

pub record WorkerNode (V : Type 0) : Type 0 where
  pub id : ℕ
  pub config : EngineConfig
  pub vertices : Map V
  pub stats : WorkerStats
  pub running : Bool
  pub vertex_inbox : Map (List Message)

abbrev pub inbox_at : ℕ → Map (List Message) → List Message
inbox_at k m = elim (find k m) [ none ↦ [] | some l ↦ l ]

abbrev pub has_inbox : ℕ → Map (List Message) → Bool
has_inbox k m = elim (find k m) [ none ↦ false | some l ↦ true ]

unfoldable pub deliver : List Message → Map (List Message) → Map (List Message)
deliver [] m = m
deliver (x ∷ xs) m = deliver xs (insert x.dst (inbox_at x.dst m ++ x ∷ []) m)

module _ {V : Type 0} where
  unfoldable pub new_worker : ℕ → EngineConfig → WorkerNode V
  new_worker id config = record {
    id = id;
    config = config;
    vertices = [];
    stats = zero_stats;
    running = false;
    vertex_inbox = [];
  }

  unfoldable pub vertex_count : WorkerNode V → ℕ
  vertex_count w = length w.vertices

  unfoldable pub dispatch_messages : List Message → WorkerNode V → WorkerNode V
  dispatch_messages ms w = record w {
    vertex_inbox = deliver ms w.vertex_inbox;
    stats = record w.stats { messages_received = u64 (w.stats.messages_received + length ms) };
  }

  unfoldable pub finish_superstep : WorkerNode V → WorkerNode V
  finish_superstep w = record w {
    stats = record w.stats { supersteps_completed = u64 (w.stats.supersteps_completed + 1) };
  }

module _ {V : Type 0} (C : VertexClass V) where
  unfoldable pub add_vertex : V → WorkerNode V → WorkerNode V
  add_vertex v w = record w { vertices = insert (C.base v).id v w.vertices }

  -- One round of `absorb_partition`.
  unfoldable pub absorb : V → WorkerNode V × PartitionMap → WorkerNode V × PartitionMap
  absorb v a = (
    record a.0 {
      vertices = insert (C.base v).id (C.with_base (set_owner a.0.id (C.base v)) v) a.0.vertices;
      stats = record a.0.stats { migrations_performed = u64 (a.0.stats.migrations_performed + 1) };
    },
    migrate a.1 (C.base v).id a.0.id,
  )

  -- `absorb_partition`, with the shared partition map.
  unfoldable pub absorb_partition :
      List V → WorkerNode V × PartitionMap → WorkerNode V × PartitionMap
  absorb_partition [] a = a
  absorb_partition (v ∷ vs) a = absorb_partition vs (absorb v a)

  -- The loop that builds the tasks: the vertices with the halted ones of them woken that have messages, and the
  -- vertices that get a task.
  unfoldable pub wake : Map (List Message) → Map V → Map V × List ℕ
  wake boxes [] = ([], [])
  wake boxes ((vid, v) ∷ m) =
      let (m', vids) = wake boxes m in
      if (C.base v).halted
      then (if has_inbox vid boxes
          then ((vid, C.with_base (wake_up (C.base v)) v) ∷ m', vid ∷ vids)
          else ((vid, v) ∷ m', vids))
      else ((vid, v) ∷ m', vid ∷ vids)

  -- `fn` of the task of the vertex `vid`.
  unfoldable pub run_vertex : ℕ → ℕ → WorkerNode V → WorkerNode V
  run_vertex step vid w = elim (find vid w.vertices) [
    | none ↦ w
    | some v ↦ record w {
      vertices = insert vid (C.compute (inbox_at vid w.vertex_inbox) step v) w.vertices;
      vertex_inbox = erase vid w.vertex_inbox;
      stats = record w.stats { vertices_processed = u64 (w.stats.vertices_processed + 1) };
    }
  ]

  unfoldable pub task_of : ℕ → ℕ → WorkerNode V → Task (WorkerNode V)
  task_of step vid w = record {
    task_id = vid;
    preferred_numa_node = vid % w.config.numa_nodes;
    fn = run_vertex step vid;
    expected_duration = 50;
  }

  -- The tasks of these vertices, one after the other.
  unfoldable pub run_vertices : ℕ → List ℕ → WorkerNode V → WorkerNode V
  run_vertices step [] w = w
  run_vertices step (vid ∷ vids) w = run_vertices step vids (run_vertex step vid w)

  -- `dispatch_messages`, the tasks and `wait_all`.
  unfoldable pub compute_phase : (List ℕ → List ℕ) → ℕ → List Message → WorkerNode V → WorkerNode V
  compute_phase order step ms w =
      let w₁ = dispatch_messages ms w in
      let (m, vids) = wake w₁.vertex_inbox w₁.vertices in
      run_vertices step (order vids) (record w₁ { vertices = m })

  -- The loop of `collect_and_route_outbox`: the vertices with their outboxes cleared, the count of
  -- messages sent, and the bus.
  unfoldable pub collect : PartitionMap → Map V → ℕ → MessageBus → Option (Map V × (ℕ × MessageBus))
  collect p [] sent b = some ([], (sent, b))
  collect p ((vid, v) ∷ m) sent b = elim (C.base v).outbox [
    | [] ↦ do r ← collect p m sent b; some ((vid, v) ∷ r.0, r.1)
    | x ∷ xs ↦ do
      b' ← enqueue_batch p (x ∷ xs) b
      r ← collect p m (u64 (sent + length (x ∷ xs))) b'
      some ((vid, C.with_base (clear_outbox (C.base v)) v) ∷ r.0, r.1)
  ]

  unfoldable pub collect_and_route_outbox :
      PartitionMap → WorkerNode V → MessageBus → Option (WorkerNode V × MessageBus)
  collect_and_route_outbox p w b = do
    r ← collect p w.vertices w.stats.messages_sent b
    some (record w { vertices = r.0; stats = record w.stats { messages_sent = r.1.0 } }, r.1.1)

  unfoldable pub active_count : Map V → ℕ
  active_count [] = 0
  active_count ((vid, v) ∷ m) = if (C.base v).halted then active_count m else suc (active_count m)

  -- `run_superstep` between two barriers, with the active vertices that it returns; `none` is an access
  -- out of range in `enqueue_batch`.
  unfoldable pub run_superstep :
      PartitionMap
      → (List ℕ → List ℕ)
      → ℕ
      → ℕ
      → WorkerNode V
      → MessageBus
      → Option (WorkerNode V × (MessageBus × ℕ))
  run_superstep p order step now w b = do
    r ← collect_and_route_outbox p (compute_phase order step (drain_inbox b).1 w) (drain_inbox b).0
    some (finish_superstep r.0, (flush now r.1, active_count r.0.vertices))
