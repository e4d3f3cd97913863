-- ===== src/Tests/EngineTests.antt =====
-- graph_engine.cpp at concrete inputs.
use pregel.Common.{ℕ, ◌≡◌, refl, List, [], ◌∷◌, true, length, some, arith, pos}
use pregel.Types.{EngineConfig, default_config}
use pregel.Partition.{empty_map}
use pregel.Bus.{MessageBus, new_bus}
use pregel.Worker.{WorkerNode, VertexClass, new_worker}
use pregel.OrderBook.GraphVertex.{
  GraphVertex, venue_vertex, order_vertex, graph_class, graph_class-IsLawful,
}
use pregel.Coordinator.{Coordinator}
use pregel.Coordinator.Run.{History}
use pregel.Engine.{distribute_vertices, run_engine}
use pregel.Engine.Distribution.{Distributed, distribute_vertices-Distributed, run_engine-History}
use pregel.Tests.OrderBookTests.{one_venue, count_draw, bid_order}
use pregel.Tests.HeartbeatTests.{whole}
use pregel.Tests.WorkerTests.{steady}

abbrev graph : VertexClass (GraphVertex ℕ)
graph = graph_class count_draw

-- The venue 1 and the order 5.
abbrev small_graph : List (GraphVertex ℕ)
small_graph = venue_vertex one_venue ∷ order_vertex bid_order ∷ []

abbrev two_workers : List (WorkerNode (GraphVertex ℕ) × MessageBus)
two_workers =
    (new_worker 0 default_config, new_bus 0 2 true)
    ∷ (new_worker 1 default_config, new_bus 1 2 true)
    ∷ []

distribute_vertices-Distributed_example :
    (ws : List (WorkerNode (GraphVertex ℕ) × MessageBus)) × (distribute_vertices graph
        (empty_map 2)
        small_graph
        two_workers
      ≡ some ws)
    × Distributed graph (empty_map 2) small_graph two_workers ws
distribute_vertices-Distributed_example =
    distribute_vertices-Distributed graph (empty_map 2) small_graph two_workers (omega arith, tt)
      refl

abbrev short : EngineConfig
short = record default_config { worker_count = 1; max_supersteps = 3 }

run_engine-History_example :
    (c : Coordinator (GraphVertex ℕ) whole) × (run_engine graph steady
        (λ step w. (pos step, []))
        (λ step. step)
        8
        8
        (λ w. pos 0)
        small_graph
        short
      ≡ some c)
    × History 0 short.max_supersteps c.reports
    × (length c.workers ≡ short.worker_count)
    × (c.done ≡ true)
run_engine-History_example =
    run_engine-History graph steady (λ step w. (pos step, [])) (λ step. step) 8 8 (λ w. pos 0)
      small_graph short (graph_class-IsLawful count_draw) (omega arith) (omega arith)
