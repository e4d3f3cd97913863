-- ===== src/Lib.antt =====
-- A simulated distributed graph engine in the manner of Pregel, on an order-book graph: a model
-- of its parts, and theorems about it.
--
-- The program. An engine (graph_engine.cpp) sets up the workers and gives each vertex of the
-- graph to its owner; a coordinator (coordinator.cpp) drives supersteps. In each one every worker
-- (worker_node.cpp) drains its message bus (message_bus.cpp), hands the messages to its vertices,
-- lets a shared scheduler (numa_scheduler.cpp) compute the vertices that are not halted or have
-- messages, collects what they sent into the bus by the owner of the target, flushes the bus, and
-- waits at a barrier of all workers. The bus keeps messages for its own worker and posts those
-- for others on a simulated RDMA link (rdma_transport.cpp). The vertices are those of an order
-- book (order_book_graph.cpp). A detector (heartbeat.cpp) judges which workers have failed.
--
-- Files, by the part that they model:
--   Types, Partition: types.hpp, and PartitionMap of message_bus.hpp.
--   Rdma/QueuePair, Rdma/Transport: QueuePair and RdmaTransport of rdma_transport.cpp. Wire has
--     any interleaving of a poster, the network thread and the readers; Loop runs the network
--     thread until nothing is in flight.
--   Bus: MessageBus (enqueue, enqueue_batch, flush, drain_inbox); Bus/Own is what a worker sends
--     to itself. Bus/Barrier: barrier_sync, one access of the two static atomics in each step of
--     any schedule.
--   Vertex: vertex.hpp. OrderBook/Order, PriceLevel, Venue, MarketMaker: the constructors and
--     compute of the four vertex classes. OrderBook/Settlement has two supersteps of a price
--     level. OrderBook/GraphVertex: their sum, as the class that a worker takes. OrderBook/Graph:
--     build_order_book_graph, its parameters and states; Loops has its loops, Shape, Steps,
--     Makers and Census what they build.
--   Scheduler: the queues and counters of NumaScheduler. Scheduler/Threads: start, stop and
--     worker_thread, one access of the shared state in each step, with any number of submitters;
--     Ran and Quiet have the tasks that have run.
--   Heartbeat: HeartbeatDetector, each call under the lock as one step, and a round of
--     monitor_loop.
--   Worker: WorkerNode over any vertex class (the record VertexClass). Worker/Compute is
--     run_superstep up to wait_all, Worker/Collect the rest. Worker/Refinement puts the first
--     part on the threads of the scheduler. Worker/Kept is what a superstep keeps of the
--     vertices, Worker/Delivery two supersteps and the mail between them. Worker/Lively: vertices
--     that never halt.
--   Coordinator: run, and the choice in handle_worker_failure. Coordinator/Summary: the figures
--     of print_summary. Coordinator/Beats: the beats of a superstep.
--   Engine: run, setup_infrastructure and distribute_vertices of graph_engine.cpp, on any graph.
--     Engine/Market: load_graph, run and benchmark on the order-book graph, and the runs of
--     bench_throughput.cpp; Turns is how often a venue computes in a run.
--   Main: main.cpp, its arguments and main.
--   Common: shared helpers. Tests: the theorems at concrete inputs, and runs.
--
-- State and operations. A class is a record of its fields, a method a function on it that returns
-- the new record, with Option where an access can be out of range. Out-of-range accesses of a
-- vector, which C++ leaves undefined, are none. std::unordered_map is an association list; what
-- is proved of it goes by lookups, or holds for the order of that list. The code under one lock
-- is one step.
--
-- Numbers. Unsigned arithmetic is on natural numbers with the wrap written out, modulo 2 ^ 64 or
-- 2 ^ 32. Message payloads are four 64-bit words, so that the union is read as the code reads it.
-- Sums and products of int64_t are unbounded integers, since their overflow is undefined. Doubles
-- appear in compute_phi only, over the parameter Floating of which nothing is assumed, and in
-- comparisons with whole numbers, which are exact.
--
-- Parameters. The random numbers of a venue are a state with a draw, those of the graph a state
-- with three kinds of draws (the record Source); the clock is a reading at each use; what the
-- monitor and the thread that injects a fault do between two beats of the coordinator is any list
-- of calls to the detector (Beat); the order in which the scheduler completes the tasks of a
-- superstep is any reordering of them, another one for each worker and superstep, and before each
-- superstep of a worker the network threads of its queue pairs make any number of rounds (the
-- record Schedule).
--
-- Fuel. Loops are recursions on their list or counter. network_loop has as many rounds as there
-- are writes in flight, which is enough, since each round takes one write off the wire.
-- Coordinator.run recurs on the supersteps that are left.
--
-- Not modelled: metrics.cpp (empty), what is printed apart from the figures of the summary,
-- throughput figures, the start and join of threads, the memory order of atomics (each access is
-- sequentially consistent). With several workers, wait_all can return too early, since they share
-- one scheduler and a task is counted after it is queued; a vertex may then still compute while
-- its outbox is collected. Coordinator.run leaves such runs out: its workers have their own tasks
-- completed when wait_all returns, are then independent of each other, and are run one after the
-- other. What is said of the supersteps of whole runs is said for one worker, where wait_all does
-- not return early: Worker/Refinement has the tasks of one worker on the scheduler, with no other
-- submitter. What the network threads do during a superstep counts as done before the next one: a
-- delivery after the worker has drained its bus is not seen before that. The callbacks of the
-- failure detector are recorded as calls; the one that the coordinator sets,
-- handle_worker_failure, prints a worker and changes no state.
pub mod Bus
pub mod Common
pub mod Coordinator
pub mod Engine
pub mod Heartbeat
pub mod Main
pub mod OrderBook
pub mod Partition
pub mod Rdma
pub mod Scheduler
pub mod Tests
pub mod Types
pub mod Vertex
pub mod Worker
