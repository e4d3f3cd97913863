-- ===== src/Tests/WorkerTests.antt =====
-- worker_node.cpp and coordinator.cpp at concrete inputs.
use pregel.Common.{
  ◌==◌, if◌then◌else◌, ◌+◌, ℕ, ◌≡◌, refl, ◌++◌, List, [], ◌∷◌, true, if◌then◌else◌, not, ◌&&◌, ◌||◌,
  some, none, arith, length, pos, find, keys, inl,
}
use pregel.Types.{Message, default_config}
use pregel.Vertex.{wake_up}
use pregel.Partition.{empty_map, IsValid}
use pregel.Bus.{MessageBus, new_bus, drain_inbox, network}
use pregel.Worker.{
  WorkerNode, VertexClass, new_worker, inbox_at, has_inbox, compute_phase, run_superstep,
}
use pregel.Worker.Inboxes.{NoDup, IsOrder, addressed, is_none}
use pregel.Worker.Compute.{compute_phase-find}
use pregel.Worker.Kept.{IsAtRest}
use pregel.Worker.Delivery.{sent, after_turn, mail_delivered}
use pregel.Bus.Own.{remote_mail}
use pregel.OrderBook.Graph.{edge_to}
use pregel.Worker.Absorb.{ids, taken_over, IsOwned, absorb_partition-IsOwned}
use pregel.Worker.Inboxes.{elem}
use pregel.Worker.{absorb_partition}
use pregel.Partition.{owner_of}
use pregel.Types.{u64}
use pregel.Worker.Collect.{Superstep, run_superstep-Superstep}
use pregel.OrderBook.GraphVertex.{
  GraphVertex, venue_vertex, order_vertex, base_of, with_base_of, compute_of, graph_class,
  graph_class-IsLawful,
}
use pregel.Coordinator.{Schedule, Coordinator, new_coordinator, failover_target}
use pregel.Coordinator.Failover.{Has, AtLeast, failover_target-AtLeast}
use pregel.Tests.OrderBookTests.{one_venue, count_draw, bid_order, fill_of}
use pregel.Tests.HeartbeatTests.{whole}

abbrev pub graph : VertexClass (GraphVertex ℕ)
graph = graph_class count_draw

pub kept-IsOrder : IsOrder (λ xs. xs)
kept-IsOrder = record { no_dup = λ xs d. d; same = λ xs k. refl }

-- Every worker completes its tasks in the order of their submission, and one write of each queue pair arrives
-- between two supersteps.
abbrev pub steady : Schedule
steady = record {
  orders = λ step w xs. xs;
  reorders = λ step w. kept-IsOrder;
  rounds = λ step w v. (1, step);
}

-- A worker of two, with the venue 1 and the halted order 5.
abbrev halted_order : GraphVertex ℕ
halted_order = order_vertex (record bid_order { base = record bid_order.base { halted = true } })

abbrev pub loaded : WorkerNode (GraphVertex ℕ)
loaded = record (new_worker 0 default_config) {
  vertices = (1, venue_vertex one_venue) ∷ (5, halted_order) ∷ [];
}

abbrev plain_bus : MessageBus
plain_bus = new_bus 0 2 true

abbrev fill : List Message
fill = fill_of 5000 30 ∷ []

pub loaded-found :
    (find 1 loaded.vertices ≡ some (venue_vertex one_venue))
    × (find 5 loaded.vertices ≡ some halted_order)
unfolding find
loaded-found = (refl, refl)

pub loaded-NoDup : NoDup (keys loaded.vertices)
loaded-NoDup = (refl, (refl, tt))

pub two-IsValid : IsValid (empty_map 2)
two-IsValid = (omega arith, tt)

compute_phase-find_example :
    let w' = compute_phase graph (λ xs. xs) 3 fill loaded in
    let has = has_inbox 5 loaded.vertex_inbox || not (is_none (addressed 5 fill)) in
    let v' =
      if (base_of halted_order).halted && has
      then with_base_of (wake_up (base_of halted_order)) halted_order
      else halted_order in
    (find 5 w'.vertices
      ≡ some (
          if not (base_of halted_order).halted || has
          then compute_of count_draw (inbox_at 5 loaded.vertex_inbox ++ addressed 5 fill) 3 v'
          else halted_order))
    × (find 5 w'.vertex_inbox ≡ none)
compute_phase-find_example =
    compute_phase-find graph (λ xs. xs) 3 fill loaded 5 halted_order kept-IsOrder loaded-NoDup
      loaded-found.1

run_superstep-Superstep_example :
    (r : WorkerNode (GraphVertex ℕ) × (MessageBus × ℕ)) × (run_superstep graph
        (empty_map 2)
        (λ xs. xs)
        3
        6
        loaded
        plain_bus
      ≡ some r)
    × Superstep graph
        (empty_map 2)
        6
        (compute_phase graph (λ xs. xs) 3 (drain_inbox plain_bus).1 loaded).vertices
        (drain_inbox plain_bus).0
        r
unfolding new_bus
run_superstep-Superstep_example =
    run_superstep-Superstep graph (empty_map 2) (λ xs. xs) 3 6 loaded plain_bus
      (graph_class-IsLawful count_draw) two-IsValid refl

-- Two workers, the second one without vertices.
abbrev pair : Coordinator (GraphVertex ℕ) whole
pair =
    new_coordinator (record default_config { worker_count = 2; max_supersteps = 3 })
      ((loaded, plain_bus) ∷ (new_worker 1 default_config, new_bus 1 2 true) ∷ []) 8 (λ w. pos 0)

failover_target-AtLeast_example :
    (m : ℕ) × Has 1 (failover_target 1 pair) m pair.workers × AtLeast 1 m pair.workers
unfolding new_coordinator new_worker pregel.Worker.vertex_count
failover_target-AtLeast_example =
    failover_target-AtLeast 1 pair 0 2 (inl (refl, λ e. cc, refl)) (omega arith)

-- Worker 0 takes vertex 7 over, which worker 1 owned.
abbrev migrated : List (GraphVertex ℕ)
migrated =
    order_vertex (record bid_order { base = record bid_order.base { id = 7; owner = 1 } }) ∷ []

absorb_partition-IsOwned_example :
    let b = absorb_partition graph migrated (loaded, empty_map 2) in
    ((k : ℕ) → find k b.0.vertices ≡ taken_over graph loaded.id k migrated (find k loaded.vertices))
    × ((k : ℕ) → elem k (ids graph migrated) ≡ true → IsOwned graph k b.0)
    × ((k : ℕ)
        → owner_of b.1 k
          ≡ (if elem k (ids graph migrated) then b.0.id else owner_of (empty_map 2) k))
    × (b.0.id ≡ loaded.id)
    × IsValid b.1
    × (u64 b.0.stats.migrations_performed ≡ u64 (loaded.stats.migrations_performed + 1))
unfolding new_worker
absorb_partition-IsOwned_example =
    absorb_partition-IsOwned graph migrated loaded (empty_map 2) (graph_class-IsLawful count_draw)
      (omega arith) two-IsValid

-- Worker 1 of two, with the venue 1, which has an edge to the halted order 5.
abbrev linked_venue : GraphVertex ℕ
linked_venue =
    venue_vertex (record one_venue { base = record one_venue.base { edges = edge_to 5 1 ∷ [] } })

abbrev linked : WorkerNode (GraphVertex ℕ)
linked = record (new_worker 1 default_config) {
  vertices = (1, linked_venue) ∷ (5, halted_order) ∷ [];
}

pub rest_bus-IsAtRest : IsAtRest (empty_map 2) (new_bus 1 2 true)
unfolding new_bus
rest_bus-IsAtRest = record { workers = refl; local = omega arith; boxes = refl }

order_of_one : owner_of (empty_map 2) 5 ≡ 1
unfolding owner_of find
order_of_one = refl

linked_sends : length (addressed 5 (sent graph (λ xs. xs) 3 linked (new_bus 1 2 true))) ≡ 1
unfolding compute_phase pregel.Worker.run_vertices pregel.Worker.wake
    pregel.Worker.dispatch_messages find pregel.Worker.deliver drain_inbox pregel.Bus.take_inbox
    pregel.Bus.fetch_remote new_bus pregel.Rdma.Transport.receive_all
    pregel.Rdma.Transport.new_transport pregel.Rdma.QueuePair.drain_received new_worker
    pregel.Worker.run_vertex pregel.Common.insert pregel.OrderBook.Venue.compute
    pregel.Common.int_of pregel.Common.quot_ℤ pregel.Common.word_of pregel.Common.◌+ℤ◌
    pregel.Common.◌-ℤ◌ pregel.Common.erase pregel.OrderBook.Venue.middle pregel.OrderBook.Venue.nbbo
    pregel.OrderBook.Venue.reprice pregel.OrderBook.Venue.take_ask pregel.OrderBook.Venue.take_bid
    pregel.OrderBook.Venue.take_inbox pregel.OrderBook.Venue.take_message
    pregel.Rdma.Transport.drain_pairs pregel.Rdma.Transport.new_pairs pregel.Types.read_price
    pregel.Types.write_price pregel.Vertex.send_along pregel.Vertex.send_message wake_up
linked_sends = refl

mail_delivered_example :
    (r : WorkerNode (GraphVertex ℕ) × (MessageBus × ℕ)) × (run_superstep graph
        (empty_map 2)
        (λ xs. xs)
        3
        6
        linked
        (new_bus 1 2 true)
      ≡ some r)
    × IsAtRest (empty_map 2) r.1.0
    × (u : GraphVertex ℕ) × (find 5 r.0.vertices ≡ some u)
    × (find 5
          (compute_phase graph
            (λ xs. xs)
            4
            (drain_inbox (network (λ w. (1, 50)) r.1.0)).1
            r.0).vertices
        ≡ some (
            after_turn graph 4
              (addressed 5 (sent graph (λ xs. xs) 3 linked (new_bus 1 2 true))
                ++ addressed 5 (remote_mail (network (λ w. (1, 50)) r.1.0)))
              u))
unfolding new_bus find
mail_delivered_example =
    mail_delivered graph (empty_map 2) (λ xs. xs) (λ xs. xs) 3 6 (λ w. (1, 50)) linked
      (new_bus 1 2 true) 5 halted_order (graph_class-IsLawful count_draw) two-IsValid kept-IsOrder
      kept-IsOrder loaded-NoDup rest_bus-IsAtRest order_of_one refl
