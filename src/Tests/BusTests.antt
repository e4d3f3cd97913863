-- ===== src/Tests/BusTests.antt =====
-- message_bus.cpp at concrete inputs.
use pregel.Common.{
  ℕ, zero, suc, ◌+◌, ◌<◌, ◌≤◌, ◌≡◌, ◌≢◌, refl, ◌++◌, List, [], ◌∷◌, Bool, true, false, map, length,
  arith, get_or, none, some, replicate,
}
use pregel.Types.{Message, blank_message, u64}
use pregel.Partition.{PartitionMap, empty_map, migrate, IsValid}
use pregel.Bus.{MessageBus, new_bus, enqueue_batch, flush, drain_inbox}
use pregel.Bus.Routing.{Routed, enqueue_batch-Routed}
use pregel.Bus.Flush.{IsLive, bus_wire, flush_routes, new_bus-IsLive}
use pregel.Bus.Loss.{flush_without_rdma}
use pregel.Bus.Barrier.{System, init, run, thread_of}
use pregel.Bus.Barrier.Safety.{IsLetGo, IsBlocked, barrier_safe, barrier_no_deadlock}

abbrev to_vertex : ℕ → Message
to_vertex v = record blank_message { dst = v }

abbrev three_messages : List Message
three_messages = to_vertex 4 ∷ to_vertex 7 ∷ to_vertex 2 ∷ []

-- Vertex 7 has moved to worker 0.
abbrev moved_map : PartitionMap
moved_map = migrate (empty_map 2) 7 0

moved_map-IsValid : IsValid moved_map
unfolding migrate pregel.Common.insert
moved_map-IsValid = omega arith

enqueue_batch-Routed_example :
    (b : MessageBus) × (enqueue_batch moved_map three_messages (new_bus 0 2 true) ≡ some b)
    × Routed moved_map three_messages (new_bus 0 2 true) b
unfolding new_bus migrate
enqueue_batch-Routed_example =
    enqueue_batch-Routed moved_map three_messages (new_bus 0 2 true) moved_map-IsValid refl

-- Both workers' boxes are full.
abbrev loaded_bus : MessageBus
loaded_bus = record (new_bus 0 2 true) { outboxes = (to_vertex 4 ∷ []) ∷ (to_vertex 3 ∷ []) ∷ [] }

loaded_bus-IsLive : IsLive loaded_bus
unfolding new_bus
loaded_bus-IsLive =
    let h = new_bus-IsLive 0 2 in
    record { link = h.link; linked = h.linked; rdma = h.rdma; wired = h.wired; counted = h.counted }

flush_routes_example :
    IsLive (flush 6 loaded_bus)
    × ((flush 6 loaded_bus).inbox ≡ loaded_bus.inbox ++ to_vertex 4 ∷ [])
    × ((u : ℕ)
        → u ≢ loaded_bus.local_id
        → bus_wire (flush 6 loaded_bus) u
          ≡ bus_wire loaded_bus u ++ get_or loaded_bus.outboxes u [])
    × ((flush 6 loaded_bus).outboxes ≡ [] ∷ [] ∷ [])
    × ((flush 6 loaded_bus).msgs_sent ≡ u64 (loaded_bus.msgs_sent + 2))
    × ((flush 6 loaded_bus).msgs_received ≡ loaded_bus.msgs_received)
unfolding new_bus
flush_routes_example = flush_routes 6 loaded_bus loaded_bus-IsLive refl

-- Without RDMA the message to vertex 3 is gone.
abbrev plain_bus : MessageBus
plain_bus = record (new_bus 0 2 false) { outboxes = (to_vertex 4 ∷ []) ∷ (to_vertex 3 ∷ []) ∷ [] }

flush_without_rdma_example :
    ((drain_inbox (flush 6 plain_bus)).1 ≡ plain_bus.inbox ++ to_vertex 4 ∷ [])
    × ((flush 6 plain_bus).outboxes ≡ [] ∷ [] ∷ [])
    × ((flush 6 plain_bus).transport ≡ plain_bus.transport)
unfolding new_bus
flush_without_rdma_example = flush_without_rdma 6 plain_bus refl

-- Two workers; worker 1 opens the barrier and passes it, worker 0 still spins.
abbrev one_passed : System
one_passed = run 2 (init 2) (0 ∷ 1 ∷ 0 ∷ 1 ∷ 1 ∷ 1 ∷ [])

barrier_safe_example :
    ((thread_of one_passed 1).rounds ≤ suc (thread_of one_passed 0).rounds)
    × ((thread_of one_passed 1).rounds ≡ suc (thread_of one_passed 0).rounds → IsLetGo one_passed 0)
barrier_safe_example =
    barrier_safe 2 (0 ∷ 1 ∷ 0 ∷ 1 ∷ 1 ∷ 1 ∷ []) 1 0 (omega arith) (omega arith) (omega arith)
      (omega arith)

one_passed_rounds : ((thread_of one_passed 1).rounds ≡ 1) × ((thread_of one_passed 0).rounds ≡ 0)
unfolding run pregel.Bus.Barrier.turn pregel.Bus.Barrier.advance
one_passed_rounds = (refl, refl)

barrier_no_deadlock_example : ¬ ((i : ℕ) → i < 2 → IsBlocked one_passed i)
barrier_no_deadlock_example =
    barrier_no_deadlock 2 (0 ∷ 1 ∷ 0 ∷ 1 ∷ 1 ∷ 1 ∷ []) (omega arith) (omega arith)
