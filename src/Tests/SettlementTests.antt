-- ===== src/Tests/SettlementTests.antt =====
-- Two supersteps of a worker of the order-book graph, at a concrete input.
use pregel.Common.{ℕ, ◌+◌, ◌-◌, ◌≡◌, refl, [], ◌∷◌, true, some, find, keys}
use pregel.Types.{default_config}
use pregel.Partition.{empty_map, owner_of}
use pregel.Bus.{MessageBus, new_bus, drain_inbox, network}
use pregel.Bus.Own.{remote_mail}
use pregel.Worker.{WorkerNode, new_worker, compute_phase, run_superstep}
use pregel.Worker.Inboxes.{NoDup, addressed}
use pregel.Worker.Delivery.{sent}
use pregel.OrderBook.Order.Fills.{fills}
use pregel.OrderBook.PriceLevel.{PriceLevelVertex}
use pregel.OrderBook.GraphVertex.{GraphVertex, order_vertex, level_vertex}
use pregel.OrderBook.Settlement.{level_settles}
use pregel.Tests.OrderBookTests.{seen_order, bid_level, count_draw}
use pregel.Tests.WorkerTests.{graph, kept-IsOrder, two-IsValid, rest_bus-IsAtRest}

-- Worker 1 of two, with the marketable bid 5 for the 60 that are left of it, and its level 9.
abbrev book : WorkerNode (GraphVertex ℕ)
book = record (new_worker 1 default_config) {
  vertices = (5, order_vertex seen_order) ∷ (9, level_vertex bid_level) ∷ [];
}

book-NoDup : NoDup (keys book.vertices)
book-NoDup = (refl, (refl, tt))

book-level : find 9 book.vertices ≡ some (level_vertex bid_level)
unfolding find
book-level = refl

owner_of_nine : owner_of (empty_map 2) 9 ≡ 1
unfolding owner_of find
owner_of_nine = refl

book-fills : fills (addressed 9 (sent graph (λ xs. xs) 3 book (new_bus 1 2 true))) ≡ 60
unfolding compute_phase pregel.Worker.run_vertices pregel.Worker.wake
    pregel.Worker.dispatch_messages pregel.Worker.run_vertex find pregel.Common.insert
    pregel.OrderBook.Order.compute pregel.OrderBook.Order.take_inbox pregel.Worker.deliver
    drain_inbox pregel.Bus.take_inbox pregel.Bus.fetch_remote new_bus
    pregel.Rdma.Transport.receive_all pregel.Rdma.Transport.new_transport
    pregel.Rdma.QueuePair.drain_received pregel.Common.int_of pregel.Common.word_of
    pregel.Common.erase pregel.OrderBook.Order.close pregel.OrderBook.Order.crosses
    pregel.OrderBook.Order.fill_message pregel.OrderBook.Order.finish
    pregel.OrderBook.Order.halt_order pregel.OrderBook.Order.marketable
    pregel.OrderBook.Order.quote_or_wait pregel.OrderBook.Order.quoted_price
    pregel.OrderBook.Order.take_fill pregel.OrderBook.Order.take_message
    pregel.Rdma.Transport.drain_pairs pregel.Rdma.Transport.new_pairs pregel.Types.read_fill
    pregel.Types.read_price pregel.Types.write_fill pregel.Vertex.send_along
    pregel.Vertex.send_message pregel.Vertex.vote_to_halt pregel.Vertex.wake_up
    pregel.OrderBook.PriceLevel.compute pregel.OrderBook.PriceLevel.take_inbox
    pregel.OrderBook.PriceLevel.publish pregel.OrderBook.PriceLevel.halt_if_spent
    pregel.OrderBook.PriceLevel.level_update new_worker
book-fills = refl

level_settles_example :
    (r : WorkerNode (GraphVertex ℕ) × (MessageBus × ℕ)) × (run_superstep graph
        (empty_map 2)
        (λ xs. xs)
        3
        6
        book
        (new_bus 1 2 true)
      ≡ some r)
    × (l : PriceLevelVertex) × (find 9 r.0.vertices ≡ some (level_vertex l))
    × (l' : PriceLevelVertex) × (find 9
          (compute_phase graph
            (λ xs. xs)
            4
            (drain_inbox (network (λ w. (1, 50)) r.1.0)).1
            r.0).vertices
        ≡ some (level_vertex l'))
    × (l'.state.total_qty
        ≡ l.state.total_qty
          - (fills (addressed 9 (sent graph (λ xs. xs) 3 book (new_bus 1 2 true)))
              + fills (addressed 9 (remote_mail (network (λ w. (1, 50)) r.1.0)))))
unfolding new_bus
level_settles_example =
    level_settles count_draw (empty_map 2) (λ xs. xs) (λ xs. xs) 3 6 (λ w. (1, 50)) book
      (new_bus 1 2 true) 9 bid_level two-IsValid kept-IsOrder kept-IsOrder book-NoDup
      rest_bus-IsAtRest owner_of_nine book-level
