-- ===== src/OrderBook/GraphVertex.antt =====
-- order_book_graph.hpp: the vertex classes of the order-book graph, as one class of vertices.
use pregel.Common.{ℕ, List, ◌≡◌, refl, ℤ}
use pregel.Types.{Message}
use pregel.Vertex.{Vertex}
use pregel.Worker.{VertexClass}
use pregel.Worker.Collect.{IsLawful}
use pregel.OrderBook.Order
use pregel.OrderBook.Order.{OrderVertex}
use pregel.OrderBook.PriceLevel
use pregel.OrderBook.PriceLevel.{PriceLevelVertex}
use pregel.OrderBook.Venue
use pregel.OrderBook.Venue.{VenueVertex}
use pregel.OrderBook.MarketMaker
use pregel.OrderBook.MarketMaker.{MarketMakerVertex}

-- A `std::unique_ptr<Vertex>` of the graph.
pub data GraphVertex (Rng : Type 0) : Type 0 where
  order_vertex : OrderVertex → GraphVertex Rng
  level_vertex : PriceLevelVertex → GraphVertex Rng
  venue_vertex : VenueVertex Rng → GraphVertex Rng
  maker_vertex : MarketMakerVertex → GraphVertex Rng

abbrev pub base_of : {Rng : Type 0} → GraphVertex Rng → Vertex
base_of (order_vertex v) = v.base
base_of (level_vertex v) = v.base
base_of (venue_vertex v) = v.base
base_of (maker_vertex v) = v.base

abbrev pub with_base_of : {Rng : Type 0} → Vertex → GraphVertex Rng → GraphVertex Rng
with_base_of b (order_vertex v) = order_vertex (record v { base = b })
with_base_of b (level_vertex v) = level_vertex (record v { base = b })
with_base_of b (venue_vertex v) = venue_vertex (record v { base = b })
with_base_of b (maker_vertex v) = maker_vertex (record v { base = b })

-- The virtual call `raw->compute(local_inbox, step)`.
abbrev pub compute_of :
    {Rng : Type 0} → (Rng → ℤ × Rng) → List Message → ℕ → GraphVertex Rng → GraphVertex Rng
compute_of draw inbox step (order_vertex v) = order_vertex (Order.compute inbox step v)
compute_of draw inbox step (level_vertex v) = level_vertex (PriceLevel.compute inbox step v)
compute_of draw inbox step (venue_vertex v) = venue_vertex (Venue.compute draw inbox step v)
compute_of draw inbox step (maker_vertex v) = maker_vertex (MarketMaker.compute inbox step v)

abbrev pub graph_class : {Rng : Type 0} → (Rng → ℤ × Rng) → VertexClass (GraphVertex Rng)
graph_class draw = record { base = base_of; with_base = with_base_of; compute = compute_of draw }

pub graph_class-IsLawful : {Rng : Type 0} (draw : Rng → ℤ × Rng) → IsLawful (graph_class draw)
graph_class-IsLawful {Rng = Rng} draw = record { base-with_base = read_back }
  where
    read_back : (b : Vertex) (v : GraphVertex Rng) → base_of (with_base_of b v) ≡ b
    read_back b (order_vertex v) = refl
    read_back b (level_vertex v) = refl
    read_back b (venue_vertex v) = refl
    read_back b (maker_vertex v) = refl
