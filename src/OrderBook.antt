-- ===== src/OrderBook.antt =====
-- order_book_graph.hpp and .cpp: the four kinds of vertices and the graph that they form.
pub mod Order
pub mod PriceLevel
pub mod Venue
pub mod MarketMaker
pub mod GraphVertex
pub mod Activity
pub mod Settlement
pub mod Graph
