-- ===== src/OrderBook/Graph.antt =====
-- order_book_graph.cpp, `build_order_book_graph`, and its parameters and result from order_book_graph.hpp.
-- Ids and counters count the vertices and edges in memory, so that only the 32-bit counter of the
-- price levels has its wrap written out. `order_ids` and `latency_us` are read by no code.
pub mod Loops
pub mod Shape
pub mod Steps
pub mod Makers
pub mod Census
use Prim.Native.String.{String}
use pregel.Common.{
  ℕ, suc, zero, ◌+◌, ◌-◌, ◌*◌, ◌%◌, ◌==◌, List, [], ◌∷◌, ◌++◌, Bool, true, false, if◌then◌else◌, ℤ,
  pos, ◌+ℤ◌, ◌-ℤ◌, length, get_elem?, get_or, set, min, Option, none, some, ◌>>=◌,
}
use pregel.Types.{Side, u64, u32}
use pregel.Vertex.{Edge, Vertex}
use pregel.OrderBook.Order.{OrderVertex, OrderState, new_order}
use pregel.OrderBook.PriceLevel.{PriceLevelVertex, LevelState, new_level}
use pregel.OrderBook.Venue.{VenueState, new_venue, fixed_scale, tick_size}
use pregel.OrderBook.MarketMaker.{MarketMakerVertex, MakerState, new_maker}
use pregel.OrderBook.GraphVertex.{
  GraphVertex, order_vertex, level_vertex, venue_vertex, maker_vertex, base_of, with_base_of,
}

-- The random numbers: a draw of `qty_dist`, of `static_cast<int64_t>(price_noise(rng))` and of `rng()`. `seeded` is
-- the generator that a venue seeds for itself, `clock` the time at which the order with an id is made.
pub record Source (S Rng : Type 0) : Type 0 where
  pub quantity : S → ℕ × S
  pub noise : S → ℤ × S
  pub number : S → ℕ × S
  pub seeded : ℕ → Rng
  pub clock : ℕ → ℕ

-- `OrderBookGraphParams`; the seed is the first state of the random numbers.
pub record OrderBookGraphParams : Type 0 where
  pub venue_count : ℕ
  pub price_levels : ℕ
  pub orders_per_level : ℕ
  pub market_maker_count : ℕ
  pub worker_count : ℕ

pub record GraphData (Rng : Type 0) : Type 0 where
  pub vertices : List (GraphVertex Rng)
  pub total_edges : ℕ
  pub venue_count : ℕ
  pub price_level_count : ℕ
  pub order_count : ℕ
  pub mm_count : ℕ

abbrev pub empty_graph : {Rng : Type 0} → GraphData Rng
empty_graph = record {
  vertices = [];
  total_edges = 0;
  venue_count = 0;
  price_level_count = 0;
  order_count = 0;
  mm_count = 0;
}

-- The local variables of `build_order_book_graph`.
pub record Build (S Rng : Type 0) : Type 0 where
  pub graph : GraphData Rng
  pub rng : S
  pub next_id : ℕ
  pub venue_ids : List ℕ
  pub price_level_ids : List ℕ

abbrev pub base_price : ℕ
base_price = 150 * fixed_scale

abbrev pub venue_names : List String
venue_names = "NYSE" ∷ "NASDAQ" ∷ "CBOE" ∷ "BATS" ∷ "IEX" ∷ []

-- `id % w_count`; `none` is the division by zero.
unfoldable pub owner_in : ℕ → ℕ → Option ℕ
owner_in zero id = none
owner_in (suc w) id = some (id % suc w)

abbrev pub edge_to : ℕ → ℕ → Edge
edge_to dst type = record { dst = dst; weight = pos 1; type = type }

-- `edges().push_back(e)`
abbrev pub add_edge : Edge → Vertex → Vertex
add_edge e v = record v { edges = v.edges ++ e ∷ [] }

module _ {Rng : Type 0} where
  -- `data.vertices[i]->edges().push_back(e)`; `none` is the access out of range.
  unfoldable pub push_edge : ℕ → Edge → List (GraphVertex Rng) → Option (List (GraphVertex Rng))
  push_edge i e vs = do
    v ← get_elem? vs i
    some (set vs i (with_base_of (add_edge e (base_of v)) v))

  -- `data.vertices.push_back(v)`
  abbrev pub push_vertex : GraphVertex Rng → GraphData Rng → GraphData Rng
  push_vertex v d = record d { vertices = d.vertices ++ v ∷ [] }

abbrev pub offset : Side → ℕ → ℤ
offset Side.bid lvl = pos 0 -ℤ pos (suc lvl * tick_size)
offset Side.ask lvl = pos (suc lvl * tick_size)

module _ {S Rng : Type 0} (R : Source S Rng) where
  unfoldable pub venue_state : ℕ → S → VenueState × S
  venue_state v s =
      let (bid_noise, s1) = R.noise s in
      let (ask_noise, s2) = R.noise s1 in
      let (bid_size, s3) = R.quantity s2 in
      let (ask_size, s4) = R.quantity s3 in
      (
        record {
          venue_id = v;
          name = get_or venue_names (v % length venue_names) "";
          best_bid = pos (base_price - 100) +ℤ bid_noise;
          best_ask = pos (base_price + 100) +ℤ ask_noise;
          bid_size = bid_size;
          ask_size = ask_size;
          is_primary = v == 0;
        },
        s4,
      )

  unfoldable pub order_state : ℤ → Side → ℕ → ℕ → S → OrderState × S
  order_state price side v id s =
      let (noise, s1) = R.noise s in
      let (quantity, s2) = R.quantity s1 in
      let (trader, s3) = R.number s2 in
      (
        record {
          limit_price = price +ℤ noise;
          quantity = quantity;
          filled_qty = 0;
          side = side;
          active = true;
          venue_id = v;
          trader_id = trader % 1000;
          timestamp_ns = R.clock id;
        },
        s3,
      )

  unfoldable pub level_state : ℕ → ℕ → Side → ℕ → S → LevelState × S
  level_state orders v side lvl s =
      let (noise, s1) = R.noise s in
      let (quantity, s2) = R.quantity s1 in
      (
        record {
          price = pos base_price +ℤ offset side lvl +ℤ noise;
          side = side;
          total_qty = u64 (quantity * orders);
          order_count = u32 orders;
          venue_id = v;
          is_best_level = lvl == 0;
        },
        s2,
      )

abbrev pub maker_state : ℕ → MakerState
maker_state mm = record {
  mm_id = mm;
  net_position = pos 0;
  pnl_fixed = pos 0;
  fill_count = 0;
  arb_signals_sent = 0;
  inventory_limit = 1_000_000;
}

abbrev pub start : {S Rng : Type 0} → S → Build S Rng
start s = record { graph = empty_graph; rng = s; next_id = 0; venue_ids = []; price_level_ids = [] }
