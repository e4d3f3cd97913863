-- ===== src/OrderBook/Graph/Loops.antt =====
-- order_book_graph.cpp, the loops of `build_order_book_graph`.
use pregel.Common.{
  ℕ, suc, zero, ◌+◌, List, [], ◌∷◌, ◌++◌, length, get_elem?, min, Option, some, ◌>>=◌,
}
use pregel.Types.{Side, u32}
use pregel.OrderBook.Order.{new_order}
use pregel.OrderBook.PriceLevel.{PriceLevelVertex, new_level}
use pregel.OrderBook.Venue.{new_venue}
use pregel.OrderBook.MarketMaker.{MarketMakerVertex, new_maker}
use pregel.OrderBook.GraphVertex.{order_vertex, level_vertex, venue_vertex, maker_vertex}
use pregel.OrderBook.Graph.{
  Source, OrderBookGraphParams, GraphData, Build, owner_in, edge_to, add_edge, push_edge,
  push_vertex, venue_state, order_state, level_state, maker_state, start,
}

-- The end of a round of the loop over the levels.
unfoldable pub close_level : {S Rng : Type 0} → PriceLevelVertex → Build S Rng → Build S Rng
close_level p b =
    let d = push_vertex (level_vertex p) b.graph in
    record b { graph = record d { price_level_count = u32 (suc d.price_level_count) } }

-- The loop of a market maker over the venues.
unfoldable pub link_venues :
    {Rng : Type 0}
    → List ℕ
    → MarketMakerVertex
    → GraphData Rng
    → Option (MarketMakerVertex × GraphData Rng)
link_venues [] m d = some (m, d)
link_venues (vid ∷ vids) m d = do
  vs ← push_edge vid (edge_to m.base.id 3) d.vertices
  link_venues vids (record m { base = add_edge (edge_to vid 0) m.base })
      (record d { vertices = vs; total_edges = d.total_edges + 2 })

module _ {S Rng : Type 0} (R : Source S Rng) (w_count : ℕ) where
  -- One round of the first loop.
  unfoldable pub add_venue : ℕ → Build S Rng → Option (Build S Rng)
  add_venue v b = do
    owner ← owner_in w_count b.next_id
    let (vs, rng) = venue_state R v b.rng in
        let d = push_vertex (venue_vertex (new_venue R.seeded b.next_id owner vs)) b.graph in
        some (record b {
          graph = record d { venue_count = suc d.venue_count };
          rng = rng;
          next_id = suc b.next_id;
          venue_ids = b.venue_ids ++ b.next_id ∷ [];
        })

  -- The loops count up from `v` with `left` rounds to go.
  unfoldable pub add_venues : ℕ → ℕ → Build S Rng → Option (Build S Rng)
  add_venues v zero b = some b
  add_venues v (suc left) b = do b' ← add_venue v b; add_venues (suc v) left b'

  -- One round of the loop over the orders of the level `p`, which is in no list yet.
  unfoldable pub add_order :
      PriceLevelVertex → Build S Rng → Option (PriceLevelVertex × Build S Rng)
  add_order p b = do
    owner ← owner_in w_count b.next_id
    let (os, rng) = order_state R p.state.price p.state.side p.state.venue_id b.next_id b.rng in
        let o = new_order b.next_id owner os in
        let d =
          push_vertex (order_vertex (record o { base = add_edge (edge_to p.base.id 0) o.base }))
            b.graph in
        some (
          record p { base = add_edge (edge_to b.next_id 1) p.base },
          record b {
            graph = record d { total_edges = d.total_edges + 2; order_count = suc d.order_count };
            rng = rng;
            next_id = suc b.next_id;
          },
        )

  unfoldable pub add_orders :
      ℕ → PriceLevelVertex → Build S Rng → Option (PriceLevelVertex × Build S Rng)
  add_orders zero p b = some (p, b)
  add_orders (suc left) p b = do r ← add_order p b; add_orders left r.0 r.1

  -- The head of a round of the loop over the levels: the level, with its edge to the venue `vid`.
  unfoldable pub open_level :
      ℕ → ℕ → ℕ → Side → ℕ → Build S Rng → Option (PriceLevelVertex × Build S Rng)
  open_level orders v vid side lvl b = do
    owner ← owner_in w_count b.next_id
    let (ls, rng) = level_state R orders v side lvl b.rng in
        let p = new_level b.next_id owner ls in
        do
          vs ← push_edge vid (edge_to b.next_id 0) b.graph.vertices
          some (
            record p { base = add_edge (edge_to vid 2) p.base },
            record b {
              graph = record b.graph { vertices = vs; total_edges = b.graph.total_edges + 2 };
              rng = rng;
              next_id = suc b.next_id;
              price_level_ids = b.price_level_ids ++ b.next_id ∷ [];
            },
          )

  unfoldable pub add_level : ℕ → ℕ → ℕ → Side → ℕ → Build S Rng → Option (Build S Rng)
  add_level orders v vid side lvl b = do
    r ← open_level orders v vid side lvl b
    r' ← add_orders orders r.0 r.1
    some (close_level r'.0 r'.1)

  unfoldable pub add_levels : ℕ → ℕ → ℕ → Side → ℕ → ℕ → Build S Rng → Option (Build S Rng)
  add_levels orders v vid side lvl zero b = some b
  add_levels orders v vid side lvl (suc left) b = do
    b' ← add_level orders v vid side lvl b
    add_levels orders v vid side (suc lvl) left b'

  -- Both sides of the venue `v`, whose id is `venue_ids[v]`.
  unfoldable pub add_book : ℕ → ℕ → ℕ → Build S Rng → Option (Build S Rng)
  add_book levels orders v b = do
    vid ← get_elem? b.venue_ids v
    b' ← add_levels orders v vid Side.bid 0 levels b
    add_levels orders v vid Side.ask 0 levels b'

  unfoldable pub add_books : ℕ → ℕ → ℕ → ℕ → Build S Rng → Option (Build S Rng)
  add_books levels orders v zero b = some b
  add_books levels orders v (suc left) b = do
    b' ← add_book levels orders v b
    add_books levels orders (suc v) left b'

  -- The loop over the price levels that it samples.
  unfoldable pub sample_levels :
      ℕ → MarketMakerVertex → Build S Rng → Option (MarketMakerVertex × Build S Rng)
  sample_levels zero m b = some (m, b)
  sample_levels (suc left) m b = do
    let (draw, rng) = R.number b.rng in
        do
          i ← owner_in (length b.price_level_ids) draw
          pl ← get_elem? b.price_level_ids i
          sample_levels left (record m { base = add_edge (edge_to pl 2) m.base })
              (record b {
                rng = rng;
                graph = record b.graph { total_edges = suc b.graph.total_edges };
              })

  unfoldable pub add_maker : ℕ → Build S Rng → Option (Build S Rng)
  add_maker mm b = do
    owner ← owner_in w_count b.next_id
    let m = new_maker b.next_id owner (maker_state mm) in
        do
          r ← link_venues b.venue_ids m b.graph
          r' ←
              sample_levels (min 20 (length b.price_level_ids)) r.0
                (record b { graph = r.1; next_id = suc b.next_id })
          let d = push_vertex (maker_vertex r'.0) r'.1.graph in
              some (record r'.1 { graph = record d { mm_count = suc d.mm_count } })

  unfoldable pub add_makers : ℕ → ℕ → Build S Rng → Option (Build S Rng)
  add_makers mm zero b = some b
  add_makers mm (suc left) b = do b' ← add_maker mm b; add_makers (suc mm) left b'

unfoldable pub build_order_book_graph :
    {S Rng : Type 0} → Source S Rng → OrderBookGraphParams → S → Option (GraphData Rng)
build_order_book_graph R params s = do
  b ← add_venues R params.worker_count 0 params.venue_count (start s)
  b' ←
      add_books R params.worker_count params.price_levels params.orders_per_level 0
        params.venue_count b
  b'' ← add_makers R params.worker_count 0 params.market_maker_count b'
  some b''.graph
