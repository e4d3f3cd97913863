-- ===== src/Tests/OrderBookTests.antt =====
-- order_book_graph.cpp at concrete inputs.
use pregel.Common.{
  ◌==◌, ◌-◌, sym, subst, ℕ, ◌+◌, ◌*◌, ◌<◌, ◌≤◌, ◌≡◌, refl, ◌++◌, List, [], ◌∷◌, Bool, true,
  if◌then◌else◌, ℤ, pos, negsuc, ◌+ℤ◌, ◌-ℤ◌, arith, int_laws, ◌&&◌, ◌||◌,
}
use pregel.Types.{Message, blank_message, MsgType, Side, u64, IsInt64, read_fill, read_price}
use pregel.Vertex.{every, copies}
use pregel.OrderBook.Order as O
use pregel.OrderBook.Order.{OrderState, OrderVertex, new_order, fill_message}
use pregel.OrderBook.Order.Fills.{EndsAt, fills, compute-fills}
use pregel.OrderBook.Order.Quotes.{Offers, IsMarketable, last_quote, compute-Offers}
use pregel.OrderBook.PriceLevel as P
use pregel.OrderBook.PriceLevel.{is_empty, LevelState, PriceLevelVertex, new_level}
use pregel.OrderBook.PriceLevel.Depth.{Publishes, compute-Publishes}
use pregel.OrderBook.Venue as V
use pregel.OrderBook.Venue.{VenueState, VenueVertex, new_venue}
use pregel.OrderBook.Venue.Nbbo.{half_or_default, compute-quotes}
use pregel.OrderBook.MarketMaker as M
use pregel.OrderBook.MarketMaker.{MakerState, MarketMakerVertex, new_maker}
use pregel.OrderBook.MarketMaker.Position.{bought, cost, fill_number, compute-books}
use pregel.OrderBook.MarketMaker.Arbitrage.{SendsSignal, compute-SendsSignal}

-- A fill of `qty` at `price`, and an update with these quotes.
abbrev pub fill_of : ℕ → ℕ → Message
fill_of price qty = record blank_message {
  dst = 5;
  payload = record { word0 = price; word1 = qty; word2 = 0; word3 = 0 };
}

abbrev update_of : ℕ → ℕ → Message
update_of bid ask = record blank_message {
  dst = 5;
  type = MsgType.price_update;
  payload = record { word0 = bid; word1 = ask; word2 = 10; word3 = 20 };
}

-- A bid for 100 at 5000 of which 40 are filled.
abbrev pub bid_order : OrderVertex
bid_order =
    let o = new_order 5 0 (record {
      limit_price = pos 5000;
      quantity = 100;
      filled_qty = 40;
      side = Side.bid;
      active = true;
      venue_id = 0;
      trader_id = 1;
      timestamp_ns = 0;
    }) in
    record o { base = record o.base { edges = record { dst = 9; weight = pos 1; type = 0 } ∷ [] } }

compute-fills_example :
    EndsAt bid_order
      (40 + fills (fill_of 4990 30 ∷ fill_of 4990 30 ∷ []))
      (O.compute (fill_of 4990 30 ∷ fill_of 4990 30 ∷ []) 3 bid_order)
unfolding read_fill
compute-fills_example =
    compute-fills (fill_of 4990 30 ∷ fill_of 4990 30 ∷ []) 3 bid_order refl (omega arith)
      (λ e. cc, (λ e. cc, tt)) (omega arith)

-- A bid that has seen the market trade at 4990.
abbrev pub seen_order : OrderVertex
seen_order = record bid_order { best_market_price = pos 4990 }

compute-Offers_example :
    Offers 3
      (last_quote Side.bid bid_order.best_market_price (update_of 4990 5010 ∷ []))
      (100 - (40 + fills (update_of 4990 5010 ∷ [])))
      bid_order
      (O.compute (update_of 4990 5010 ∷ []) 3 bid_order)
compute-Offers_example =
    compute-Offers (update_of 4990 5010 ∷ []) 3 bid_order refl (λ e. cc, tt) (omega arith)
      (omega arith) (omega arith, omega arith)

-- The update makes the bid marketable.
bid_order-IsMarketable :
    IsMarketable Side.bid (last_quote Side.bid (pos 0) (update_of 4990 5010 ∷ [])) (pos 5000)
unfolding read_price pregel.Common.int_of
bid_order-IsMarketable = (omega arith, omega arith)

-- A bid level of 120 with an order at vertex 5 and its venue at vertex 1.
abbrev pub bid_level : PriceLevelVertex
bid_level =
    let p = new_level 9 0 (record {
      price = pos 5000;
      side = Side.bid;
      total_qty = 120;
      order_count = 2;
      venue_id = 1;
      is_best_level = true;
    }) in
    record p {
      base = record p.base {
        edges =
            record { dst = 5; weight = pos 1; type = 1 }
            ∷ record { dst = 1; weight = pos 1; type = 2 }
            ∷ [];
      };
    }

compute-Publishes_example :
    let inbox = fill_of 5000 30 ∷ update_of 4990 5010 ∷ [] in
    let q = P.compute inbox 3 bid_level in
    (q.state.total_qty ≡ 120 - fills inbox)
    × (q.state.order_count ≤ 2)
    × ((m : Message) × Publishes inbox 3 bid_level q m)
    × (q.prev_total_qty ≡ q.state.total_qty)
    × (q.base.halted
        ≡ (if q.state.total_qty == 0 && is_empty inbox then true else bid_level.base.halted))
compute-Publishes_example =
    compute-Publishes (fill_of 5000 30 ∷ update_of 4990 5010 ∷ []) 3 bid_level
      (omega arith, omega arith)

-- A generator that counts, and draws its state.
abbrev pub count_draw : ℕ → ℤ × ℕ
count_draw n = (pos n, n + 1)

abbrev pub one_venue : VenueVertex ℕ
one_venue =
    record (new_venue (λ n. n) 1 0
      (record {
        venue_id = 1;
        name = "NYSE";
        best_bid = pos 0;
        best_ask = pos 0;
        bid_size = 0;
        ask_size = 0;
        is_primary = true;
      })) { rng = 7 }

one_quotes :
    let w = V.compute count_draw (update_of 4990 5010 ∷ []) 3 one_venue in
    (w.state.best_bid ≡ pos 4807) × (w.state.best_ask ≡ pos 5207)
unfolding V.compute V.reprice V.middle V.take_inbox V.take_message V.take_bid V.take_ask read_price
    pregel.Common.int_of pregel.Common.quot_ℤ ◌+ℤ◌ ◌-ℤ◌
one_quotes = (refl, refl)

compute-quotes_example :
    let s = V.take_inbox (update_of 4990 5010 ∷ []) one_venue.state in
    let w = V.compute count_draw (update_of 4990 5010 ∷ []) 3 one_venue in
    (w.state.best_ask ≡ w.state.best_bid +ℤ pos 400)
    × (w.state.best_bid +ℤ pos 200 ≡ half_or_default (s.best_bid +ℤ s.best_ask) +ℤ pos 7)
    × ((m : Message) × (m.type ≡ MsgType.price_update)
        × (m.step ≡ 3)
        × (read_price m.payload ≡ record {
          bid = w.state.best_bid;
          ask = w.state.best_ask;
          bid_qty = s.bid_size;
          ask_qty = s.ask_size;
        })
        × (w.base.outbox
            ≡ one_venue.base.outbox ++ copies every one_venue.base.id m one_venue.base.edges))
    × (w.base.halted ≡ one_venue.base.halted)
compute-quotes_example =
    compute-quotes count_draw (update_of 4990 5010 ∷ []) 3 one_venue
      (subst IsInt64 (sym one_quotes.0) (omega arith, omega arith))
      (subst IsInt64 (sym one_quotes.1) (omega arith, omega arith))

-- A market maker at vertex 2 with one neighbour.
abbrev one_maker : MarketMakerVertex
one_maker =
    let v = new_maker 2 0 (record {
      mm_id = 0;
      net_position = pos 0;
      pnl_fixed = pos 0;
      fill_count = 0;
      arb_signals_sent = 0;
      inventory_limit = 10;
    }) in
    record v { base = record v.base { edges = record { dst = 1; weight = pos 1; type = 3 } ∷ [] } }

compute-books_example :
    let inbox = fill_of 5000 30 ∷ update_of 4990 5010 ∷ fill_of 4000 2 ∷ [] in
    let t = (M.compute inbox 3 one_maker).state in
    (t.net_position ≡ one_maker.state.net_position +ℤ bought inbox)
    × (t.pnl_fixed ≡ one_maker.state.pnl_fixed -ℤ cost inbox)
    × (u64 t.fill_count ≡ u64 (one_maker.state.fill_count + fill_number inbox))
compute-books_example =
    compute-books (fill_of 5000 30 ∷ update_of 4990 5010 ∷ fill_of 4000 2 ∷ []) 3 one_maker

-- The bid of 5100 is above the ask of 5000.
abbrev crossed : List Message
crossed = update_of 5100 5000 ∷ []

crossed_quotes :
    ((M.take_inbox crossed one_maker).last_known_bid ≡ pos 5100)
    × ((M.take_inbox crossed one_maker).last_known_ask ≡ pos 5000)
unfolding M.take_inbox M.take_message M.take_price read_price pregel.Common.int_of
crossed_quotes = (refl, refl)

compute-SendsSignal_example :
    SendsSignal crossed 3 5100 5000 (M.take_inbox crossed one_maker) (M.compute crossed 3 one_maker)
compute-SendsSignal_example =
    compute-SendsSignal crossed 3 5100 5000 one_maker (omega arith) (omega arith) crossed_quotes.0
      crossed_quotes.1
