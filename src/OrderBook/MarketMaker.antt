-- ===== src/OrderBook/MarketMaker.antt =====
-- order_book_graph.cpp, `MarketMakerVertex`. `int64_t` sums and products are unbounded integers.
-- `inventory_limit` is a double that only ever holds a whole number.
pub mod Position
pub mod Arbitrage
use pregel.Common.{
  ℕ, ◌+◌, ◌*◌, ◌/◌, List, [], ◌∷◌, Bool, true, false, ◌&&◌, ◌||◌, leb, ltb, if◌then◌else◌, ℤ, pos,
  pos_part, neg_part, ltb_ℤ, leb_ℤ, ◌+ℤ◌, ◌-ℤ◌, ◌*ℤ◌, quot_ℤ, int_of,
}
use pregel.Types.{
  Message, blank_message, MsgType, VertexType, read_fill, read_price, write_arb, Fill, PriceUpd,
  u64,
}
use pregel.Vertex.{Vertex, new_vertex, vote_to_halt, send_along, every}
use pregel.OrderBook.PriceLevel.{is_empty}

abbrev pub arb_threshold_bps : ℕ
arb_threshold_bps = 5

-- `MarketMakerVertex::State`
pub record MakerState : Type 0 where
  pub mm_id : ℕ
  pub net_position : ℤ
  pub pnl_fixed : ℤ
  pub fill_count : ℕ
  pub arb_signals_sent : ℕ
  pub inventory_limit : ℕ

pub record MarketMakerVertex : Type 0 where
  pub base : Vertex
  pub state : MakerState
  pub last_known_bid : ℤ
  pub last_known_ask : ℤ

abbrev pub new_maker : ℕ → ℕ → MakerState → MarketMakerVertex
new_maker id owner s = record {
  base = new_vertex id VertexType.market_maker owner;
  state = s;
  last_known_bid = pos 0;
  last_known_ask = pos 0;
}

unfoldable pub take_fill : Fill → MakerState → MakerState
take_fill f s = record s {
  net_position = s.net_position +ℤ int_of f.qty;
  fill_count = u64 (s.fill_count + 1);
  pnl_fixed = s.pnl_fixed -ℤ f.price *ℤ int_of f.qty;
}

unfoldable pub take_price : PriceUpd → MarketMakerVertex → MarketMakerVertex
take_price u v = record v {
  last_known_bid = if ltb_ℤ (pos 0) u.bid then u.bid else v.last_known_bid;
  last_known_ask = if ltb_ℤ (pos 0) u.ask then u.ask else v.last_known_ask;
}

unfoldable pub take_message : Message → MarketMakerVertex → MarketMakerVertex
unfolding take_fill take_price
take_message m v = elim m.type [
  | MsgType.order_fill ↦ record v { state = take_fill (read_fill m.payload) v.state }
  | MsgType.price_update ↦ take_price (read_price m.payload) v
  | _ ↦ v
]

unfoldable pub take_inbox : List Message → MarketMakerVertex → MarketMakerVertex
take_inbox [] v = v
take_inbox (m ∷ ms) v = take_inbox ms (take_message m v)

unfoldable pub spread_bps : ℤ → ℤ → ℤ
spread_bps bid ask =
    let mid = quot_ℤ (bid +ℤ ask) 2 in
    if ltb_ℤ (pos 0) mid then quot_ℤ ((bid -ℤ ask) *ℤ pos 10000) (pos_part mid) else pos 0

-- The tests that guard the signal.
unfoldable pub has_signal : ℤ → ℤ → Bool
has_signal bid ask =
    ltb_ℤ (pos 0) bid
    && (ltb_ℤ (pos 0) ask
        && (ltb_ℤ (pos 0) (bid -ℤ ask) && leb_ℤ (pos arb_threshold_bps) (spread_bps bid ask)))

unfoldable pub arb_message : ℕ → ℤ → Message
unfolding write_arb
arb_message step bps = record blank_message {
  type = MsgType.arbitrage_signal;
  step = step;
  payload = write_arb (record { spread = bps; venue_a = 0; venue_b = 1 });
}

unfoldable pub signal : ℕ → MarketMakerVertex → MarketMakerVertex
signal step v =
    if has_signal v.last_known_bid v.last_known_ask
    then record v {
      base =
          send_along every (arb_message step (spread_bps v.last_known_bid v.last_known_ask))
            v.base.edges v.base;
      state = record v.state { arb_signals_sent = u64 (v.state.arb_signals_sent + 1) };
    }
    else v

-- `std::abs(net_position) > inventory_limit`
abbrev pub over_limit : MakerState → Bool
over_limit s = ltb s.inventory_limit (pos_part s.net_position + neg_part s.net_position)

unfoldable pub check_risk : List Message → MarketMakerVertex → MarketMakerVertex
unfolding vote_to_halt
check_risk inbox v =
    if over_limit v.state || (is_empty inbox && is_empty v.base.outbox)
    then record v { base = vote_to_halt v.base }
    else v

unfoldable pub compute : List Message → ℕ → MarketMakerVertex → MarketMakerVertex
compute inbox step v = check_risk inbox (signal step (take_inbox inbox v))
