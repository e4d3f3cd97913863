-- ===== src/OrderBook/PriceLevel.antt =====
-- order_book_graph.cpp, `PriceLevelVertex`. `prev_total_qty_` is an `int64_t` that only ever holds a
-- converted `uint64_t` and is compared as one: it is kept as its bit pattern.
pub mod Depth
use pregel.Common.{
  ℕ, ◌+◌, ◌-◌, List, [], ◌∷◌, Bool, true, false, not, ◌&&◌, leb, ltb, ◌==◌, if◌then◌else◌, ℤ, pos,
}
use pregel.Types.{Message, blank_message, MsgType, Side, VertexType, read_fill, write_price}
use pregel.Vertex.{Vertex, new_vertex, vote_to_halt, send_along, of_type}

-- `PriceLevelVertex::State`
pub record LevelState : Type 0 where
  pub price : ℤ
  pub side : Side
  pub total_qty : ℕ
  pub order_count : ℕ
  pub venue_id : ℕ
  pub is_best_level : Bool

pub record PriceLevelVertex : Type 0 where
  pub base : Vertex
  pub state : LevelState
  pub prev_total_qty : ℕ

abbrev pub new_level : ℕ → ℕ → LevelState → PriceLevelVertex
new_level id owner s = record {
  base = new_vertex id VertexType.price_level owner;
  state = s;
  prev_total_qty = 0;
}

unfoldable pub reduce : ℕ → LevelState → LevelState
reduce qty s =
    if leb s.total_qty qty then record s { total_qty = 0; order_count = 0 } else record s {
      total_qty = s.total_qty - qty;
      order_count = if ltb 0 s.order_count then s.order_count - 1 else s.order_count;
    }

-- One round of the loop over the inbox.
unfoldable pub take_message : ℕ → Message → PriceLevelVertex → PriceLevelVertex
take_message step m p = elim m.type [
  | MsgType.order_fill ↦ record p { state = reduce (read_fill m.payload).qty p.state }
  | MsgType.price_update ↦ record p {
    base = send_along (of_type 1) (record m { step = step }) p.base.edges p.base;
  }
  | _ ↦ p
]

unfoldable pub take_inbox : ℕ → List Message → PriceLevelVertex → PriceLevelVertex
take_inbox step [] p = p
take_inbox step (m ∷ ms) p = take_inbox step ms (take_message step m p)

-- `(side == BID) ? a : 0`, and the other way round.
abbrev pub if_bid : Side → ℤ → ℤ
if_bid Side.bid a = a
if_bid Side.ask a = pos 0

abbrev pub if_ask : Side → ℤ → ℤ
if_ask Side.bid a = pos 0
if_ask Side.ask a = a

abbrev pub bid_size : Side → ℕ → ℕ
bid_size Side.bid n = n
bid_size Side.ask n = 0

abbrev pub ask_size : Side → ℕ → ℕ
ask_size Side.bid n = 0
ask_size Side.ask n = n

unfoldable pub level_update : ℕ → LevelState → Message
unfolding write_price
level_update step s = record blank_message {
  type = MsgType.price_update;
  step = step;
  payload = write_price (record {
    bid = if_bid s.side s.price;
    ask = if_ask s.side s.price;
    bid_qty = bid_size s.side s.total_qty;
    ask_qty = ask_size s.side s.total_qty;
  });
}

unfoldable pub publish : ℕ → PriceLevelVertex → PriceLevelVertex
publish step p = if p.state.total_qty == p.prev_total_qty then p else record p {
  base = send_along (of_type 2) (level_update step p.state) p.base.edges p.base;
  prev_total_qty = p.state.total_qty;
}

abbrev pub is_empty {ℓ} : {A : Type ℓ} → List A → Bool
is_empty [] = true
is_empty (x ∷ xs) = false

unfoldable pub halt_if_spent : List Message → PriceLevelVertex → PriceLevelVertex
unfolding vote_to_halt
halt_if_spent inbox p =
    if p.state.total_qty == 0 && is_empty inbox then record p { base = vote_to_halt p.base } else p

unfoldable pub compute : List Message → ℕ → PriceLevelVertex → PriceLevelVertex
compute inbox step p = halt_if_spent inbox (publish step (take_inbox step inbox p))
