-- ===== src/OrderBook/Order.antt =====
-- order_book_graph.cpp, `OrderVertex`.
pub mod Fills
pub mod Quotes
use Prim.Native.Nat.{bit_xor}
use pregel.Common.{
  ℕ, ◌+◌, ◌-◌, ◌*◌, ◌^◌, ◌%◌, List, [], ◌∷◌, Bool, true, false, ◌&&◌, ◌||◌, leb, ltb, if◌then◌else◌,
  ℤ, pos, ltb_ℤ, leb_ℤ,
}
use pregel.Types.{
  Message, blank_message, MsgType, Side, u64, u32, VertexType, read_price, read_fill, write_fill,
}
use pregel.Vertex.{Vertex, new_vertex, vote_to_halt, send_along, every}

-- `OrderVertex::State`
pub record OrderState : Type 0 where
  pub limit_price : ℤ
  pub quantity : ℕ
  pub filled_qty : ℕ
  pub side : Side
  pub active : Bool
  pub venue_id : ℕ
  pub trader_id : ℕ
  pub timestamp_ns : ℕ

pub record OrderVertex : Type 0 where
  pub base : Vertex
  pub state : OrderState
  pub best_market_price : ℤ
  pub steps_without_fill : ℕ

abbrev pub new_order : ℕ → ℕ → OrderState → OrderVertex
new_order id owner s = record {
  base = new_vertex id VertexType.order owner;
  state = s;
  best_market_price = pos 0;
  steps_without_fill = 0;
}

unfoldable pub halt_order : OrderVertex → OrderVertex
unfolding vote_to_halt
halt_order o = record o { base = vote_to_halt o.base }

-- `state_.active = false; vote_to_halt();`
unfoldable pub close : OrderVertex → OrderVertex
unfolding halt_order
close o = halt_order (record o { state = record o.state { active = false } })

unfoldable pub quoted_price : Side → Message → ℤ
quoted_price Side.bid m = (read_price m.payload).bid
quoted_price Side.ask m = (read_price m.payload).ask

unfoldable pub take_fill : ℕ → OrderVertex → OrderVertex × Bool
unfolding close
take_fill qty o =
    let filled = u64 (o.state.filled_qty + qty) in
    let o' : OrderVertex = record o { state = record o.state { filled_qty = filled } } in
    if leb o.state.quantity filled then (close o', true) else (o', false)

-- One round of the loop over the inbox; `true` is the early return.
unfoldable pub take_message : Message → OrderVertex → OrderVertex × Bool
unfolding quoted_price take_fill close
take_message m o = elim m.type [
  | MsgType.price_update ↦ (record o { best_market_price = quoted_price o.state.side m }, false)
  | MsgType.order_fill ↦ take_fill (read_fill m.payload).qty o
  | MsgType.cancel_ack ↦ (close o, true)
  | _ ↦ (o, false)
]

unfoldable pub take_inbox : List Message → OrderVertex → OrderVertex × Bool
take_inbox [] o = (o, false)
take_inbox (m ∷ ms) o =
    let (o', returned) = take_message m o in
    elim returned [ true ↦ (o', true) | false ↦ take_inbox ms o' ]

unfoldable pub crosses : Side → ℤ → ℤ → Bool
crosses Side.bid price limit = leb_ℤ price limit
crosses Side.ask price limit = leb_ℤ limit price

unfoldable pub marketable : OrderVertex → Bool
unfolding crosses
marketable o =
    ltb_ℤ (pos 0) o.best_market_price
    && crosses o.state.side o.best_market_price o.state.limit_price

-- `id_ ^ (step << 32)`
abbrev pub trade_id_of : ℕ → ℕ → ℕ
trade_id_of id step = bit_xor id (u64 (step * 2 ^ 32))

unfoldable pub fill_message : ℕ → OrderVertex → Message
unfolding write_fill
fill_message step o = record blank_message {
  type = MsgType.order_fill;
  step = step;
  payload = write_fill (record {
    price = o.state.limit_price;
    qty = u64 (o.state.quantity + 2 ^ 64 - o.state.filled_qty);
    trade_id = trade_id_of o.base.id step;
  });
}

-- What follows the loop.
unfoldable pub quote_or_wait : ℕ → OrderVertex → OrderVertex
unfolding halt_order marketable
quote_or_wait step o =
    if marketable o
    then record o {
      base = send_along every (fill_message step o) o.base.edges o.base;
      steps_without_fill = 0;
    }
    else (let waited = u32 (o.steps_without_fill + 1) in
        let o' : OrderVertex = record o { steps_without_fill = waited } in
        if ltb 10 waited then halt_order o' else o')

unfoldable pub finish : ℕ → OrderVertex × Bool → OrderVertex
unfolding quote_or_wait
finish step (o, true) = o
finish step (o, false) = quote_or_wait step o

unfoldable pub compute : List Message → ℕ → OrderVertex → OrderVertex
unfolding finish halt_order
compute inbox step o = if o.state.active then finish step (take_inbox inbox o) else halt_order o
