-- ===== src/OrderBook/Venue.antt =====
-- order_book_graph.cpp, `VenueVertex`. `int64_t` sums are unbounded integers: their overflow is undefined
-- in C++. The random number generator and the normal distribution are a parameter: a state, and a
-- draw of `static_cast<int64_t>(noise(rng_))` from it. `latency_us` is read by no code.
pub mod Nbbo
use Prim.Native.String.{String}
use pregel.Common.{
  ℕ, ◌+◌, ◌*◌, List, [], ◌∷◌, Bool, true, false, ◌||◌, leb, ltb, ◌==◌, if◌then◌else◌, ℤ, pos,
  pos_part, neg_part, ltb_ℤ, ◌+ℤ◌, ◌-ℤ◌, quot_ℤ,
}
use pregel.Types.{
  Message, blank_message, MsgType, VertexType, read_price, write_price, PriceUpd, u64, u32,
}
use pregel.Vertex.{Vertex, new_vertex, send_along, every}

abbrev pub fixed_scale : ℕ
fixed_scale = 1_000_000

abbrev pub tick_size : ℕ
tick_size = 100

-- `VenueVertex::State`
pub record VenueState : Type 0 where
  pub venue_id : ℕ
  pub name : String
  pub best_bid : ℤ
  pub best_ask : ℤ
  pub bid_size : ℕ
  pub ask_size : ℕ
  pub is_primary : Bool

pub record VenueVertex (Rng : Type 0) : Type 0 where
  pub base : Vertex
  pub state : VenueState
  pub tick : ℕ
  pub rng : Rng

abbrev pub new_venue : {Rng : Type 0} → (ℕ → Rng) → ℕ → ℕ → VenueState → VenueVertex Rng
new_venue seed id owner s = record {
  base = new_vertex id VertexType.venue owner;
  state = s;
  tick = 0;
  rng = seed (u64 (s.venue_id * 0xDEADBEEF12345678));
}

abbrev pub max_ℤ : ℤ → ℤ → ℤ
max_ℤ a b = if ltb_ℤ a b then b else a

abbrev pub is_zero : ℤ → Bool
is_zero a = pos_part a + neg_part a == 0

unfoldable pub take_bid : PriceUpd → VenueState → VenueState
take_bid u s =
    if ltb_ℤ (pos 0) u.bid
    then record s { best_bid = max_ℤ s.best_bid u.bid; bid_size = u64 (s.bid_size + u.bid_qty) }
    else s

unfoldable pub take_ask : PriceUpd → VenueState → VenueState
take_ask u s =
    if ltb_ℤ (pos 0) u.ask
    then (if is_zero s.best_ask || ltb_ℤ u.ask s.best_ask
        then record s { best_ask = u.ask; ask_size = u64 (s.ask_size + u.ask_qty) }
        else s)
    else s

unfoldable pub take_message : Message → VenueState → VenueState
unfolding take_bid take_ask
take_message m s = elim m.type [
  | MsgType.price_update ↦ take_ask (read_price m.payload) (take_bid (read_price m.payload) s)
  | _ ↦ s
]

unfoldable pub take_inbox : List Message → VenueState → VenueState
take_inbox [] s = s
take_inbox (m ∷ ms) s = take_inbox ms (take_message m s)

-- The middle of the quotes, or the default.
unfoldable pub middle : VenueState → ℤ
middle s =
    let mid = quot_ℤ (s.best_bid +ℤ s.best_ask) 2 in
    if is_zero mid then pos (100_000 * fixed_scale) else mid

-- The new quotes round a middle moved by `noise`.
unfoldable pub reprice : ℤ → VenueState → VenueState
reprice noise s =
    let mid = middle s +ℤ noise in
    record s { best_bid = mid -ℤ pos (tick_size * 2); best_ask = mid +ℤ pos (tick_size * 2) }

unfoldable pub nbbo : ℕ → VenueState → Message
unfolding write_price
nbbo step s = record blank_message {
  type = MsgType.price_update;
  step = step;
  payload =
      write_price
        (record { bid = s.best_bid; ask = s.best_ask; bid_qty = s.bid_size; ask_qty = s.ask_size });
}

module _ {Rng : Type 0} (draw : Rng → ℤ × Rng) where
  unfoldable pub compute : List Message → ℕ → VenueVertex Rng → VenueVertex Rng
  compute inbox step v =
      let (noise, rng') = draw v.rng in
      let s = reprice noise (take_inbox inbox v.state) in
      record {
        base = send_along every (nbbo step s) v.base.edges v.base;
        state = s;
        tick = u32 (v.tick + 1);
        rng = rng';
      }
