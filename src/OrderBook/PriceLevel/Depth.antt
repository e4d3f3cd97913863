-- ===== src/OrderBook/PriceLevel/Depth.antt =====
-- `PriceLevelVertex::compute`: the quantity left, and who hears of it.
use pregel.Common.{
  ℕ, ◌+◌, ◌-◌, ◌≤◌, ◌≡◌, refl, ◌∙◌, sym, ap, subst, subst₂, List, [], ◌∷◌, ◌++◌, true, ◌&&◌, ◌==◌,
  if◌then◌else◌, arith, append_assoc, append-nil, ℤ, pos,
}
use pregel.Types.{Message, MsgType, Side, PriceUpd, IsInt64, read_price, read_price-write_price}
use pregel.Vertex.{Vertex, Edge, send_along_lem, of_type, copies}
use pregel.OrderBook.Order.Fills.{fills}
use pregel.OrderBook.PriceLevel.{
  LevelState, PriceLevelVertex, reduce, take_message, take_inbox, level_update, publish,
  halt_if_spent, is_empty, compute,
}

-- The messages that the updates of an inbox are passed on as, to the edges towards orders.
abbrev pub forwards : ℕ → ℕ → List Edge → List Message → List Message
forwards step id es [] = []
forwards step id es (m ∷ ms) =
    (elim m.type [
      | MsgType.price_update ↦ copies (of_type 1) id (record m { step = step }) es
      | _ ↦ []
    ])
    ++ forwards step id es ms

-- What the loop leaves after fills of `total` and with `sent` passed on.
record Taken (total : ℕ) (sent : List Message) (p q : PriceLevelVertex) : Type 0 where
  left : q.state.total_qty ≡ p.state.total_qty - total
  orders : q.state.order_count ≤ p.state.order_count
  same_side : q.state.side ≡ p.state.side
  same_price : q.state.price ≡ p.state.price
  base : q.base ≡ record p.base { outbox = p.base.outbox ++ sent }
  prev : q.prev_total_qty ≡ p.prev_total_qty

take_message-Taken :
    (step : ℕ) (m : Message) (p : PriceLevelVertex)
    → Taken
        (fills (m ∷ []))
        (forwards step p.base.id p.base.edges (m ∷ []))
        p
        (take_message step m p)
unfolding take_message reduce
take_message-Taken step m p = ground (
  arith,
  send_along_lem (of_type 1) (record m { step = step }) p.base.edges p.base,
  append-nil p.base.outbox,
  append-nil (copies (of_type 1) p.base.id (record m { step = step }) p.base.edges),
)

Taken-trans :
    (a b : ℕ) (s t : List Message) (p q r : PriceLevelVertex)
    → Taken a s p q
    → Taken b t q r
    → Taken (a + b) (s ++ t) p r
Taken-trans a b s t p q r x y = record {
  left = omega (arith, x.left, y.left);
  orders = omega (arith, x.orders, y.orders);
  same_side = y.same_side ∙ x.same_side;
  same_price = y.same_price ∙ x.same_price;
  base = ground (arith, x.base, y.base, append_assoc p.base.outbox s t);
  prev = y.prev ∙ x.prev;
}

take_inbox-Taken :
    (step : ℕ) (ms : List Message) (p : PriceLevelVertex)
    → Taken (fills ms) (forwards step p.base.id p.base.edges ms) p (take_inbox step ms p)
unfolding take_inbox
take_inbox-Taken step [] p = record {
  left = omega arith;
  orders = omega arith;
  same_side = refl;
  same_price = refl;
  base = ground (arith, append-nil p.base.outbox);
  prev = refl;
}
take_inbox-Taken step (m ∷ ms) p =
    subst₂ (λ k l. Taken k l p (take_inbox step ms (take_message step m p))) (omega arith)
      (ap (◌++◌ (forwards step p.base.id p.base.edges (m ∷ [])))
          (ap (λ (v : Vertex). forwards step v.id v.edges ms) first.base)
        ∙ ap (λ l. l ++ forwards step p.base.id p.base.edges ms) (append-nil _))
      (Taken-trans (fills (m ∷ [])) (fills ms) (forwards step p.base.id p.base.edges (m ∷ [])) _ p
        (take_message step m p) (take_inbox step ms (take_message step m p)) first
        (take_inbox-Taken step ms (take_message step m p)))
  where
    first :
        Taken
          (fills (m ∷ []))
          (forwards step p.base.id p.base.edges (m ∷ []))
          p
          (take_message step m p)
    first = take_message-Taken step m p

-- What is sent if the quantity has changed.
abbrev pub news : ℕ → PriceLevelVertex → List Message
news step q =
    if q.state.total_qty == q.prev_total_qty
    then []
    else copies (of_type 2) q.base.id (level_update step q.state) q.base.edges

publish_lem :
    (step : ℕ) (q : PriceLevelVertex)
    → publish step q ≡ record q {
      base = record q.base { outbox = q.base.outbox ++ news step q };
      prev_total_qty = q.state.total_qty;
    }
unfolding publish
publish_lem step q = ground (
  arith,
  send_along_lem (of_type 2) (level_update step q.state) q.base.edges q.base,
  append-nil q.base.outbox,
)

halt_if_spent_lem :
    (inbox : List Message) (q : PriceLevelVertex)
    → halt_if_spent inbox q ≡ record q {
      base = record q.base {
        halted = if q.state.total_qty == 0 && is_empty inbox then true else q.base.halted;
      };
    }
unfolding halt_if_spent
halt_if_spent_lem inbox q = ground arith

abbrev pub DepthAfter : List Message → ℕ → PriceLevelVertex → PriceLevelVertex → Type 0
DepthAfter inbox step p q =
    (q.state.total_qty ≡ p.state.total_qty - fills inbox)
    × (q.state.order_count ≤ p.state.order_count)
    × (q.base.outbox
        ≡ p.base.outbox
          ++ (forwards step p.base.id p.base.edges inbox
              ++ (if q.state.total_qty == p.prev_total_qty
                  then []
                  else copies (of_type 2) p.base.id (level_update step q.state) p.base.edges)))
    × (q.prev_total_qty ≡ q.state.total_qty)
    × (q.base.halted ≡ (if q.state.total_qty == 0 && is_empty inbox then true else p.base.halted))

abbrev ended : List Message → ℕ → PriceLevelVertex → PriceLevelVertex
ended inbox step r = record r {
  base = record r.base {
    outbox = r.base.outbox ++ news step r;
    halted = if r.state.total_qty == 0 && is_empty inbox then true else r.base.halted;
  };
  prev_total_qty = r.state.total_qty;
}

ended-DepthAfter :
    (inbox : List Message) (step : ℕ) (p r : PriceLevelVertex)
    → Taken (fills inbox) (forwards step p.base.id p.base.edges inbox) p r
    → DepthAfter inbox step p (ended inbox step r)
ended-DepthAfter inbox step p r t = (
  t.left,
  t.orders,
  ground (
    arith,
    t.base,
    t.prev,
    append_assoc p.base.outbox (forwards step p.base.id p.base.edges inbox) (news step r),
  ),
  refl,
  ground (arith, t.base),
)

pub compute-DepthAfter :
    (inbox : List Message) (step : ℕ) (p : PriceLevelVertex)
    → DepthAfter inbox step p (compute inbox step p)
unfolding compute
compute-DepthAfter inbox step p =
    subst (DepthAfter inbox step p)
      (sym (
        ap (halt_if_spent inbox) (publish_lem step (take_inbox step inbox p))
        ∙ halt_if_spent_lem inbox _))
      (ended-DepthAfter inbox step p (take_inbox step inbox p) (take_inbox-Taken step inbox p))

-- How a price and a quantity are quoted on a side, with nothing on the other one.
abbrev pub quoted : Side → ℤ → ℕ → PriceUpd
quoted Side.bid price qty = record { bid = price; ask = pos 0; bid_qty = qty; ask_qty = 0 }
quoted Side.ask price qty = record { bid = pos 0; ask = price; bid_qty = 0; ask_qty = qty }

level_update-quoted :
    (step : ℕ) (s : LevelState) (side : Side) (price : ℤ)
    → IsInt64 price
    → s.side ≡ side
    → s.price ≡ price
    → read_price (level_update step s).payload ≡ quoted side price s.total_qty
unfolding level_update
level_update-quoted step s Side.bid price h e f =
    rw (e, f)
      (read_price-write_price (quoted Side.bid price s.total_qty) h (omega arith, omega arith))
level_update-quoted step s Side.ask price h e f =
    rw (e, f)
      (read_price-write_price (quoted Side.ask price s.total_qty) (omega arith, omega arith) h)

-- The step `step` of the level `p` with this inbox, by what `q` is after it, with `m` the update that it publishes.
abbrev pub Publishes : List Message → ℕ → PriceLevelVertex → PriceLevelVertex → Message → Type 0
Publishes inbox step p q m =
    (m.type ≡ MsgType.price_update)
    × (m.step ≡ step)
    × (read_price m.payload ≡ quoted p.state.side p.state.price q.state.total_qty)
    × (q.base.outbox
        ≡ p.base.outbox
          ++ (forwards step p.base.id p.base.edges inbox
              ++ (if q.state.total_qty == p.prev_total_qty
                  then []
                  else copies (of_type 2) p.base.id m p.base.edges)))

compute-same :
    (inbox : List Message) (step : ℕ) (p : PriceLevelVertex)
    → ((compute inbox step p).state.side ≡ p.state.side)
      × ((compute inbox step p).state.price ≡ p.state.price)
unfolding compute publish halt_if_spent
compute-same inbox step p =
    let t = take_inbox-Taken step inbox p in
    (ground (arith, t.same_side), ground (arith, t.same_price))

-- One step of a price level whose price fits `int64_t`: the quantity left is the quantity less all
-- fills of the inbox, or zero; the order count does not grow; every update of the inbox is passed on, in
-- order, to the edges towards orders, and after them, exactly when the quantity left is not the one
-- last published, one update is sent on the edges towards the venue: it carries the step, and reads as
-- the price and the quantity left on the side of the level, and as zero on the other side. What is left
-- is then what was last published. The level votes to halt when nothing is left and the inbox was
-- empty, and its flag is as before otherwise.
pub compute-Publishes :
    (inbox : List Message) (step : ℕ) (p : PriceLevelVertex)
    → IsInt64 p.state.price
    → let q = compute inbox step p in
      (q.state.total_qty ≡ p.state.total_qty - fills inbox)
      × (q.state.order_count ≤ p.state.order_count)
      × ((m : Message) × Publishes inbox step p q m)
      × (q.prev_total_qty ≡ q.state.total_qty)
      × (q.base.halted ≡ (if q.state.total_qty == 0 && is_empty inbox then true else p.base.halted))
unfolding level_update
compute-Publishes inbox step p h =
    let q = compute inbox step p in
    let (left, orders, outbox, prev, halted) = compute-DepthAfter inbox step p in
    let (side, price) = compute-same inbox step p in
    (
      left,
      orders,
      (
        level_update step q.state,
        (
          refl,
          refl,
          level_update-quoted step q.state p.state.side p.state.price h side price,
          outbox,
        ),
      ),
      prev,
      halted,
    )
