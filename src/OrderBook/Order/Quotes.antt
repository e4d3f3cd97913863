-- ===== src/OrderBook/Order/Quotes.antt =====
-- `OrderVertex::compute`: when an order sends, and when it gives up.
use pregel.Common.{
  ◌∷◌, ap₂, ◌-◌, Bool, ℤ, pos_part, ◌≤ℤ◌, ◌%◌, ℕ, ◌+◌, ◌^◌, ◌<◌, ◌≡◌, refl, ◌∙◌, sym, ap, subst,
  List, [], ◌++◌, true, false, ltb, if◌then◌else◌, arith,
}
use pregel.Types.{Message, MsgType, Side, PriceUpd, read_price, read_fill, write_fill, IsInt64}
use pregel.Vertex.{Vertex, send_along_lem, every, copies}
use pregel.OrderBook.Order.{
  crosses, close, take_fill, quoted_price, take_message, OrderVertex, halt_order, take_inbox,
  quote_or_wait, finish, compute, marketable, fill_message,
}
use pregel.Common.{int_of-word_of}
use pregel.OrderBook.Order.Fills.{
  fills, NoCancel, take_inbox-Filled, Taken, take_inbox-Taken, compute_active,
}
use pregel.Common.{◌%◌, zero, suc}

-- How an order that goes on ends its step, with what the loop over the inbox left of it.
abbrev pub Quotes : ℕ → OrderVertex → OrderVertex → Type 0
Quotes step p o' =
    (marketable p ≡ true
      → (o'.base.outbox
          ≡ p.base.outbox ++ copies every p.base.id (fill_message step p) p.base.edges)
        × (o'.base.halted ≡ p.base.halted)
        × (o'.steps_without_fill ≡ 0))
    × (marketable p ≡ false
        → (o'.base.outbox ≡ p.base.outbox)
          × (o'.base.halted
              ≡ (if ltb 10 ((p.steps_without_fill + 1) % 2 ^ 32) then true else p.base.halted))
          × (o'.steps_without_fill ≡ (p.steps_without_fill + 1) % 2 ^ 32))

quote_or_wait-Quotes : (step : ℕ) (p : OrderVertex) → Quotes step p (quote_or_wait step p)
unfolding quote_or_wait halt_order
quote_or_wait-Quotes step p = (
  λ e. ground (arith, send_along_lem every (fill_message step p) p.base.edges p.base),
  λ e. ground arith,
)

-- The quote on a side, and the last one of an inbox, where `z` was known before.
abbrev pub on_side : Side → PriceUpd → ℤ
on_side Side.bid u = u.bid
on_side Side.ask u = u.ask

abbrev pub last_quote : Side → ℤ → List Message → ℤ
last_quote side z [] = z
last_quote side z (m ∷ ms) =
    last_quote side
      (elim m.type [ MsgType.price_update ↦ on_side side (read_price m.payload) | _ ↦ z ]) ms

-- The market is positive and at the limit or better: not above that of a bid, not below that of an ask.
abbrev pub IsMarketable : Side → ℤ → ℤ → Type 0
IsMarketable Side.bid price limit = (0 < pos_part price) × (price ≤ℤ limit)
IsMarketable Side.ask price limit = (0 < pos_part price) × (limit ≤ℤ price)

-- What the loop over the inbox leaves alone, and the price that it leaves.
record Seen (o : OrderVertex) (price : ℤ) (r : OrderVertex × Bool) : Type 0 where
  side : r.0.state.side ≡ o.state.side
  limit : r.0.state.limit_price ≡ o.state.limit_price
  steps : r.0.steps_without_fill ≡ o.steps_without_fill
  market : r.1 ≡ false → r.0.best_market_price ≡ price

quoted_price_lem : (s : Side) (m : Message) → quoted_price s m ≡ on_side s (read_price m.payload)
unfolding quoted_price
quoted_price_lem Side.bid m = refl
quoted_price_lem Side.ask m = refl

take_message-Seen :
    (m : Message) (o : OrderVertex)
    → Seen o (last_quote o.state.side o.best_market_price (m ∷ [])) (take_message m o)
unfolding take_message take_fill close halt_order
take_message-Seen m o = ground (arith, quoted_price_lem o.state.side m)

Seen-next :
    (o : OrderVertex) (r : OrderVertex × Bool) (ms : List Message) (first : ℤ)
    → Seen o first r
    → (r.1 ≡ false
        → Seen r.0 (last_quote r.0.state.side r.0.best_market_price ms) (take_inbox ms r.0))
    → Seen o
        (last_quote o.state.side first ms)
        (elim r.1 [ true ↦ (r.0, true) | false ↦ take_inbox ms r.0 ])
Seen-next o (p, true) ms first h ih = record {
  side = h.side;
  limit = h.limit;
  steps = h.steps;
  market = λ e. cc;
}
Seen-next o (p, false) ms first h ih =
    let u = ih refl in
    record {
      side = u.side ∙ h.side;
      limit = u.limit ∙ h.limit;
      steps = u.steps ∙ h.steps;
      market = λ e. u.market e ∙ ap₂ (λ s z. last_quote s z ms) h.side (h.market refl);
    }

take_inbox-Seen :
    (ms : List Message) (o : OrderVertex)
    → Seen o (last_quote o.state.side o.best_market_price ms) (take_inbox ms o)
unfolding take_inbox
take_inbox-Seen [] o = record { side = refl; limit = refl; steps = refl; market = λ e. refl }
take_inbox-Seen (m ∷ ms) o =
    Seen-next o (take_message m o) ms _ (take_message-Seen m o)
      (λ e. take_inbox-Seen ms (take_message m o).0)

marketable_lem :
    (side : Side) (price limit : ℤ) (p : OrderVertex)
    → p.state.side ≡ side
    → p.best_market_price ≡ price
    → p.state.limit_price ≡ limit
    → (IsMarketable side price limit → marketable p ≡ true)
      × (¬ IsMarketable side price limit → marketable p ≡ false)
unfolding marketable crosses
marketable_lem Side.bid price limit p e f g =
    rw (e, f, g) (λ h. ground (arith, h), λ h. ground (arith, h))
marketable_lem Side.ask price limit p e f g =
    rw (e, f, g) (λ h. ground (arith, h), λ h. ground (arith, h))

compute-Quotes :
    (inbox : List Message) (step : ℕ) (o p : OrderVertex)
    → o.state.active ≡ true
    → o.state.filled_qty < o.state.quantity
    → o.state.quantity < 2 ^ 64
    → IsInt64 p.state.limit_price
    → take_inbox inbox o ≡ (p, false)
    → let sent = read_fill (fill_message step p).payload in
      Quotes step p (compute inbox step o)
      × (p.base ≡ o.base)
      × (sent.price ≡ p.state.limit_price)
      × (sent.qty + p.state.filled_qty ≡ o.state.quantity)
      × (0 < sent.qty)
unfolding finish fill_message read_fill write_fill
compute-Quotes inbox step o p a f q i e = (
  subst (Quotes step p) (sym (compute_active inbox step o a ∙ ap (finish step) e))
      (quote_or_wait-Quotes step p),
  t.kept refl,
  int_of-word_of p.state.limit_price i.0 i.1,
  omega (arith, (t.goes_on refl).1, t.same),
  omega (arith, (t.goes_on refl).1, t.same),
)
  where
    t : Taken o (p, false)
    t = subst (Taken o) e (take_inbox-Taken inbox o a f)

-- The offer of `qty` at `price` in the step `step`.
abbrev pub IsOffer : ℕ → ℤ → ℕ → Message → Type 0
IsOffer step price qty m =
    (m.type ≡ MsgType.order_fill)
    × (m.step ≡ step)
    × ((read_fill m.payload).price ≡ price)
    × ((read_fill m.payload).qty ≡ qty)

-- How the order `o` ends a step that leaves `qty` of it open, at the market price `price`.
abbrev pub Offers : ℕ → ℤ → ℕ → OrderVertex → OrderVertex → Type 0
Offers step price qty o o' =
    (IsMarketable o.state.side price o.state.limit_price
      → (m : Message) × IsOffer step o.state.limit_price qty m
        × (o'.base.outbox ≡ o.base.outbox ++ copies every o.base.id m o.base.edges)
        × (o'.base.halted ≡ o.base.halted)
        × (o'.steps_without_fill ≡ 0))
    × (¬ IsMarketable o.state.side price o.state.limit_price
        → (o'.base.outbox ≡ o.base.outbox)
          × (o'.base.halted
              ≡ (if ltb 10 ((o.steps_without_fill + 1) % 2 ^ 32) then true else o.base.halted))
          × (o'.steps_without_fill ≡ (o.steps_without_fill + 1) % 2 ^ 32))

-- An active order that gets no cancellation, and whose fills leave some of it open: the market price is
-- the last quote of its side in the inbox, or the one known before. If it is positive and at the limit or
-- better, exactly what is open is offered on every edge, at the limit price; otherwise the order sends
-- nothing and counts a step without a fill (modulo 2 ^ 32), and it halts at the count 11 and above.
pub compute-Offers :
    (inbox : List Message) (step : ℕ) (o : OrderVertex)
    → o.state.active ≡ true
    → NoCancel inbox
    → o.state.filled_qty + fills inbox < o.state.quantity
    → o.state.quantity < 2 ^ 64
    → IsInt64 o.state.limit_price
    → Offers step
        (last_quote o.state.side o.best_market_price inbox)
        (o.state.quantity - (o.state.filled_qty + fills inbox))
        o
        (compute inbox step o)
unfolding fill_message
compute-Offers inbox step o a n l b i =
    let p = (take_inbox inbox o).0 in
    let f = take_inbox-Filled inbox o a (omega arith) n (omega arith) in
    let on : (take_inbox inbox o).1 ≡ false = f.stopped ∙ ground arith in
    let s = take_inbox-Seen inbox o in
    let q =
      compute-Quotes inbox step o p a (omega arith) b (subst IsInt64 (sym s.limit) i)
        (ap (λ (c : Bool). (p, c)) on) in
    let (due, idle) =
      marketable_lem o.state.side _ o.state.limit_price p s.side (s.market on) s.limit in
    (
      λ h. (
        fill_message step p,
        (refl, refl, q.2 ∙ s.limit, omega (arith, q.3, f.counted on)),
        (q.0.0 (due h)).0
            ∙ ap (λ (v : Vertex). v.outbox ++ copies every v.id (fill_message step p) v.edges) q.1,
        (q.0.0 (due h)).1 ∙ ap (λ (v : Vertex). v.halted) q.1,
        (q.0.0 (due h)).2,
      ),
      λ h. (
        (q.0.1 (idle h)).0 ∙ ap (λ (v : Vertex). v.outbox) q.1,
        (q.0.1 (idle h)).1
            ∙ ap₂ (λ k (c : Bool). if ltb 10 ((k + 1) % 2 ^ 32) then true else c) s.steps
                (ap (λ (v : Vertex). v.halted) q.1),
        (q.0.1 (idle h)).2 ∙ ap (λ k. (k + 1) % 2 ^ 32) s.steps,
      ),
    )

-- `n` steps from `step` on, each with an empty inbox.
pub idle_steps : ℕ → ℕ → OrderVertex → OrderVertex
idle_steps zero step o = o
idle_steps (suc n) step o = compute [] (step + n) (idle_steps n step o)

abbrev waiting : ℕ → OrderVertex → OrderVertex
waiting k o = record o { steps_without_fill = k }
