-- ===== src/OrderBook/Order/Fills.antt =====
-- `OrderVertex::compute`: how fills and cancellations close an order.
use pregel.Common.{
  not, ℕ, ◌+◌, ◌^◌, ◌<◌, ◌≤◌, ◌≡◌, ◌≢◌, refl, ◌∙◌, sym, ap, subst, List, [], ◌∷◌, Bool, true, false,
  leb, arith, inl, inr, Bool-cases,
}
use pregel.Types.{Message, MsgType, read_fill}
use pregel.OrderBook.Order.{
  OrderState, OrderVertex, halt_order, take_message, take_inbox, quote_or_wait, finish, compute,
}

-- An active order has not been filled.
abbrev pub IsOpen : OrderVertex → Type 0
IsOpen o = o.state.active ≡ true → o.state.filled_qty < o.state.quantity

-- What the loop over the inbox leaves: an order that goes on, or one that is closed and halted.
pub record Taken (o : OrderVertex) (r : OrderVertex × Bool) : Type 0 where
  pub same : r.0.state.quantity ≡ o.state.quantity
  pub outbox : r.0.base.outbox ≡ o.base.outbox
  pub goes_on :
      r.1 ≡ false → (r.0.state.active ≡ true) × (r.0.state.filled_qty < r.0.state.quantity)
  pub kept : r.1 ≡ false → r.0.base ≡ o.base
  pub stops : r.1 ≡ true → (r.0.state.active ≡ false) × (r.0.base.halted ≡ true)

take_message-Taken :
    (m : Message) (o : OrderVertex)
    → o.state.active ≡ true
    → o.state.filled_qty < o.state.quantity
    → Taken o (take_message m o)
unfolding take_message
take_message-Taken m o a f = ground arith

Taken-next :
    (o : OrderVertex) (r : OrderVertex × Bool) (ms : List Message)
    → Taken o r
    → (r.1 ≡ false → Taken r.0 (take_inbox ms r.0))
    → Taken o (elim r.1 [ true ↦ (r.0, true) | false ↦ take_inbox ms r.0 ])
Taken-next o (p, true) ms t ih = t
Taken-next o (p, false) ms t ih =
    let u = ih refl in
    record {
      same = u.same ∙ t.same;
      outbox = u.outbox ∙ t.outbox;
      goes_on = u.goes_on;
      kept = λ e. u.kept e ∙ t.kept refl;
      stops = u.stops;
    }

pub take_inbox-Taken :
    (ms : List Message) (o : OrderVertex)
    → o.state.active ≡ true
    → o.state.filled_qty < o.state.quantity
    → Taken o (take_inbox ms o)
unfolding take_inbox
take_inbox-Taken [] o a f = record {
  same = refl;
  outbox = refl;
  goes_on = λ e. (a, f);
  kept = λ e. refl;
  stops = λ e. cc;
}
take_inbox-Taken (m ∷ ms) o a f =
    let t = take_message-Taken m o a f in
    Taken-next o (take_message m o) ms t
      λ e. take_inbox-Taken ms (take_message m o).0 (t.goes_on e).0 (t.goes_on e).1

-- The quantity filled by the messages of an inbox.
abbrev pub fills : List Message → ℕ
fills [] = 0
fills (m ∷ ms) = (elim m.type [ MsgType.order_fill ↦ (read_fill m.payload).qty | _ ↦ 0 ]) + fills ms

abbrev pub NoCancel : List Message → Type 0
NoCancel [] = Unit
NoCancel (m ∷ ms) = (m.type ≢ MsgType.cancel_ack) × NoCancel ms

-- Where the fills of an inbox leave an order.
pub record Filled (o : OrderVertex) (total : ℕ) (r : OrderVertex × Bool) : Type 0 where
  pub stopped : r.1 ≡ leb o.state.quantity total
  active : r.0.state.active ≡ not (leb o.state.quantity total)
  pub counted : r.1 ≡ false → r.0.state.filled_qty ≡ total

take_message-Filled :
    (m : Message) (o : OrderVertex)
    → o.state.active ≡ true
    → o.state.filled_qty < o.state.quantity
    → m.type ≢ MsgType.cancel_ack
    → o.state.filled_qty + fills (m ∷ []) < 2 ^ 64
    → Filled o (o.state.filled_qty + fills (m ∷ [])) (take_message m o)
unfolding take_message
take_message-Filled m o a f n b = ground arith

Filled-next :
    (o : OrderVertex) (r : OrderVertex × Bool) (ms : List Message) (first rest : ℕ)
    → r.0.state.quantity ≡ o.state.quantity
    → Filled o first r
    → (r.1 ≡ false → Filled r.0 (r.0.state.filled_qty + rest) (take_inbox ms r.0))
    → Filled o (first + rest) (elim r.1 [ true ↦ (r.0, true) | false ↦ take_inbox ms r.0 ])
Filled-next o (p, true) ms first rest q h ih = record {
  stopped = ground (arith, h.stopped);
  active = ground (arith, h.stopped, h.active);
  counted = λ e. cc;
}
Filled-next o (p, false) ms first rest q h ih =
    let u = ih refl in
    record {
      stopped = ground (arith, h.counted refl, u.stopped);
      active = ground (arith, h.counted refl, u.active);
      counted = λ e. ground (arith, h.counted refl, u.counted e);
    }

pub take_inbox-Filled :
    (ms : List Message) (o : OrderVertex)
    → o.state.active ≡ true
    → o.state.filled_qty < o.state.quantity
    → NoCancel ms
    → o.state.filled_qty + fills ms < 2 ^ 64
    → Filled o (o.state.filled_qty + fills ms) (take_inbox ms o)
unfolding take_inbox
take_inbox-Filled [] o a f n b = record {
  stopped = ground arith;
  active = ground arith;
  counted = λ e. omega arith;
}
take_inbox-Filled (m ∷ ms) o a f n b =
    subst (λ k. Filled o k (take_inbox (m ∷ ms) o)) (omega arith)
      (Filled-next o (take_message m o) ms (o.state.filled_qty + fills (m ∷ [])) (fills ms) t.same
        first
        (λ e.
          take_inbox-Filled ms (take_message m o).0 (t.goes_on e).0 (t.goes_on e).1 n.1
            (omega (arith, first.counted e))))
  where
    t : Taken o (take_message m o)
    t = take_message-Taken m o a f

    first : Filled o (o.state.filled_qty + fills (m ∷ [])) (take_message m o)
    first = take_message-Filled m o a f n.0 (omega arith)

quote_or_wait-state : (step : ℕ) (o : OrderVertex) → (quote_or_wait step o).state ≡ o.state
unfolding quote_or_wait
quote_or_wait-state step o = ground arith

pub compute_active :
    (inbox : List Message) (step : ℕ) (o : OrderVertex)
    → o.state.active ≡ true
    → compute inbox step o ≡ finish step (take_inbox inbox o)
unfolding compute
compute_active inbox step o a = ground arith

compute_inactive :
    (inbox : List Message) (step : ℕ) (o : OrderVertex)
    → o.state.active ≡ false
    → compute inbox step o ≡ halt_order o
unfolding compute
compute_inactive inbox step o a = ground arith

finish-IsOpen :
    (step : ℕ) (o : OrderVertex) (r : OrderVertex × Bool) → Taken o r → IsOpen (finish step r)
unfolding finish
finish-IsOpen step o (p, true) t e = cc (t.stops refl).0
finish-IsOpen step o (p, false) t e =
    subst (λ s. s.filled_qty < s.quantity) (sym (quote_or_wait-state step p)) (t.goes_on refl).1

-- How a step of an active order ends, when the fills come to `total`.
abbrev pub EndsAt : OrderVertex → ℕ → OrderVertex → Type 0
EndsAt o total o' =
    (o.state.quantity ≤ total
      → (o'.state.active ≡ false) × (o'.base.halted ≡ true) × (o'.base.outbox ≡ o.base.outbox))
    × (total < o.state.quantity → (o'.state.active ≡ true) × (o'.state.filled_qty ≡ total))

finish-EndsAt :
    (step : ℕ) (o : OrderVertex) (total : ℕ) (r : OrderVertex × Bool)
    → Taken o r
    → Filled o total r
    → EndsAt o total (finish step r)
unfolding finish
finish-EndsAt step o total (p, true) t f =
    (λ l. ((t.stops refl).0, (t.stops refl).1, t.outbox), λ l. absurd (ground (arith, f.stopped)))
finish-EndsAt step o total (p, false) t f = (
  λ l. absurd (ground (arith, f.stopped)),
  λ l. (
    ap (λ (s : OrderState). s.active) (quote_or_wait-state step p) ∙ (t.goes_on refl).0,
    ap (λ (s : OrderState). s.filled_qty) (quote_or_wait-state step p) ∙ f.counted refl,
  ),
)

-- Being open is kept by every step, whatever the messages: an order that is active after a step has
-- less filled than its quantity.
pub compute-IsOpen :
    (inbox : List Message) (step : ℕ) (o : OrderVertex) → IsOpen o → IsOpen (compute inbox step o)
unfolding halt_order
compute-IsOpen inbox step o h = elim (Bool-cases o.state.active) [
  | inl a ↦
      subst IsOpen (sym (compute_active inbox step o a))
        (finish-IsOpen step o (take_inbox inbox o) (take_inbox-Taken inbox o a (h a)))
  | inr a ↦ subst IsOpen (sym (compute_inactive inbox step o a)) h
]

-- An active order that gets no cancellation, and whose fills do not overflow, is closed by a step
-- exactly when what was filled and the fills of the inbox reach its quantity. Then it is halted and
-- sends nothing; otherwise it stays active, and the fills are added up.
pub compute-fills :
    (inbox : List Message) (step : ℕ) (o : OrderVertex)
    → o.state.active ≡ true
    → o.state.filled_qty < o.state.quantity
    → NoCancel inbox
    → o.state.filled_qty + fills inbox < 2 ^ 64
    → EndsAt o (o.state.filled_qty + fills inbox) (compute inbox step o)
compute-fills inbox step o a f n b =
    subst (EndsAt o (o.state.filled_qty + fills inbox)) (sym (compute_active inbox step o a)) (
      finish-EndsAt step o (o.state.filled_qty + fills inbox) (take_inbox inbox o)
        (take_inbox-Taken inbox o a f) (take_inbox-Filled inbox o a f n b))
