-- ===== src/OrderBook/MarketMaker/Arbitrage.antt =====
-- `MarketMakerVertex::compute`: arbitrage signals and halting.
use pregel.Common.{
  ℕ, ◌+◌, ◌-◌, ◌*◌, ◌/◌, ◌<◌, ◌≤◌, ◌≡◌, refl, ◌∙◌, ap₂, dec_lt, List, [], ◌++◌, true, ◌&&◌, ◌||◌,
  leb, ltb, if◌then◌else◌, pos, arith, ◌+ℤ◌, ◌-ℤ◌, ◌*ℤ◌, quot_ℤ, append-nil, int_of-word_of,
}
use native.Mathlib.Nat.{div-le_of_le-mul}
use pregel.Types.{Message, MsgType, read_arb, write_arb, u64}
use pregel.Vertex.{send_along_lem, every, copies}
use pregel.OrderBook.PriceLevel.{is_empty}
use pregel.OrderBook.MarketMaker.{
  MarketMakerVertex, take_inbox, spread_bps, has_signal, arb_message, signal, over_limit,
  check_risk, compute,
}

-- The spread in basis points of a bid `b` above an ask `a`, on positive numbers.
abbrev pub bps_of : ℕ → ℕ → ℕ
bps_of b a = (b - a) * 10000 / ((b + a) / 2)

pos-plus : (b a : ℕ) → pos b +ℤ pos a ≡ pos (b + a)
unfolding ◌+ℤ◌
pos-plus b a = ground arith

pos-minus : (b a : ℕ) → a ≤ b → pos b -ℤ pos a ≡ pos (b - a)
unfolding ◌-ℤ◌
pos-minus b a h = ground arith

pos-times : (n : ℕ) → pos n *ℤ pos 10000 ≡ pos (n * 10000)
unfolding ◌*ℤ◌
pos-times n = ground arith

pos-quot : (n k : ℕ) → 0 < k → quot_ℤ (pos n) k ≡ pos (n / k)
unfolding quot_ℤ
pos-quot n k h = ground arith

spread_bps-pos : (b a : ℕ) → 0 < a → a < b → spread_bps (pos b) (pos a) ≡ pos (bps_of b a)
unfolding spread_bps
spread_bps-pos b a p l =
    rw
      (
        pos-plus b a,
        pos-quot (b + a) 2 (omega arith),
        pos-minus b a (omega arith),
        pos-times (b - a),
      )
      (ground (arith, pos-quot ((b - a) * 10000) ((b + a) / 2) (omega arith)))

-- For positive quotes the guards and the signed arithmetic come to one comparison.
has_signal-pos :
    (b a : ℕ) → 0 < b → 0 < a → has_signal (pos b) (pos a) ≡ (ltb a b && leb 5 (bps_of b a))
unfolding has_signal ◌-ℤ◌
has_signal-pos b a p q = ground (arith, spread_bps-pos b a q)

signals : ℕ → MarketMakerVertex → List Message
signals step v =
    if has_signal v.last_known_bid v.last_known_ask
    then copies every v.base.id (arb_message step (spread_bps v.last_known_bid v.last_known_ask))
        v.base.edges
    else []

signal_lem :
    (step : ℕ) (v : MarketMakerVertex)
    → signal step v ≡ record v {
      base = record v.base { outbox = v.base.outbox ++ signals step v };
      state = record v.state {
        arb_signals_sent =
            if has_signal v.last_known_bid v.last_known_ask
            then u64 (v.state.arb_signals_sent + 1)
            else v.state.arb_signals_sent;
      };
    }
unfolding signal signals
signal_lem step v = ground (
  arith,
  send_along_lem every (arb_message step (spread_bps v.last_known_bid v.last_known_ask))
      v.base.edges v.base,
  append-nil v.base.outbox,
)

check_risk_lem :
    (inbox : List Message) (v : MarketMakerVertex)
    → check_risk inbox v ≡ record v {
      base = record v.base {
        halted =
            if over_limit v.state || (is_empty inbox && is_empty v.base.outbox)
            then true
            else v.base.halted;
      };
    }
unfolding check_risk
check_risk_lem inbox v = ground arith

-- What a step of a market maker does besides its accounts, with the quotes `b` and `a` that its inbox
-- left in `r`.
abbrev pub Signals : List Message → ℕ → ℕ → ℕ → MarketMakerVertex → MarketMakerVertex → Type 0
Signals inbox step b a r w =
    ((a < b) × (5 ≤ bps_of b a)
      → (w.base.outbox
          ≡ r.base.outbox
            ++ copies every r.base.id (arb_message step (pos (bps_of b a))) r.base.edges)
        × (w.state.arb_signals_sent ≡ u64 (r.state.arb_signals_sent + 1)))
    × (¬ ((a < b) × (5 ≤ bps_of b a))
        → (w.base.outbox ≡ r.base.outbox) × (w.state.arb_signals_sent ≡ r.state.arb_signals_sent))
    × (w.base.halted ≡ (
        if over_limit r.state || (is_empty inbox && is_empty w.base.outbox)
        then true
        else r.base.halted))

has_signal_due :
    (r : MarketMakerVertex) (b a : ℕ)
    → 0 < b
    → 0 < a
    → r.last_known_bid ≡ pos b
    → r.last_known_ask ≡ pos a
    → has_signal r.last_known_bid r.last_known_ask ≡ (ltb a b && leb 5 (bps_of b a))
has_signal_due r b a p q e f = ap₂ has_signal e f ∙ has_signal-pos b a p q

signals_due :
    (step : ℕ) (r : MarketMakerVertex) (b a : ℕ)
    → 0 < b
    → 0 < a
    → r.last_known_bid ≡ pos b
    → r.last_known_ask ≡ pos a
    → signals step r ≡ (
        if ltb a b && leb 5 (bps_of b a)
        then copies every r.base.id (arb_message step (pos (bps_of b a))) r.base.edges
        else [])
unfolding signals
signals_due step r b a p q e f = elim (dec_lt a b) [
  | no l ↦ rw (has_signal_due r b a p q e f) (ground arith)
  | yes l ↦ rw (has_signal_due r b a p q e f, ap₂ spread_bps e f ∙ spread_bps-pos b a q l) refl
]

ended-Signals :
    (inbox : List Message) (step b a : ℕ) (r : MarketMakerVertex)
    → 0 < b
    → 0 < a
    → r.last_known_bid ≡ pos b
    → r.last_known_ask ≡ pos a
    → Signals inbox step b a r (check_risk inbox (signal step r))
ended-Signals inbox step b a r p q e f =
    rw (signal_lem step r, check_risk_lem)
      (ground (
        arith,
        signals_due step r b a p q e f,
        has_signal_due r b a p q e f,
        append-nil r.base.outbox,
      ))

compute-Signals :
    (inbox : List Message) (step b a : ℕ) (v : MarketMakerVertex)
    → 0 < b
    → 0 < a
    → (take_inbox inbox v).last_known_bid ≡ pos b
    → (take_inbox inbox v).last_known_ask ≡ pos a
    → Signals inbox step b a (take_inbox inbox v) (compute inbox step v)
unfolding compute
compute-Signals inbox step b a v p q e f = ended-Signals inbox step b a (take_inbox inbox v) p q e f

-- The spread of a bid above an ask is less than twice the middle, with one to spare.
bps_of-le : (b a : ℕ) → 0 < a → a < b → bps_of b a ≤ 20000
bps_of-le b a p l = div-le_of_le-mul ((b + a) / 2) (omega arith)

arb_message-spread :
    (step b a : ℕ)
    → 0 < a
    → a < b
    → read_arb (arb_message step (pos (bps_of b a))).payload
      ≡ record { spread = pos (bps_of b a); venue_a = 0; venue_b = 1 }
unfolding arb_message read_arb write_arb
arb_message-spread step b a p l =
    ground
      (arith, int_of-word_of (pos (bps_of b a)) (omega (arith, bps_of-le b a p l)) (omega arith))

-- A signal of the step `step` with the spread `s` in basis points, between the venues 0 and 1.
abbrev pub IsSignal : ℕ → ℕ → Message → Type 0
IsSignal step s m =
    (m.type ≡ MsgType.arbitrage_signal)
    × (m.step ≡ step)
    × (read_arb m.payload ≡ record { spread = pos s; venue_a = 0; venue_b = 1 })

-- What a step of a market maker does besides its accounts, with the quotes `b` and `a` that its inbox
-- left in `r`.
abbrev pub SendsSignal : List Message → ℕ → ℕ → ℕ → MarketMakerVertex → MarketMakerVertex → Type 0
SendsSignal inbox step b a r w =
    ((a < b) × (5 ≤ bps_of b a)
      → (m : Message) × IsSignal step (bps_of b a) m
        × (w.base.outbox ≡ r.base.outbox ++ copies every r.base.id m r.base.edges)
        × (w.state.arb_signals_sent ≡ u64 (r.state.arb_signals_sent + 1)))
    × (¬ ((a < b) × (5 ≤ bps_of b a))
        → (w.base.outbox ≡ r.base.outbox) × (w.state.arb_signals_sent ≡ r.state.arb_signals_sent))
    × (w.base.halted ≡ (
        if over_limit r.state || (is_empty inbox && is_empty w.base.outbox)
        then true
        else r.base.halted))

-- One step of a market maker that knows positive quotes, a bid `b` and an ask `a` after its inbox: it
-- sends one arbitrage signal on every edge, and counts it, exactly when the bid is above the ask by at
-- least five basis points of their middle; the signal carries the step and reads as the spread in basis points, between
-- the venues 0 and 1. It votes to halt exactly when the position is over its limit, or its inbox and its
-- outbox are empty.
pub compute-SendsSignal :
    (inbox : List Message) (step b a : ℕ) (v : MarketMakerVertex)
    → 0 < b
    → 0 < a
    → (take_inbox inbox v).last_known_bid ≡ pos b
    → (take_inbox inbox v).last_known_ask ≡ pos a
    → SendsSignal inbox step b a (take_inbox inbox v) (compute inbox step v)
unfolding arb_message
compute-SendsSignal inbox step b a v p q e f =
    let s = compute-Signals inbox step b a v p q e f in
    (
      λ due. (
        arb_message step (pos (bps_of b a)),
        (refl, refl, arb_message-spread step b a q due.0),
        (s.0 due).0,
        (s.0 due).1,
      ),
      s.1,
      s.2,
    )
