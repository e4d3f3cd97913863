-- ===== src/OrderBook/Venue/Nbbo.antt =====
-- `VenueVertex::compute`: the quotes that a venue publishes.
use pregel.Common.{
  ◌/◌, ◌-◌, suc, negsuc, ◌==◌, ltb, if◌then◌else◌, refl, ◌∙◌, quot_ℤ, arith, ℕ, ◌*◌, ◌≡◌, ap, List,
  ◌++◌, ℤ, pos, ◌+ℤ◌, int_laws, int_of-word_of,
}
use pregel.Types.{Message, MsgType, read_price-write_price, read_price, write_price, IsInt64}
use pregel.Vertex.{Vertex, send_along_lem, every, copies}
use pregel.OrderBook.Venue.{
  VenueState, VenueVertex, take_inbox, middle, reprice, nbbo, compute, tick_size,
}

-- The middle of two quotes whose sum is `s`, rounded towards zero; 100000 in fixed point if that is zero.
abbrev pub half_or_default : ℤ → ℤ
half_or_default (pos n) = if ltb n 2 then pos 100_000_000_000 else pos (n / 2)
half_or_default (negsuc n) = if n == 0 then pos 100_000_000_000 else negsuc (suc n / 2 - 1)

middle_of :
    (s : VenueState) (sum : ℤ) → s.best_bid +ℤ s.best_ask ≡ sum → middle s ≡ half_or_default sum
unfolding middle quot_ℤ
middle_of s (pos n) e = rw e (ground arith)
middle_of s (negsuc n) e = rw e (ground arith)

module _ {Rng : Type 0} (draw : Rng → ℤ × Rng) where
  pub compute-nbbo :
      (inbox : List Message) (step : ℕ) (v : VenueVertex Rng)
      → let w = compute draw inbox step v in
        let upd = read_price (nbbo step w.state).payload in
        (w.state.best_ask ≡ w.state.best_bid +ℤ pos (4 * tick_size))
        × (w.state.best_bid +ℤ pos (2 * tick_size)
            ≡ middle (take_inbox inbox v.state) +ℤ (draw v.rng).0)
        × (w.base.outbox ≡ v.base.outbox ++ copies every v.base.id (nbbo step w.state) v.base.edges)
        × (IsInt64 w.state.best_bid → upd.bid ≡ w.state.best_bid)
        × (IsInt64 w.state.best_ask → upd.ask ≡ w.state.best_ask)
        × (w.base.halted ≡ v.base.halted)
  unfolding compute reprice nbbo read_price write_price
  compute-nbbo inbox step v = (
    omega int_laws,
    omega int_laws,
    ap (λ (u : Vertex). u.outbox) (send_along_lem every _ v.base.edges v.base),
    λ h. int_of-word_of _ h.0 h.1,
    λ h. int_of-word_of _ h.0 h.1,
    ap (λ (u : Vertex). u.halted) (send_along_lem every _ v.base.edges v.base),
  )

  -- Whatever its inbox and the random draw, a venue whose new quotes fit `int64_t` quotes an ask four ticks
  -- above its bid, the two ticks on each side of a middle moved by the draw: the middle of the quotes that the
  -- inbox left, rounded towards zero, or 100000 in fixed point if that is zero. It sends one
  -- update to each neighbour, which carries the step and reads as the new quotes, and as the sizes that the
  -- inbox left; and it never votes to halt.
  pub compute-quotes :
      (inbox : List Message) (step : ℕ) (v : VenueVertex Rng)
      → IsInt64 (compute draw inbox step v).state.best_bid
      → IsInt64 (compute draw inbox step v).state.best_ask
      → let s = take_inbox inbox v.state in
        let w = compute draw inbox step v in
        (w.state.best_ask ≡ w.state.best_bid +ℤ pos 400)
        × (w.state.best_bid +ℤ pos 200
            ≡ half_or_default (s.best_bid +ℤ s.best_ask) +ℤ (draw v.rng).0)
        × ((m : Message) × (m.type ≡ MsgType.price_update)
            × (m.step ≡ step)
            × (read_price m.payload ≡ record {
              bid = w.state.best_bid;
              ask = w.state.best_ask;
              bid_qty = s.bid_size;
              ask_qty = s.ask_size;
            })
            × (w.base.outbox ≡ v.base.outbox ++ copies every v.base.id m v.base.edges))
        × (w.base.halted ≡ v.base.halted)
  unfolding compute reprice nbbo
  compute-quotes inbox step v h k =
      let s = take_inbox inbox v.state in
      let w = compute draw inbox step v in
      let n = compute-nbbo inbox step v in
      (
        n.0,
        n.1 ∙ ap (λ z. z +ℤ (draw v.rng).0) (middle_of s (s.best_bid +ℤ s.best_ask) refl),
        (nbbo step w.state, refl, refl, read_price-write_price _ h k, n.2),
        n.5,
      )
