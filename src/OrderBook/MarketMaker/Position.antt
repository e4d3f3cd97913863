-- ===== src/OrderBook/MarketMaker/Position.antt =====
-- `MarketMakerVertex::compute`: position, profit and counts.
use pregel.Common.{
  ℕ, ◌+◌, ◌≡◌, refl, ◌∙◌, ap, List, [], ◌∷◌, ℤ, pos, ◌+ℤ◌, ◌-ℤ◌, ◌*ℤ◌, int_of, arith, int_laws,
}
use pregel.Types.{Message, MsgType, Fill, read_fill, u64}
use pregel.OrderBook.MarketMaker.{
  MakerState, MarketMakerVertex, take_fill, take_message, take_inbox, signal, check_risk, compute,
}

-- The quantity that an inbox fills, what it costs, and the number of its fills.
abbrev pub bought : List Message → ℤ
bought [] = pos 0
bought (m ∷ ms) =
    (elim m.type [ MsgType.order_fill ↦ int_of (read_fill m.payload).qty | _ ↦ pos 0 ]) +ℤ bought ms

abbrev pub cost : List Message → ℤ
cost [] = pos 0
cost (m ∷ ms) =
    (elim m.type [
      | MsgType.order_fill ↦ (read_fill m.payload).price *ℤ int_of (read_fill m.payload).qty
      | _ ↦ pos 0
    ])
    +ℤ cost ms

abbrev pub fill_number : List Message → ℕ
fill_number [] = 0
fill_number (m ∷ ms) = (elim m.type [ MsgType.order_fill ↦ 1 | _ ↦ 0 ]) + fill_number ms

-- The accounts of `t` against those of `s`.
record Booked (q c : ℤ) (n : ℕ) (s t : MakerState) : Type 0 where
  position : t.net_position ≡ s.net_position +ℤ q
  profit : t.pnl_fixed ≡ s.pnl_fixed -ℤ c
  count : u64 t.fill_count ≡ u64 (s.fill_count + n)
  limit : t.inventory_limit ≡ s.inventory_limit

Booked-none : (s : MakerState) → Booked (pos 0) (pos 0) 0 s s
Booked-none s = record {
  position = omega int_laws;
  profit = omega int_laws;
  count = omega arith;
  limit = refl;
}

Booked-trans :
    (q q' c c' : ℤ) (n n' : ℕ) (s t u : MakerState)
    → Booked q c n s t
    → Booked q' c' n' t u
    → Booked (q +ℤ q') (c +ℤ c') (n + n') s u
Booked-trans q q' c c' n n' s t u x y = record {
  position = y.position ∙ ap (λ k. k +ℤ q') x.position ∙ omega int_laws;
  profit = y.profit ∙ ap (λ k. k -ℤ c') x.profit ∙ omega int_laws;
  count = omega (arith, x.count, y.count);
  limit = y.limit ∙ x.limit;
}

Booked-fill :
    (f : Fill) (s : MakerState)
    → Booked (int_of f.qty) (f.price *ℤ int_of f.qty) 1 s (take_fill f s)
unfolding take_fill
Booked-fill f s = record { position = refl; profit = refl; count = omega arith; limit = refl }

-- One message, by its type.
take_message-Booked_at :
    (m : Message) (ms : List Message) (v : MarketMakerVertex) (t : MsgType)
    → m.type ≡ t
    → ((u : MarketMakerVertex)
        → Booked (bought ms) (cost ms) (fill_number ms) u.state (take_inbox ms u).state)
    → Booked
        (bought (m ∷ ms))
        (cost (m ∷ ms))
        (fill_number (m ∷ ms))
        v.state
        (take_inbox ms (take_message m v)).state
unfolding take_message
take_message-Booked_at m ms v MsgType.order_fill e ih =
    rw (e, take_message)
      (Booked-trans (int_of (read_fill m.payload).qty) (bought ms) _ (cost ms) 1 (fill_number ms)
        v.state (take_fill (read_fill m.payload) v.state) _
        (Booked-fill (read_fill m.payload) v.state)
        (ih (record v { state = take_fill (read_fill m.payload) v.state })))
take_message-Booked_at m ms v t e ih =
    rw (e, take_message)
      (Booked-trans (pos 0) (bought ms) (pos 0) (cost ms) 0 (fill_number ms) v.state v.state _
        (Booked-none v.state) (ih _))

take_inbox-Booked :
    (ms : List Message) (v : MarketMakerVertex)
    → Booked (bought ms) (cost ms) (fill_number ms) v.state (take_inbox ms v).state
unfolding take_inbox
take_inbox-Booked [] v = Booked-none v.state
take_inbox-Booked (m ∷ ms) v =
    take_message-Booked_at m ms v m.type refl (λ u. take_inbox-Booked ms u)

accounts_kept :
    (inbox : List Message) (step : ℕ) (v : MarketMakerVertex)
    → let t = (check_risk inbox (signal step v)).state in
      (t.net_position ≡ v.state.net_position)
      × (t.pnl_fixed ≡ v.state.pnl_fixed)
      × (t.fill_count ≡ v.state.fill_count)
unfolding check_risk signal
accounts_kept inbox step v = (ground arith, ground arith, ground arith)

-- One step of a market maker books every fill of its inbox, whatever else the inbox holds: the position
-- grows by the sum of the filled quantities, each read as an `int64_t`; the profit falls by the sum of
-- price times quantity; the count of fills grows by their number (modulo 2 ^ 64).
pub compute-books :
    (inbox : List Message) (step : ℕ) (v : MarketMakerVertex)
    → let t = (compute inbox step v).state in
      (t.net_position ≡ v.state.net_position +ℤ bought inbox)
      × (t.pnl_fixed ≡ v.state.pnl_fixed -ℤ cost inbox)
      × (u64 t.fill_count ≡ u64 (v.state.fill_count + fill_number inbox))
unfolding compute
compute-books inbox step v =
    let k = accounts_kept inbox step (take_inbox inbox v) in
    let b = take_inbox-Booked inbox v in (k.0 ∙ b.position, k.1 ∙ b.profit, ap u64 k.2 ∙ b.count)
