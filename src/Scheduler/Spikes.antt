-- ===== src/Scheduler/Spikes.antt =====
-- `NumaScheduler`'s history of latency spikes.
use pregel.Common.{
  ℕ, zero, suc, ◌+◌, ◌-◌, ◌≤◌, ◌<◌, ◌≡◌, refl, ◌∙◌, sym, ap, List, [], ◌∷◌, ◌++◌, length, drop,
  tail, append_assoc, append-nil, arith, dec_lt, length-append, length-drop,
}
use pregel.Scheduler.{LatencyRecord, NumaScheduler, max_spikes, cap, record_spike}

-- The newest entries of a history, at most the cap of them.
abbrev pub recent : List LatencyRecord → List LatencyRecord
recent rs = drop (length rs - max_spikes) rs

module _ {A : Type 0} where
  drop-append : (n : ℕ) (xs ys : List A) → n ≤ length xs → drop n (xs ++ ys) ≡ drop n xs ++ ys
  drop-append zero xs ys h = refl
  drop-append (suc n) [] ys h = elim h [ ]
  drop-append (suc n) (x ∷ xs) ys h = drop-append n xs ys (omega arith)

  drop-suc : (n : ℕ) (xs : List A) → drop (suc n) xs ≡ tail (drop n xs)
  drop-suc zero [] = refl
  drop-suc zero (x ∷ xs) = refl
  drop-suc (suc n) [] = refl
  drop-suc (suc n) (x ∷ xs) = drop-suc n xs

cap_short : (rs : List LatencyRecord) → length rs ≤ max_spikes → cap rs ≡ rs
unfolding cap
cap_short rs h = ground arith

cap_long : (rs : List LatencyRecord) → max_spikes < length rs → cap rs ≡ tail rs
unfolding cap
cap_long rs h = ground arith

cap-recent :
    (rs : List LatencyRecord) (r : LatencyRecord)
    → cap (recent rs ++ r ∷ []) ≡ recent (rs ++ r ∷ [])
cap-recent rs r = elim (dec_lt (length rs) max_spikes) [
  | yes l ↦
      let none_over : length rs - max_spikes ≡ 0 = omega arith in
      let none_over' : length (rs ++ r ∷ []) - max_spikes ≡ 0 = omega (arith, n) in
      rw (none_over, none_over') (cap_short (rs ++ r ∷ []) (omega (arith, n)))
  | no l ↦
      let next : suc (length rs - max_spikes) ≡ length (rs ++ r ∷ []) - max_spikes =
        omega (arith, n) in
      cap_long (recent rs ++ r ∷ [])
        (omega (arith, length-append (recent rs) (r ∷ []), length-drop (length rs - max_spikes) rs))
      ∙ ap tail (sym (drop-append (length rs - max_spikes) rs (r ∷ []) (omega arith)))
      ∙ sym (drop-suc (length rs - max_spikes) (rs ++ r ∷ []))
      ∙ ap (λ k. drop k (rs ++ r ∷ [])) next
]
  where
    n : length (rs ++ r ∷ []) ≡ length rs + 1
    n = omega (arith, length-append rs (r ∷ []))

module _ {W : Type 0} where
  -- The spikes `rs` recorded one after the other.
  pub record_spikes : List LatencyRecord → NumaScheduler W → NumaScheduler W
  record_spikes [] s = s
  record_spikes (r ∷ rs) s = record_spikes rs (record_spike r s)

  record_spikes-recent_from :
      (old rs : List LatencyRecord) (s : NumaScheduler W)
      → s.spikes ≡ recent old
      → (record_spikes rs s).spikes ≡ recent (old ++ rs)
  unfolding record_spikes record_spike
  record_spikes-recent_from old [] s e = e ∙ ap recent (sym (append-nil old))
  record_spikes-recent_from old (r ∷ rs) s e =
      record_spikes-recent_from (old ++ r ∷ []) rs (record_spike r s)
        (ap (λ h. cap (h ++ r ∷ [])) e ∙ cap-recent old r)
      ∙ ap recent (append_assoc old (r ∷ []) rs)

  -- The history of a scheduler that has recorded the spikes `rs` holds the newest thousand of
  -- them, or all if they are fewer, in their order, and never more than a thousand.
  pub record_spikes-recent :
      (rs : List LatencyRecord) (s : NumaScheduler W)
      → s.spikes ≡ []
      → ((record_spikes rs s).spikes ≡ recent rs)
        × (length (record_spikes rs s).spikes ≤ max_spikes)
  record_spikes-recent rs s e =
      let k = record_spikes-recent_from [] rs s e in
      (k, omega (arith, ap length k, length-drop (length rs - max_spikes) rs))
