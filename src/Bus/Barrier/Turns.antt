-- ===== src/Bus/Barrier/Turns.antt =====
-- Every access of a thread in the barrier keeps the invariant.
use pregel.Common.{
  false, ℕ, suc, ◌+◌, ◌≤◌, ◌<◌, ◌^◌, ◌≡◌, ◌≢◌, ◌⊎◌, inl, inr, refl, ◌∙◌, sym, ap, subst, List,
  length, set, arith, ◌==◌, Bool-cases, ==_iff, get_or-set_ne, length-set, ltb,
}
use pregel.Types.{u32, u64}
use pregel.Bus.Barrier.{
  Pc, working, loaded, spinning, resetting, bumping, Thread, advance_at, advance, arrive, System,
  fresh, thread_of, turn,
}
use pregel.Common.{weigh, weigh-ge, weigh-le, weigh_full, weigh_const}
use pregel.Bus.Barrier.Invariant.{
  FitsAt, Fits, arrived_at, arrived, resets, bumps, Phase, Inv, released, each_wrote, stay-Inv,
  sums, arrived_at-le,
}

-- The invariant holds again, for this barrier or the next.
abbrev pub Keeps : ℕ → ℕ → System → Type 0
Keeps n g s = Inv n g s ⊎ Inv n (suc g) s

-- A move that changes no count, an arrival, the last arrival, and a reset, in numbers.
Phase-same :
    (n c a r b a' r' b' x y z : ℕ)
    → a' + x ≡ a + x
    → r' + y ≡ r + y
    → b' + z ≡ b + z
    → Phase n c a r b
    → Phase n c a' r' b'
Phase-same n c a r b a' r' b' x y z p q t h = ground arith

Phase-arrive :
    (n c a r b a' r' b' : ℕ)
    → n < 2 ^ 32
    → a' ≤ n
    → a' + 0 ≡ a + 1
    → r' + 0 ≡ r + 0
    → b' + 0 ≡ b + 0
    → u64 (c + 1) ≢ n
    → Phase n c a r b
    → Phase n (u64 (c + 1)) a' r' b'
Phase-arrive n c a r b a' r' b' few k p q t ne h = ground arith

Phase-last :
    (n c a r b a' r' b' : ℕ)
    → n < 2 ^ 32
    → a' ≤ n
    → a' + 0 ≡ a + 1
    → r' + 0 ≡ r + 1
    → b' + 0 ≡ b + 0
    → u64 (c + 1) ≡ n
    → Phase n c a r b
    → Phase n (u64 (c + 1)) a' r' b'
Phase-last n c a r b a' r' b' few k p q t eq h = ground arith

Phase-reset :
    (n c a r b a' r' b' : ℕ)
    → a' + 1 ≡ a + 1
    → r' + 1 ≡ r + 0
    → b' + 0 ≡ b + 1
    → Phase n c a r b
    → Phase n 0 a' r' b'
Phase-reset n c a r b a' r' b' p q t h = ground arith

one_if : (r g : ℕ) → r ≡ g → arrived_at g (spinning 0) r ≡ 1
one_if r g h = ground arith

zero_if : (r g : ℕ) → suc r ≡ g → arrived_at g (spinning 0) r ≡ 0
zero_if r g h = ground arith

Phase-full :
    (n c a r b b' : ℕ) → b' + 1 ≡ b + 0 → Phase n c a r b → (a ≡ n) × (r ≡ 0) × (b ≡ 1) × (c ≡ 0)
Phase-full n c a r b b' h p = ground arith

-- A thread that sees another epoch than its own has been let go.
left_behind :
    (r g e epoch : ℕ)
    → (e ≡ u32 r) × ((r ≡ g) ⊎ (suc r ≡ g))
    → epoch ≡ u32 g
    → (epoch == e) ≡ false
    → suc r ≡ g
left_behind r g e epoch f h o = ground arith

module _ {n g : ℕ} {s : System} (v : Inv n g s) (i : ℕ) (l : i < n) where
  abbrev rounds : ℕ
  rounds = (thread_of s i).rounds

  abbrev after : Pc → System
  after p =
      let m = advance_at n s.shared p rounds in
      record { shared = m.shared; threads = set s.threads i m.thread }

  fits_me : (p : Pc) → (thread_of s i).pc ≡ p → FitsAt g p rounds
  fits_me p e = subst (λ q. FitsAt g q rounds) e (v.each i l)

  abbrev arrivals : List Thread → ℕ
  arrivals = weigh (arrived g)

  abbrev resetters : List Thread → ℕ
  resetters = weigh λ t. resets t.pc

  abbrev bumpers : List Thread → ℕ
  bumpers = weigh λ t. bumps t.pc

  abbrev now : List Thread
  now = s.threads

  sums_at :
      (p : Pc)
      → (thread_of s i).pc ≡ p
      → (t : Thread)
      → (arrivals (set now i t) + arrived_at g p rounds ≡ arrivals now + arrived g t)
        × (resetters (set now i t) + resets p ≡ resetters now + resets t.pc)
        × (bumpers (set now i t) + bumps p ≡ bumpers now + bumps t.pc)
  sums_at p e t =
      subst
        (λ q.
          (arrivals (set now i t) + arrived_at g q rounds ≡ arrivals now + arrived g t)
          × (resetters (set now i t) + resets q ≡ resetters now + resets t.pc)
          × (bumpers (set now i t) + bumps q ≡ bumpers now + bumps t.pc))
        e (sums v i l t)

  arrivals_wrote : (t : Thread) → arrivals (set now i t) ≤ n
  arrivals_wrote t = omega (
    arith,
    weigh-le (arrived g) (λ u. arrived_at-le g u.pc u.rounds) (set now i t),
    length-set now i t,
    v.size,
  )

  start-Inv : (thread_of s i).pc ≡ working → Inv n g (after working)
  unfolding advance_at
  start-Inv e =
      stay-Inv v i l s.shared.counter t (fits_me working e, v.epoch)
        (Phase-same n _ _ _ _ _ _ _ 0 0 0 w.0 w.1 w.2 v.phase)
    where
      t : Thread
      t = record { pc = loaded s.shared.epoch; rounds = rounds }

      w :
          (arrivals (set now i t) + 0 ≡ arrivals now + 0)
          × (resetters (set now i t) + 0 ≡ resetters now + 0)
          × (bumpers (set now i t) + 0 ≡ bumpers now + 0)
      w = sums_at working e t

  -- The thread counts itself, and is the last one or not.
  arrive-Inv : (e : ℕ) → (thread_of s i).pc ≡ loaded e → Inv n g (after (loaded e))
  unfolding advance_at arrive
  arrive-Inv e h = elim (Bool-cases (u64 (s.shared.counter + 1) == n)) [
    | inl last ↦
        let t : Thread = record { pc = resetting; rounds = rounds } in
        let w = sums_at (loaded e) h t in
        rw (last, arrive)
          (stay-Inv v i l (u64 (s.shared.counter + 1)) t (fits_me (loaded e) h).0 (
            Phase-last n _ _ _ _ _ _ _ v.few (arrivals_wrote t) w.0 w.1 w.2
              ((==_iff (u64 (s.shared.counter + 1)) n).0 last) v.phase))
    | inr more ↦
        let t : Thread = record { pc = spinning e; rounds = rounds } in
        let w = sums_at (loaded e) h t in
        let f = fits_me (loaded e) h in
        rw (more, arrive)
          (stay-Inv v i l (u64 (s.shared.counter + 1)) t (f.1 ∙ ap u32 (sym f.0), inl f.0)
            (Phase-arrive n _ _ _ _ _ _ _ v.few (arrivals_wrote t)
              (w.0 ∙ ap (◌+◌ (arrivals now)) (one_if rounds g f.0)) w.1 w.2 (ground arith) v.phase))
  ]

  spin-Inv : (e : ℕ) → (thread_of s i).pc ≡ spinning e → Inv n g (after (spinning e))
  unfolding advance_at
  spin-Inv e h = elim (Bool-cases (s.shared.epoch == e)) [
    | inl closed ↦
        let t : Thread = record { pc = spinning e; rounds = rounds } in
        let w = sums_at (spinning e) h t in
        rw closed (
          stay-Inv v i l s.shared.counter t (fits_me (spinning e) h)
            (Phase-same n _ _ _ _ _ _ _ _ _ _ w.0 w.1 w.2 v.phase))
    | inr open' ↦
        let t : Thread = record { pc = working; rounds = suc rounds } in
        let w = sums_at (spinning e) h t in
        let f = left_behind rounds g e s.shared.epoch (fits_me (spinning e) h) v.epoch open' in
        rw open' (
          stay-Inv v i l s.shared.counter t f (
            Phase-same n _ _ _ _ _ _ _ 0 0 0
              (ap (◌+◌ (arrivals (set now i t))) (sym (zero_if rounds g f)) ∙ w.0) w.1 w.2 v.phase))
  ]

  reset-Inv : (thread_of s i).pc ≡ resetting → Inv n g (after resetting)
  unfolding advance_at
  reset-Inv e =
      let t : Thread = record { pc = bumping; rounds = rounds } in
      let w = sums_at resetting e t in
      stay-Inv v i l 0 t (fits_me resetting e) (Phase-reset n _ _ _ _ _ _ _ w.0 w.1 w.2 v.phase)

  bump-Inv : (thread_of s i).pc ≡ bumping → Inv n (suc g) (after bumping)
  unfolding advance_at
  bump-Inv e = record {
    few = v.few;
    size = length-set now i t ∙ v.size;
    epoch = omega (arith, v.epoch);
    each =
        each_wrote v i l (Fits (suc g)) t (ap suc (fits_me bumping e))
          (λ j lt ne. (others j lt ne).0);
    phase = inl (
      omega (arith, w.1, full.1),
      omega (arith, w.2, full.2),
      full.3 ∙ sym opened,
      omega (arith, opened),
    );
  }
    where
      t : Thread
      t = record { pc = working; rounds = suc rounds }

      w :
          (arrivals (set now i t) + 1 ≡ arrivals now + 0)
          × (resetters (set now i t) + 0 ≡ resetters now + 0)
          × (bumpers (set now i t) + 1 ≡ bumpers now + 0)
      w = sums_at bumping e t

      full : (arrivals now ≡ n) × (resetters now ≡ 0) × (bumpers now ≡ 1) × (s.shared.counter ≡ 0)
      full = Phase-full n _ _ _ _ _ w.2 v.phase

      there : (j : ℕ) → j < n → j < length now
      there j lt = omega (arith, v.size)

      -- No other thread is opening the barrier.
      alone : (j : ℕ) → j < n → j ≢ i → bumps (thread_of s j).pc ≡ 0
      alone j lt ne = omega (
        arith,
        weigh-ge (λ u. bumps u.pc) (set now i t) j fresh
            (omega (arith, length-set now i t, v.size)),
        ap (λ (u : Thread). bumps u.pc) (get_or-set_ne now i j t fresh (λ q. ne (sym q))),
        w.2,
        full.2,
      )

      others :
          (j : ℕ)
          → j < n
          → j ≢ i
          → Fits (suc g) (thread_of s j) × (arrived (suc g) (thread_of s j) ≡ 0)
      others j lt ne =
          released g (thread_of s j).pc (thread_of s j).rounds (v.each j lt)
            (weigh_full (arrived g) (λ u. arrived_at-le g u.pc u.rounds) now j fresh
              (full.0 ∙ sym v.size) (there j lt))
            (omega (arith, weigh-ge (λ u. resets u.pc) now j fresh (there j lt), full.1))
            (alone j lt ne)

      opened : weigh (arrived (suc g)) (set now i t) ≡ 0
      opened =
          (weigh_const (arrived (suc g)) 0 (set now i t) fresh (λ j lt.
              each_wrote v i l (λ u. arrived (suc g) u ≡ 0) t refl (λ k lk ne. (others k lk ne).1) j
                (omega (arith, length-set now i t, v.size)))).0
            refl

  turn-Keeps_at : (p : Pc) → (thread_of s i).pc ≡ p → Keeps n g (after p)
  turn-Keeps_at working e = inl (start-Inv e)
  turn-Keeps_at (loaded k) e = inl (arrive-Inv k e)
  turn-Keeps_at (spinning k) e = inl (spin-Inv k e)
  turn-Keeps_at resetting e = inl (reset-Inv e)
  turn-Keeps_at bumping e = inr (bump-Inv e)

-- Any access of any thread keeps the invariant; opening the barrier moves it on by one.
pub turn-Keeps : {n g : ℕ} {s : System} (i : ℕ) → Inv n g s → Keeps n g (turn n s i)
unfolding turn advance
turn-Keeps {n} {g} {s} i v = elim (Bool-cases (ltb i (length s.threads))) [
  | inl here ↦ rw (here, turn) (turn-Keeps_at v i (ground (arith, v.size)) (thread_of s i).pc refl)
  | inr away ↦ rw (away, turn) (inl v)
]
