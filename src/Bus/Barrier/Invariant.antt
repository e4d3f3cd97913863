-- ===== src/Bus/Barrier/Invariant.antt =====
-- What the threads and the two atomics of the barrier agree on, in terms of the number `g` of
-- barriers that have opened so far.
use pregel.Common.{
  ℕ, suc, ◌+◌, ◌≤◌, ◌<◌, ◌^◌, ◌≡◌, ◌≢◌, ◌⊎◌, inl, inr, ◌∙◌, sym, subst, List, length, get_or, set,
  arith, ◌==◌, if◌then◌else◌, Bool-cases, get_or-set, length-set,
}
use pregel.Types.{u32}
use pregel.Bus.Barrier.{
  Pc, working, loaded, spinning, resetting, bumping, Thread, System, fresh, thread_of,
}
use pregel.Common.{weigh, weigh-set, weigh-ge, weigh-le}

-- What a thread's position says of the rounds it has finished and of its local epoch.
abbrev pub FitsAt : ℕ → Pc → ℕ → Type 0
FitsAt g working r = r ≡ g
FitsAt g (loaded e) r = (r ≡ g) × (e ≡ u32 g)
FitsAt g (spinning e) r = (e ≡ u32 r) × ((r ≡ g) ⊎ (suc r ≡ g))
FitsAt g resetting r = r ≡ g
FitsAt g bumping r = r ≡ g

abbrev pub Fits : ℕ → Thread → Type 0
Fits g t = FitsAt g t.pc t.rounds

-- Has arrived at barrier `g`, which has not opened.
abbrev pub arrived_at : ℕ → Pc → ℕ → ℕ
arrived_at g working r = 0
arrived_at g (loaded e) r = 0
arrived_at g (spinning e) r = if r == g then 1 else 0
arrived_at g resetting r = 1
arrived_at g bumping r = 1

abbrev pub resets : Pc → ℕ
resets resetting = 1
resets _ = 0

abbrev pub bumps : Pc → ℕ
bumps bumping = 1
bumps _ = 0

abbrev pub arrived : ℕ → Thread → ℕ
arrived g t = arrived_at g t.pc t.rounds

-- `a` threads have arrived; the last one, if it has, first resets the counter, then opens.
abbrev pub Phase : ℕ → ℕ → ℕ → ℕ → ℕ → Type 0
Phase n counter a r b =
    ((r ≡ 0) × (b ≡ 0) × (counter ≡ a) × (a < n))
    ⊎ ((r ≡ 1) × (b ≡ 0) × (a ≡ n))
    ⊎ ((r ≡ 0) × (b ≡ 1) × (a ≡ n) × (counter ≡ 0))

pub record Inv (n g : ℕ) (s : System) : Type 0 where
  pub few : n < 2 ^ 32
  pub size : length s.threads ≡ n
  pub epoch : s.shared.epoch ≡ u32 g
  pub each : (i : ℕ) → i < n → Fits g (thread_of s i)
  pub phase :
      Phase n s.shared.counter
        (weigh (arrived g) s.threads)
        (weigh (λ t. resets t.pc) s.threads)
        (weigh (λ t. bumps t.pc) s.threads)

pub arrived_at-le : (g : ℕ) (p : Pc) (r : ℕ) → arrived_at g p r ≤ 1
arrived_at-le g working r = omega arith
arrived_at-le g (loaded e) r = omega arith
arrived_at-le g (spinning e) r = ground arith
arrived_at-le g resetting r = omega arith
arrived_at-le g bumping r = omega arith

-- When barrier `g` opens, each thread that had arrived and is not the last one is let go.
pub released :
    (g : ℕ) (p : Pc) (r : ℕ)
    → FitsAt g p r
    → arrived_at g p r ≡ 1
    → resets p ≡ 0
    → bumps p ≡ 0
    → FitsAt (suc g) p r × (arrived_at (suc g) p r ≡ 0)
released g working r f a x y = absurd (omega arith)
released g (loaded e) r f a x y = absurd (omega arith)
released g (spinning e) r f a x y = ground arith
released g resetting r f a x y = absurd (omega arith)
released g bumping r f a x y = absurd (omega arith)

module _ {n g : ℕ} {s : System} (v : Inv n g s) (i : ℕ) (l : i < n) where
  abbrev pub me : Thread
  me = thread_of s i

  abbrev pub wrote : Thread → List Thread
  wrote t = set s.threads i t

  pub inside : i < length s.threads
  inside = omega (arith, v.size)

  pub each_wrote :
      (P : Thread → Type 0) (t : Thread)
      → P t
      → ((j : ℕ) → j < n → j ≢ i → P (thread_of s j))
      → (j : ℕ) → j < n
      → P (get_or (wrote t) j fresh)
  each_wrote P t f rest j lt = elim (Bool-cases (i == j)) [
    | inl hit ↦ subst P (sym (get_or-set s.threads i j t fresh inside ∙ rw hit)) f
    | inr miss ↦
        subst P (sym (get_or-set s.threads i j t fresh inside ∙ rw miss)) (rest j lt (ground arith))
  ]

  -- A move that opens no barrier.
  pub stay-Inv :
      (c : ℕ) (t : Thread)
      → Fits g t
      → Phase n c
          (weigh (arrived g) (wrote t))
          (weigh (λ u. resets u.pc) (wrote t))
          (weigh (λ u. bumps u.pc) (wrote t))
      → Inv n g (record { shared = record s.shared { counter = c }; threads = wrote t })
  stay-Inv c t f p = record {
    few = v.few;
    size = length-set s.threads i t ∙ v.size;
    epoch = v.epoch;
    each = each_wrote (Fits g) t f (λ j lt ne. v.each j lt);
    phase = p;
  }

  pub sums :
      (t : Thread)
      → (weigh (arrived g) (wrote t) + arrived g me ≡ weigh (arrived g) s.threads + arrived g t)
        × (weigh (λ u. resets u.pc) (wrote t) + resets me.pc
            ≡ weigh (λ u. resets u.pc) s.threads + resets t.pc)
        × (weigh (λ u. bumps u.pc) (wrote t) + bumps me.pc
            ≡ weigh (λ u. bumps u.pc) s.threads + bumps t.pc)
  sums t = (
    weigh-set (arrived g) s.threads i t fresh inside,
    weigh-set (λ u. resets u.pc) s.threads i t fresh inside,
    weigh-set (λ u. bumps u.pc) s.threads i t fresh inside,
  )

  pub bounds :
      (weigh (arrived g) s.threads ≤ n)
      × (arrived g me ≤ weigh (arrived g) s.threads)
      × (resets me.pc ≤ weigh (λ u. resets u.pc) s.threads)
      × (bumps me.pc ≤ weigh (λ u. bumps u.pc) s.threads)
  bounds = (
    omega (arith, weigh-le (arrived g) (λ u. arrived_at-le g u.pc u.rounds) s.threads, v.size),
    weigh-ge (arrived g) s.threads i fresh inside,
    weigh-ge (λ u. resets u.pc) s.threads i fresh inside,
    weigh-ge (λ u. bumps u.pc) s.threads i fresh inside,
  )
