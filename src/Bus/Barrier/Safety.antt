-- ===== src/Bus/Barrier/Safety.antt =====
-- What the barrier guarantees under every schedule.
use pregel.Common.{
  ℕ, suc, ◌≤◌, ◌<◌, ◌^◌, ◌≡◌, ◌≢◌, inl, inr, refl, ◌∙◌, sym, ap, subst, List, [], ◌∷◌, length,
  arith, length-replicate, get_or-replicate,
}
use pregel.Types.{u32}
use pregel.Bus.Barrier.{
  Pc, working, loaded, spinning, resetting, bumping, Thread, System, fresh, init, thread_of, turn,
  run,
}
use pregel.Common.{weigh, weigh_const}
use pregel.Bus.Barrier.Invariant.{FitsAt, Fits, arrived_at, arrived, resets, bumps, Inv}
use pregel.Bus.Barrier.Turns.{turn-Keeps}

init-Inv : (n : ℕ) → 0 < n → n < 2 ^ 32 → Inv n 0 (init n)
init-Inv n pos few = record {
  few = few;
  size = length-replicate n fresh;
  epoch = refl;
  each = λ i l. subst (Fits 0) (sym (at i)) refl;
  phase = inl (
    none (λ t. resets t.pc) refl,
    none (λ t. bumps t.pc) refl,
    sym (none (arrived 0) refl),
    omega (arith, none (arrived 0) refl),
  );
}
  where
    at : (i : ℕ) → thread_of (init n) i ≡ fresh
    at i = get_or-replicate n i fresh

    none : (w : Thread → ℕ) → w fresh ≡ 0 → weigh w (init n).threads ≡ 0
    none w h = (weigh_const w 0 (init n).threads fresh (λ i l. ap w (at i) ∙ h)).0 refl

run-Inv : (n g : ℕ) (s : System) (is : List ℕ) → Inv n g s → (h : ℕ) × Inv n h (run n s is)
unfolding run
run-Inv n g s [] v = (g, v)
run-Inv n g s (i ∷ is) v = elim (turn-Keeps i v) [
  | inl same ↦ run-Inv n g (turn n s i) is same
  | inr opened ↦ run-Inv n (suc g) (turn n s i) is opened
]

reached : (n : ℕ) (is : List ℕ) → 0 < n → n < 2 ^ 32 → (g : ℕ) × Inv n g (run n (init n) is)
reached n is pos few = run-Inv n 0 (init n) is (init-Inv n pos few)

-- Thread `j` spins on an epoch that is over.
abbrev pub IsLetGo : System → ℕ → Type 0
IsLetGo s j = (e : ℕ) × ((thread_of s j).pc ≡ spinning e) × (e ≢ s.shared.epoch)

-- Thread `j` spins on the current epoch.
abbrev pub IsBlocked : System → ℕ → Type 0
IsBlocked s j = (thread_of s j).pc ≡ spinning s.shared.epoch

within : (g : ℕ) (p : Pc) (r : ℕ) → FitsAt g p r → (r ≤ g) × (g ≤ suc r)
within g working r f = omega arith
within g (loaded e) r f = omega arith
within g (spinning e) r f = omega arith
within g resetting r f = omega arith
within g bumping r f = omega arith

behind :
    (g epoch : ℕ) (q : Pc) (r t : ℕ)
    → r ≤ g
    → FitsAt g q t
    → epoch ≡ u32 g
    → r ≡ suc t
    → (e : ℕ) × (q ≡ spinning e) × (e ≢ epoch)
behind g epoch working r t f h k d = absurd (omega arith)
behind g epoch (loaded e) r t f h k d = absurd (omega arith)
behind g epoch (spinning e) r t f h k d = (e, refl, λ same. omega arith)
behind g epoch resetting r t f h k d = absurd (omega arith)
behind g epoch bumping r t f h k d = absurd (omega arith)

stuck :
    (g epoch r : ℕ)
    → FitsAt g (spinning epoch) r
    → epoch ≡ u32 g
    → arrived_at g (spinning epoch) r ≡ 1
stuck g epoch r f h = ground arith

-- Under every schedule of any number of workers from 1 up to 2 ^ 32 - 1, a worker that has passed a
-- barrier more often than another is one barrier ahead, and then the other has arrived at that
-- barrier, waits on an epoch that is over, and is let go by its next read: no worker passes a barrier
-- at which another has not arrived.
pub barrier_safe :
    (n : ℕ) (is : List ℕ) (i j : ℕ)
    → 0 < n
    → n < 2 ^ 32
    → i < n
    → j < n
    → let s = run n (init n) is in
      ((thread_of s i).rounds ≤ suc (thread_of s j).rounds)
      × ((thread_of s i).rounds ≡ suc (thread_of s j).rounds → IsLetGo s j)
barrier_safe n is i j pos few l k =
    let (g, v) = reached n is pos few in
    let s : System = run n (init n) is in
    let a = v.each i l in
    let b = v.each j k in
    (
      omega (
        arith,
        within g (thread_of s i).pc (thread_of s i).rounds a,
        within g (thread_of s j).pc (thread_of s j).rounds b,
      ),
      λ d.
          behind g s.shared.epoch (thread_of s j).pc (thread_of s i).rounds (thread_of s j).rounds
            (within g (thread_of s i).pc (thread_of s i).rounds a).0 b v.epoch d,
    )

-- The barrier never deadlocks: under every schedule, not all the workers spin on the current epoch.
pub barrier_no_deadlock :
    (n : ℕ) (is : List ℕ)
    → 0 < n
    → n < 2 ^ 32
    → ¬ ((i : ℕ) → i < n → IsBlocked (run n (init n) is) i)
barrier_no_deadlock n is pos few all = ground (
  arith,
  v.phase,
  v.size,
  count (arrived g) 1 all_arrived,
  count (λ t. resets t.pc) 0 (λ i l. ap resets (all i l)),
  count (λ t. bumps t.pc) 0 (λ i l. ap bumps (all i l)),
)
  where
    s : System
    s = run n (init n) is

    g : ℕ
    g = (reached n is pos few).0

    v : Inv n g s
    v = (reached n is pos few).1

    count :
        (w : Thread → ℕ) (k : ℕ)
        → ((i : ℕ) → i < n → w (thread_of s i) ≡ k)
        → (k ≡ 0 → weigh w s.threads ≡ 0) × (k ≡ 1 → weigh w s.threads ≡ length s.threads)
    count w k h = weigh_const w k s.threads fresh (λ i l. h i (omega (arith, v.size)))

    all_arrived : (i : ℕ) → i < n → arrived g (thread_of s i) ≡ 1
    all_arrived i l =
        ap (λ p. arrived_at g p (thread_of s i).rounds) (all i l)
        ∙ stuck g s.shared.epoch (thread_of s i).rounds
            (subst (λ p. FitsAt g p (thread_of s i).rounds) (all i l) (v.each i l)) v.epoch
