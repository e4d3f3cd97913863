-- ===== src/Scheduler/LeastLoaded.antt =====
-- `NumaScheduler::least_loaded_node` and `migrate_vertex`.
use pregel.Common.{
  ℕ, zero, suc, ◌+◌, ◌≤◌, ◌<◌, ◌≡◌, refl, sym, ap, List, [], ◌∷◌, length, get_or, if◌then◌else◌,
  ◌==◌, arith, some, dec_lt, drop, length-drop, subst, ℕ_discrete, lt→ltb, le→ltb, ==_iff,
}
use pregel.Types.{u64}
use pregel.Scheduler.{
  NumaQueue, NumaScheduler, empty_queue, least_from, least_loaded_node, migrate_vertex,
}

module _ {W : Type 0} where
  abbrev load_at : List (NumaQueue W) → ℕ → ℕ
  load_at qs i = (get_or qs i empty_queue).active_tasks

  -- Node `n` has the least load of the first `k` nodes, and less than all nodes before it.
  abbrev pub IsLeast : List (NumaQueue W) → ℕ → ℕ → Type 0
  IsLeast qs k n =
      (n < k)
      × ((j : ℕ) → j < k → load_at qs n ≤ load_at qs j)
      × ((j : ℕ) → j < n → load_at qs n < load_at qs j)

  drop-cons :
      (qs rest : List (NumaQueue W)) (i : ℕ) (q : NumaQueue W)
      → drop i qs ≡ q ∷ rest
      → (get_or qs i empty_queue ≡ q) × (drop (suc i) qs ≡ rest) × (i < length qs)
  drop-cons [] rest zero q e = absurd cc
  drop-cons [] rest (suc i) q e = absurd cc
  drop-cons (x ∷ xs) rest zero q e = (cc, cc, omega arith)
  drop-cons (x ∷ xs) rest (suc i) q e =
      let k = drop-cons xs rest i q e in (k.0, k.1, omega (arith, k.2))

  keeps :
      (all : List (NumaQueue W)) (i best : ℕ)
      → IsLeast all i best
      → load_at all best ≤ load_at all i
      → IsLeast all (suc i) best
  keeps all i best h l = (
    omega (arith, h.0),
    λ j k. elim (ℕ_discrete j i) [
      | yes e ↦ omega (arith, ap (load_at all) e)
      | no e ↦ h.1 j (omega arith)
    ],
    h.2,
  )

  takes :
      (all : List (NumaQueue W)) (i best : ℕ)
      → IsLeast all i best
      → load_at all i < load_at all best
      → IsLeast all (suc i) i
  takes all i best h l = (
    omega arith,
    λ j k. elim (ℕ_discrete j i) [
      | yes e ↦ omega (arith, ap (load_at all) e)
      | no e ↦ omega (arith, h.1 j (omega arith))
    ],
    λ j k. omega (arith, h.1 j k),
  )

  least_from-IsLeast :
      (all : List (NumaQueue W)) (i best min_load : ℕ) (qs : List (NumaQueue W))
      → drop i all ≡ qs
      → i ≤ length all
      → min_load ≡ load_at all best
      → IsLeast all i best
      → IsLeast all (length all) (least_from i best min_load qs)
  unfolding least_from
  least_from-IsLeast all i best min_load [] e b m h =
      subst (λ k. IsLeast all k best) (omega (arith, length-drop i all, ap length e)) h
  least_from-IsLeast all i best min_load (q ∷ qs) e b m h =
      let d = drop-cons all qs i q e in
      elim (dec_lt q.active_tasks min_load) [
        | yes l ↦ rw (lt→ltb q.active_tasks min_load l) (
            least_from-IsLeast all (suc i) i q.active_tasks qs d.1 d.2
              (ap (λ (r : NumaQueue W). r.active_tasks) (sym d.0))
              (takes all i best h (omega (arith, ap (λ (r : NumaQueue W). r.active_tasks) d.0))))
        | no l ↦ rw (le→ltb q.active_tasks min_load (omega arith)) (
            least_from-IsLeast all (suc i) best min_load qs d.1 d.2 m
              (keeps all i best h (omega (arith, ap (λ (r : NumaQueue W). r.active_tasks) d.0))))
      ]

  one_node : (qs : List (NumaQueue W)) (j : ℕ) → j < 1 → load_at qs j ≡ load_at qs 0
  one_node qs zero l = refl
  one_node qs (suc j) l = absurd (omega arith)

  least_loaded_node-IsLeast :
      (s : NumaScheduler W) (q : NumaQueue W) (qs : List (NumaQueue W))
      → s.queues ≡ q ∷ qs
      → (n : ℕ) × (least_loaded_node s ≡ some n) × IsLeast s.queues (length s.queues) n
  unfolding least_loaded_node
  least_loaded_node-IsLeast s q qs e =
      let first_least : (j : ℕ) → j < 1 → load_at (q ∷ qs) 0 ≤ load_at (q ∷ qs) j =
        λ j l. omega (arith, one_node (q ∷ qs) j l) in
      rw e (
        least_from 1 0 q.active_tasks qs,
        refl,
        least_from-IsLeast (q ∷ qs) 1 0 q.active_tasks qs refl (omega arith) refl
            (omega arith, λ j l. first_least j l, λ j l. absurd (omega arith)),
      )

  -- A vertex moves to the least loaded node, the first one of those that have the least load; the move
  -- is counted (modulo 2 ^ 64) exactly when this is not the node where it is, and nothing else of a scheduler with
  -- a node changes.
  pub migrate_vertex-IsLeast :
      (current : ℕ) (s : NumaScheduler W)
      → 0 < length s.queues
      → (n : ℕ) × IsLeast s.queues (length s.queues) n
        × (migrate_vertex current s
            ≡ some (
              n,
              record s {
                migrate_count = if n == current then s.migrate_count else u64 (s.migrate_count + 1);
              },
            ))
  unfolding migrate_vertex
  migrate_vertex-IsLeast current s h = migrate_at s.queues refl
    where
      migrate_at :
          (qs : List (NumaQueue W))
          → s.queues ≡ qs
          → (n : ℕ) × IsLeast s.queues (length s.queues) n
            × (migrate_vertex current s
                ≡ some (
                  n,
                  record s {
                    migrate_count =
                        if n == current then s.migrate_count else u64 (s.migrate_count + 1);
                  },
                ))
      migrate_at [] e = absurd (omega (arith, ap length e))
      migrate_at (q ∷ qs) e =
          let k = least_loaded_node-IsLeast s q qs e in
          (k.0, k.2, ground (arith, k.1, ==_iff k.0 current))
