-- ===== src/Partition.antt =====
-- message_bus.hpp, `PartitionMap`: which worker owns a vertex. The map is shared by every bus and
-- worker and guarded by one mutex, so each call is one atomic step.
use pregel.Common.{
  ℕ, ◌%◌, ◌<◌, ◌≡◌, none, some, Map, [], find, insert, find-insert, ◌==◌, if◌then◌else◌, AllV,
  AllV-insert, AllV-find, Option-cases, inl, inr, arith,
}

pub record PartitionMap : Type 0 where
  pub worker_count : ℕ
  pub overrides : Map ℕ

abbrev pub empty_map : ℕ → PartitionMap
empty_map workers = record { worker_count = workers; overrides = [] }

unfoldable pub owner_of : PartitionMap → ℕ → ℕ
owner_of p v = elim (find v p.overrides) [ some w ↦ w | none ↦ v % p.worker_count ]

unfoldable pub migrate : PartitionMap → ℕ → ℕ → PartitionMap
migrate p v w = record p { overrides = insert v w p.overrides }

-- The workers that the overrides name exist.
abbrev pub IsValid : PartitionMap → Type 0
IsValid p = (0 < p.worker_count) × AllV (λ v w. w < p.worker_count) p.overrides

pub owner_of-lt : (p : PartitionMap) (v : ℕ) → IsValid p → owner_of p v < p.worker_count
unfolding owner_of
owner_of-lt p v h = elim (Option-cases (find v p.overrides)) [
  | inl e ↦ rw (e, owner_of) (omega arith)
  | inr (w, e) ↦ rw (e, owner_of) (AllV-find (λ v w. w < p.worker_count) v w p.overrides h.1 e)
]

pub migrate-IsValid :
    (p : PartitionMap) (v w : ℕ) → w < p.worker_count → IsValid p → IsValid (migrate p v w)
unfolding migrate
migrate-IsValid p v w h k = (k.0, AllV-insert (λ v w. w < p.worker_count) v w p.overrides h k.1)

pub owner_of-migrate :
    (p : PartitionMap) (v w u : ℕ)
    → owner_of (migrate p v w) u ≡ (if v == u then w else owner_of p u)
unfolding owner_of migrate
owner_of-migrate p v w u = ground (arith, find-insert v u w p.overrides)
