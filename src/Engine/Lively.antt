-- ===== src/Engine/Lively.antt =====
-- `distribute_vertices`: how many vertices the workers get, and where a vertex that never halts arrives.
use pregel.Common.{
  subst, All-set, All-elem, weigh-write, ℕ, suc, zero, ◌+◌, ◌≤◌, ◌<◌, ◌≡◌, refl, ◌∙◌, ap, List, [],
  ◌∷◌, ◌==◌, length, get_elem?, get_or, some, inl, inr, arith, weigh, Option-cases, Bool-cases,
  some-eq, find, insert, Map, find-insert, ==_refl, if◌then◌else◌,
}
use pregel.Types.{EngineConfig}
use pregel.Partition.{PartitionMap, IsValid, owner_of, owner_of-lt}
use pregel.Bus.{MessageBus}
use pregel.Worker.{VertexClass, WorkerNode, new_worker, add_vertex}
use pregel.Worker.Lively.{HasLive, HasLive-find}
use pregel.Coordinator.Lively.{load, AnyLive}
use pregel.Coordinator.Summary.{AllIdle, IsIdle}
use pregel.Engine.{new_workers, add_to, distribute_vertices}
use pregel.Engine.Distribution.{owned, insert_all, Distributed}

insert-length-le {ℓ} :
    {V : Type ℓ} (m : Map V) (k : ℕ) (v : V) → length (insert k v m) ≤ suc (length m)
unfolding insert
insert-length-le [] k v = omega arith
insert-length-le ((j, u) ∷ m) k v = ground (arith, insert-length-le m k v)

pub new_workers-load :
    (V : Type 0) (config : EngineConfig) (i left : ℕ)
    → weigh load (new_workers {V = V} config i left) ≡ 0
unfolding new_workers weigh new_worker
new_workers-load V config i zero = refl
new_workers-load V config i (suc left) = omega (arith, new_workers-load V config (suc i) left)

pub new_workers-AllIdle :
    (V : Type 0) (config : EngineConfig) (i left : ℕ) → AllIdle (new_workers {V = V} config i left)
unfolding new_workers new_worker
new_workers-AllIdle V config i zero = tt
new_workers-AllIdle V config i (suc left) =
    ((refl, refl, refl), new_workers-AllIdle V config (suc i) left)

module _ {V : Type 0} (C : VertexClass V) where
  add_to-AllIdle :
      (w : ℕ) (v : V) (ws ws' : List (WorkerNode V × MessageBus))
      → add_to C w v ws ≡ some ws'
      → AllIdle ws
      → AllIdle ws'
  unfolding add_to add_vertex
  add_to-AllIdle w v ws ws' e a = elim (Option-cases (get_elem? ws w)) [
    | inl n ↦ absurd (cc (rw n at e))
    | inr (x, n) ↦
        let P = λ (y : WorkerNode V × MessageBus). IsIdle y.0.stats in
        subst AllIdle (some-eq (rw n at e)) (All-set P ws w _ (All-elem P ws w x n a) a)
  ]

  pub distribute_vertices-AllIdle :
      (p : PartitionMap) (vs : List V) (ws ws' : List (WorkerNode V × MessageBus))
      → distribute_vertices C p vs ws ≡ some ws'
      → AllIdle ws
      → AllIdle ws'
  unfolding distribute_vertices
  distribute_vertices-AllIdle p [] ws ws' e a = subst AllIdle (some-eq e) a
  distribute_vertices-AllIdle p (v ∷ vs) ws ws' e a =
      elim (Option-cases (add_to C (owner_of p (C.base v).id) v ws)) [
        | inl n ↦ absurd (cc (rw n at e))
        | inr (x, n) ↦
            distribute_vertices-AllIdle p vs x ws' (rw n at e)
              (add_to-AllIdle (owner_of p (C.base v).id) v ws x n a)
      ]

  add_to-load :
      (w : ℕ) (v : V) (ws ws' : List (WorkerNode V × MessageBus))
      → add_to C w v ws ≡ some ws'
      → weigh load ws' ≤ suc (weigh load ws)
  unfolding add_to add_vertex
  add_to-load w v ws ws' e = elim (Option-cases (get_elem? ws w)) [
    | inl n ↦ absurd (cc (rw n at e))
    | inr (x, n) ↦
        let k = weigh-write load ws w x (add_vertex C v x.0, x.1) n in
        let s = some-eq (rw n at e) in
        omega (arith, k, ap (weigh load) s, insert-length-le x.0.vertices (C.base v).id v)
  ]

  pub distribute_vertices-load :
      (p : PartitionMap) (vs : List V) (ws ws' : List (WorkerNode V × MessageBus))
      → distribute_vertices C p vs ws ≡ some ws'
      → weigh load ws' ≤ weigh load ws + length vs
  unfolding distribute_vertices
  distribute_vertices-load p [] ws ws' e = omega (arith, ap (weigh load) (some-eq e))
  distribute_vertices-load p (v ∷ vs) ws ws' e =
      elim (Option-cases (add_to C (owner_of p (C.base v).id) v ws)) [
        | inl n ↦ absurd (cc (rw n at e))
        | inr (x, n) ↦ omega (
          arith,
          add_to-load (owner_of p (C.base v).id) v ws x n,
          distribute_vertices-load p vs x ws' (rw n at e),
        )
      ]

  -- One if the vertex has the id `x`.
  abbrev pub called : ℕ → V → ℕ
  called x v = if (C.base v).id == x then 1 else 0

  insert_all-find :
      (p : PartitionMap) (i x : ℕ) (vs : List V) (m : Map V)
      → weigh (called x) vs ≡ 0
      → find x (insert_all C (owned C p i vs) m) ≡ find x m
  unfolding weigh
  insert_all-find p i x [] m e = refl
  insert_all-find p i x (v ∷ vs) m e =
      let skip : (if (C.base v).id == x then some v else find x m) ≡ find x m = ground arith in
      elim (Bool-cases (owner_of p (C.base v).id == i)) [
        | inl mine ↦ rw mine (
            insert_all-find p i x vs (insert (C.base v).id v m) (omega arith)
            ∙ find-insert (C.base v).id x v m
            ∙ skip)
        | inr other ↦ rw other (insert_all-find p i x vs m (omega arith))
      ]

  module _ (Live : V → Type 0) where
    AnyLive-get_or :
        (ws : List (WorkerNode V × MessageBus)) (i : ℕ) (d : WorkerNode V × MessageBus)
        → i < length ws
        → HasLive C Live (get_or ws i d).0.vertices
        → AnyLive C Live ws
    AnyLive-get_or [] i d l h = elim l [ ]
    AnyLive-get_or (w ∷ ws) zero d l h = inl h
    AnyLive-get_or (w ∷ ws) (suc i) d l h = inr (AnyLive-get_or ws i d (omega arith) h)

    -- A live vertex whose id no other vertex of the graph has reaches its owner.
    pub Distributed-AnyLive :
        (p : PartitionMap) (v : V) (vs : List V) (ws ws' : List (WorkerNode V × MessageBus))
        → IsValid p
        → length ws ≡ p.worker_count
        → weigh (called (C.base v).id) vs ≡ 0
        → Live v
        → Distributed C p (v ∷ vs) ws ws'
        → AnyLive C Live ws'
    Distributed-AnyLive p v vs [] ws' valid n once l r = absurd (omega (arith, valid.0))
    Distributed-AnyLive p v vs (d ∷ ws) ws' valid n once l r =
        let x = (C.base v).id in
        let i = owner_of p x in
        let below = owner_of-lt p x valid in
        let m = (get_or (d ∷ ws) i d).0.vertices in
        let there : find x (insert_all C (owned C p i (v ∷ vs)) m) ≡ some v = rw (==_refl i) (
          insert_all-find p i x vs (insert x v m) once
          ∙ find-insert x x v m
          ∙ rw (==_refl x) refl) in
        AnyLive-get_or ws' i d (omega (arith, r.size, n))
          (HasLive-find C Live _ x v (ap (find x) (r.vertices i d (omega (arith, n))) ∙ there) l)
