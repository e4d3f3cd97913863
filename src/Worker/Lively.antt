-- ===== src/Worker/Lively.antt =====
-- `WorkerNode::run_superstep` with vertices that never vote to halt.
use pregel.Common.{
  ℕ, suc, ◌≤◌, ◌<◌, ◌≡◌, ◌⊎◌, refl, sym, ◌∙◌, ap, subst, List, [], ◌∷◌, length, Map, find, insert,
  some, false, Bool-cases, Option-cases, inl, inr, arith, some-eq, ◌==◌,
}
use pregel.Types.{Message}
use pregel.Vertex.{clear_outbox}
use pregel.Worker.{
  VertexClass, WorkerNode, wake, run_vertex, run_vertices, compute_phase, dispatch_messages,
  active_count, deliver,
}
use pregel.Partition.{PartitionMap}
use pregel.Bus.{MessageBus}
use pregel.Worker.Compute.{wake-cons}
use pregel.Worker.Collect.{emptied_by, emptied, Superstep}

module _ {V : Type 0} (C : VertexClass V) (Live : V → Type 0) where
  -- Live vertices have not voted to halt, and stay live.
  pub record StaysLive : Type 0 where
    pub awake : (v : V) → Live v → (C.base v).halted ≡ false
    pub computed :
        (v : V) (inbox : List Message) (step : ℕ) → Live v → Live (C.compute inbox step v)
    pub cleared : (v : V) → Live v → Live (C.with_base (clear_outbox (C.base v)) v)

  abbrev pub HasLive : Map V → Type 0
  HasLive [] = ⊥
  HasLive ((k, v) ∷ m) = Live v ⊎ HasLive m

  pub HasLive-find : (m : Map V) (k : ℕ) (v : V) → find k m ≡ some v → Live v → HasLive m
  unfolding find
  HasLive-find [] k v e l = absurd cc
  HasLive-find ((j, u) ∷ m) k v e l = elim (Bool-cases (j == k)) [
    | inl hit ↦ inl (subst Live (sym (some-eq (rw hit at e))) l)
    | inr miss ↦ inr (HasLive-find m k v (rw miss at e) l)
  ]

  active_count-HasLive : StaysLive → (m : Map V) → HasLive m → 0 < active_count C m
  unfolding active_count
  active_count-HasLive s [] h = elim h [ ]
  active_count-HasLive s ((k, v) ∷ m) (inl l) = rw (s.awake v l) (omega arith)
  active_count-HasLive s ((k, v) ∷ m) (inr h) = ground (arith, active_count-HasLive s m h)

  active_count-le : (m : Map V) → active_count C m ≤ length m
  unfolding active_count
  active_count-le [] = omega arith
  active_count-le ((k, v) ∷ m) = ground (arith, active_count-le m)

  wake-HasLive :
      StaysLive → (boxes : Map (List Message)) (m : Map V) → HasLive m → HasLive (wake C boxes m).0
  unfolding wake
  wake-HasLive s boxes [] h = h
  wake-HasLive s boxes ((k, v) ∷ m) (inl l) = rw (s.awake v l) (inl l)
  wake-HasLive s boxes ((k, v) ∷ m) (inr h) =
      subst HasLive (sym (ap {A = Map V × List ℕ} (λ r. r.0) (wake-cons C boxes k v m)))
        (inr (wake-HasLive s boxes m h))

  wake-length : (boxes : Map (List Message)) (m : Map V) → length (wake C boxes m).0 ≡ length m
  unfolding wake
  wake-length boxes [] = refl
  wake-length boxes ((k, v) ∷ m) = ground (arith, wake-length boxes m)

  insert-HasLive :
      (m : Map V) (k : ℕ) (v u : V)
      → find k m ≡ some v
      → (Live v → Live u)
      → HasLive m
      → HasLive (insert k u m)
  unfolding find insert
  insert-HasLive [] k v u e f h = elim h [ ]
  insert-HasLive ((j, x) ∷ m) k v u e f (inl l) = elim (Bool-cases (j == k)) [
    | inl hit ↦ rw hit (inl (f (subst Live (some-eq (rw hit at e)) l)))
    | inr miss ↦ rw miss (inl l)
  ]
  insert-HasLive ((j, x) ∷ m) k v u e f (inr h) = elim (Bool-cases (j == k)) [
    | inl hit ↦ rw hit (inr h)
    | inr miss ↦ rw miss (inr (insert-HasLive m k v u (rw miss at e) f h))
  ]

  insert-length :
      (m : Map V) (k : ℕ) (v u : V) → find k m ≡ some v → length (insert k u m) ≡ length m
  unfolding find insert
  insert-length [] k v u e = absurd cc
  insert-length ((j, x) ∷ m) k v u e = ground (arith, insert-length m k v u)

  run_vertex-HasLive :
      StaysLive
      → (step x : ℕ) (w : WorkerNode V)
      → (HasLive w.vertices → HasLive (run_vertex C step x w).vertices)
        × (length (run_vertex C step x w).vertices ≡ length w.vertices)
  unfolding run_vertex
  run_vertex-HasLive s step x w = elim (Option-cases (find x w.vertices)) [
    | inl n ↦ rw (n, run_vertex) (λ h. h, refl)
    | inr (v, n) ↦
        rw (n, run_vertex)
          (
            insert-HasLive w.vertices x v _ n (s.computed v _ step),
            insert-length w.vertices x v _ n,
          )
  ]

  run_vertices-HasLive :
      StaysLive
      → (step : ℕ) (xs : List ℕ) (w : WorkerNode V)
      → (HasLive w.vertices → HasLive (run_vertices C step xs w).vertices)
        × (length (run_vertices C step xs w).vertices ≡ length w.vertices)
  unfolding run_vertices
  run_vertices-HasLive s step [] w = (λ h. h, refl)
  run_vertices-HasLive s step (x ∷ xs) w =
      let f = run_vertex-HasLive s step x w in
      let g = run_vertices-HasLive s step xs (run_vertex C step x w) in
      (λ h. g.0 (f.0 h), g.1 ∙ f.1)

  emptied-HasLive : StaysLive → (m : Map V) → HasLive m → HasLive (emptied C m)
  emptied-HasLive s [] h = h
  emptied-HasLive s ((k, v) ∷ m) (inl l) = inl (go (C.base v).outbox)
    where
      go : (box : List Message) → Live (emptied_by C box v)
      go [] = l
      go (x ∷ xs) = s.cleared v l
  emptied-HasLive s ((k, v) ∷ m) (inr h) = inr (emptied-HasLive s m h)

  emptied-length : (m : Map V) → length (emptied C m) ≡ length m
  emptied-length [] = refl
  emptied-length ((k, v) ∷ m) = ap suc (emptied-length m)

  compute_phase-HasLive :
      StaysLive
      → (order : List ℕ → List ℕ) (step : ℕ) (ms : List Message) (w : WorkerNode V)
      → (HasLive w.vertices → HasLive (compute_phase C order step ms w).vertices)
        × (length (compute_phase C order step ms w).vertices ≡ length w.vertices)
  unfolding compute_phase dispatch_messages
  compute_phase-HasLive s order step ms w =
      let boxes = deliver ms w.vertex_inbox in
      let r =
        run_vertices-HasLive s step (order (wake C boxes w.vertices).1)
          (record (dispatch_messages ms w) { vertices = (wake C boxes w.vertices).0 }) in
      (λ h. r.0 (wake-HasLive s boxes w.vertices h), r.1 ∙ wake-length boxes w.vertices)

  -- A superstep of a worker keeps its live vertex, and the count that it returns is between one and the number of
  -- its vertices, which stays the same.
  pub Superstep-HasLive :
      StaysLive
      → (p : PartitionMap) (order : List ℕ → List ℕ) (step now : ℕ) (ms : List Message)
        (w : WorkerNode V) (b : MessageBus) (r : WorkerNode V × (MessageBus × ℕ))
      → Superstep C p now (compute_phase C order step ms w).vertices b r
      → (HasLive w.vertices → HasLive r.0.vertices × (0 < r.1.1))
        × (length r.0.vertices ≡ length w.vertices)
        × (r.1.1 ≤ length w.vertices)
  Superstep-HasLive s p order step now ms w b r c =
      let m = (compute_phase C order step ms w).vertices in
      let k = compute_phase-HasLive s order step ms w in
      (
        λ h. (
          subst HasLive (sym c.left_with) (emptied-HasLive s m (k.0 h)),
          omega (arith, c.active, active_count-HasLive s m (k.0 h)),
        ),
        ap length c.left_with ∙ emptied-length m ∙ k.1,
        omega (arith, c.active, active_count-le m, k.1),
      )
