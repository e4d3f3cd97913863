-- ===== src/Worker/Kept.antt =====
-- `WorkerNode::run_superstep`: what it keeps of the vertices of a worker.
use pregel.Common.{
  ℕ, ◌<◌, ◌≡◌, refl, ◌∙◌, sym, ap, subst, List, [], ◌∷◌, ◌==◌, if◌then◌else◌, length, Map, find,
  keys, keys-insert, Bool, some, true, false, some-eq, Option-cases, Bool-cases, inl, inr, arith,
  replicate, length-replicate,
}
use pregel.Types.{Message}
use pregel.Vertex.{Vertex}
use pregel.Partition.{PartitionMap, IsValid}
use pregel.Bus.{MessageBus, drain_inbox}
use pregel.Worker.{
  VertexClass, WorkerNode, wake, run_vertex, run_vertices, dispatch_messages, compute_phase,
  collect_and_route_outbox, collect, finish_superstep, run_superstep,
}
use pregel.Worker.Inboxes.{NoDup, IsOrder}
use pregel.Worker.Compute.{compute_phase-find, wake-cons}
use pregel.Worker.Collect.{IsLawful, emptied_by, emptied, run_superstep-Superstep}

-- A bus between two supersteps: one outbox for each worker of the map, all of them empty.
pub record IsAtRest (p : PartitionMap) (b : MessageBus) : Type 0 where
  pub workers : b.worker_count ≡ p.worker_count
  pub local : b.local_id < p.worker_count
  pub boxes : b.outboxes ≡ replicate b.worker_count []

module _ {V : Type 0} (C : VertexClass V) where
  wake-keys : (boxes : Map (List Message)) (m : Map V) → keys (wake C boxes m).0 ≡ keys m
  unfolding wake
  wake-keys boxes [] = refl
  wake-keys boxes ((j, v) ∷ m) =
      ap (λ (r : Map V × List ℕ). keys r.0) (wake-cons C boxes j v m)
      ∙ ap (◌∷◌ j) (wake-keys boxes m)

  run_vertices-keys :
      (step : ℕ) (ks : List ℕ) (w : WorkerNode V)
      → keys (run_vertices C step ks w).vertices ≡ keys w.vertices
  unfolding run_vertices run_vertex
  run_vertices-keys step [] w = refl
  run_vertices-keys step (k ∷ ks) w =
      run_vertices-keys step ks (run_vertex C step k w) ∙ elim (Option-cases (find k w.vertices)) [
        | inl n ↦ rw (n, run_vertex) refl
        | inr (v, n) ↦ rw (n, run_vertex) (keys-insert k _ v w.vertices n)
      ]

  pub compute_phase-keys :
      (order : List ℕ → List ℕ) (step : ℕ) (ms : List Message) (w : WorkerNode V)
      → keys (compute_phase C order step ms w).vertices ≡ keys w.vertices
  unfolding compute_phase dispatch_messages
  compute_phase-keys order step ms w =
      run_vertices-keys step _ _ ∙ wake-keys (dispatch_messages ms w).vertex_inbox w.vertices

  pub find-emptied :
      (k : ℕ) (m : Map V) (v : V)
      → find k m ≡ some v
      → find k (emptied C m) ≡ some (emptied_by C (C.base v).outbox v)
  unfolding find
  find-emptied k [] v e = absurd cc
  find-emptied k ((j, u) ∷ m) v e = elim (Bool-cases (j == k)) [
    | inl hit ↦ rw hit (ap (λ q. some (emptied_by C (C.base q).outbox q)) (some-eq (rw hit at e)))
    | inr miss ↦ rw miss (find-emptied k m v (rw miss at e))
  ]

  pub run_superstep-inboxes :
      (p : PartitionMap) (order : List ℕ → List ℕ) (step now : ℕ) (w : WorkerNode V)
      (b : MessageBus) (r : WorkerNode V × (MessageBus × ℕ))
      → run_superstep C p order step now w b ≡ some r
      → r.0.vertex_inbox ≡ (compute_phase C order step (drain_inbox b).1 w).vertex_inbox
  unfolding run_superstep collect_and_route_outbox finish_superstep
  run_superstep-inboxes p order step now w b r e =
      let w₁ = compute_phase C order step (drain_inbox b).1 w in
      elim (Option-cases (collect C p w₁.vertices w₁.stats.messages_sent (drain_inbox b).0)) [
        | inl n ↦ absurd (ground (arith, e, n))
        | inr (c, n) ↦
            sym
              (ap (λ (x : WorkerNode V × (MessageBus × ℕ)). x.0.vertex_inbox) (some-eq (rw n at e)))
      ]

  if_keeps : (P : V → Type 0) (c : Bool) (x y : V) → P x → P y → P (if c then x else y)
  if_keeps P true x y a b = a
  if_keeps P false x y a b = b

  emptied_keeps :
      (P : V → Type 0)
      → ((x : Vertex) (y : V) → P y → P (C.with_base x y))
      → (box : List Message) (y : V) → P y
      → P (emptied_by C box y)
  emptied_keeps P kept [] y a = a
  emptied_keeps P kept (x ∷ xs) y a = kept _ y a

  -- What `compute` and a write of the base part keep of a vertex, a superstep keeps.
  pub superstep_keeps :
      (P : V → Type 0) (p : PartitionMap) (order : List ℕ → List ℕ) (step now : ℕ)
      (w : WorkerNode V) (b : MessageBus) (k : ℕ) (v u : V) (r : WorkerNode V × (MessageBus × ℕ))
      → ((x : Vertex) (y : V) → P y → P (C.with_base x y))
      → ((ms : List Message) (n : ℕ) (y : V) → P y → P (C.compute ms n y))
      → IsLawful C
      → IsValid p
      → IsOrder order
      → NoDup (keys w.vertices)
      → IsAtRest p b
      → find k w.vertices ≡ some v
      → run_superstep C p order step now w b ≡ some r
      → find k r.0.vertices ≡ some u
      → P v
      → P u
  superstep_keeps P p order step now w b k v u r kept made l valid o d h e ran there start =
      let (r', ran', s) =
        run_superstep-Superstep C p order step now w b l valid
          (ap length h.boxes ∙ length-replicate b.worker_count [] ∙ h.workers) in
      let w₁ = compute_phase C order step (drain_inbox b).1 w in
      let found = (compute_phase-find C order step (drain_inbox b).1 w k v o d e).0 in
      subst P
        (some-eq (
          sym (ap (find k) s.left_with ∙ find-emptied k w₁.vertices _ found)
          ∙ ap (λ (q : WorkerNode V × (MessageBus × ℕ)). find k q.0.vertices)
              (some-eq (sym ran' ∙ ran))
          ∙ there))
        (emptied_keeps P kept _ _
          (if_keeps P _ _ _ (made _ step _ (if_keeps P _ _ _ (kept _ v start) start)) start))
