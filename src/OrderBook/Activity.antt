-- ===== src/OrderBook/Activity.antt =====
-- `run_superstep` of a worker of the order-book graph that owns a venue.
use pregel.Common.{
  some-eq, ℕ, ◌<◌, ◌≡◌, ◌∙◌, ap, List, [], ◌∷◌, ◌++◌, ◌==◌, ℤ, Map, find, keys, some, false,
  Bool-cases, inl, inr, arith,
}
use pregel.Partition.{PartitionMap, IsValid}
use pregel.Bus.{MessageBus, drain_inbox}
use pregel.Bus.Routing.{Fits}
use pregel.Worker.{VertexClass, WorkerNode, active_count, run_superstep, inbox_at}
use pregel.Worker.Inboxes.{NoDup, IsOrder, addressed}
use pregel.Worker.Compute.{compute_phase-find}
use pregel.Worker.Collect.{run_superstep-Superstep}
use pregel.OrderBook.Venue.{VenueVertex, compute}
use pregel.OrderBook.Venue.Nbbo.{compute-nbbo}
use pregel.OrderBook.GraphVertex.{GraphVertex, venue_vertex, graph_class, graph_class-IsLawful}

active_count-find :
    {V : Type 0} (C : VertexClass V) (m : Map V) (k : ℕ) (v : V)
    → find k m ≡ some v
    → (C.base v).halted ≡ false
    → 0 < active_count C m
unfolding active_count find
active_count-find C [] k v e h = absurd cc
active_count-find C ((j, u) ∷ m) k v e h = elim (Bool-cases (j == k)) [
  | inl hit ↦ ground (arith, h, ap (λ q. (C.base q).halted) (some-eq (rw hit at e)))
  | inr miss ↦ ground (arith, active_count-find C m k v (rw miss at e) h)
]

module _ {Rng : Type 0} (draw : Rng → ℤ × Rng) where
  -- A worker that owns a venue which has not halted never reports zero active vertices: a venue never
  -- votes to halt, so its count keeps the coordinator running.
  pub venue_keeps_active :
      (p : PartitionMap) (order : List ℕ → List ℕ) (step now : ℕ) (w : WorkerNode (GraphVertex Rng))
      (b : MessageBus) (k : ℕ) (v : VenueVertex Rng)
      → IsValid p
      → Fits p b
      → IsOrder order
      → NoDup (keys w.vertices)
      → find k w.vertices ≡ some (venue_vertex v)
      → v.base.halted ≡ false
      → (r : WorkerNode (GraphVertex Rng) × (MessageBus × ℕ)) × (run_superstep
            (graph_class draw)
            p
            order
            step
            now
            w
            b
          ≡ some r)
        × (0 < r.1.1)
  venue_keeps_active p order step now w b k v valid fits o d e h =
      let (r, c, s) =
        run_superstep-Superstep (graph_class draw) p order step now w b (graph_class-IsLawful draw)
          valid fits in
      let inbox = inbox_at k w.vertex_inbox ++ addressed k (drain_inbox b).1 in
      let there =
        (compute_phase-find (graph_class draw) order step (drain_inbox b).1 w k (venue_vertex v) o d
          e).0 in
      (
        r,
        c,
        omega (
          arith,
          s.active,
          active_count-find (graph_class draw) _ k (venue_vertex (compute draw inbox step v))
              (there ∙ ground (arith, h)) ((compute-nbbo draw inbox step v).5 ∙ h),
        ),
      )
