-- ===== src/OrderBook/Settlement.antt =====
-- `WorkerNode::run_superstep` twice on the order-book graph: the fills that reach a price level.
use pregel.Common.{
  ℕ, suc, ◌+◌, ◌-◌, ◌≡◌, refl, ◌∙◌, ap, List, [], ◌∷◌, ◌++◌, Bool-cases, inl, inr, find, keys, some,
  arith, ℤ,
}
use pregel.Types.{Message}
use pregel.Vertex.{Vertex, wake_up}
use pregel.Partition.{PartitionMap, owner_of, IsValid}
use pregel.Bus.{MessageBus, drain_inbox, network}
use pregel.Bus.Own.{remote_mail}
use pregel.Worker.{WorkerNode, compute_phase, run_superstep}
use pregel.Worker.Inboxes.{NoDup, IsOrder, addressed}
use pregel.Worker.Kept.{IsAtRest, superstep_keeps}
use pregel.Worker.Delivery.{sent, after_turn, mail_delivered}
use pregel.OrderBook.Order.Fills.{fills}
use pregel.OrderBook.PriceLevel.{PriceLevelVertex, compute}
use pregel.OrderBook.PriceLevel.Depth.{compute-DepthAfter}
use pregel.OrderBook.GraphVertex.{
  GraphVertex, level_vertex, with_base_of, compute_of, graph_class, graph_class-IsLawful,
}

fills-append : (ms ns : List Message) → fills (ms ++ ns) ≡ fills ms + fills ns
fills-append [] ns = omega arith
fills-append (m ∷ ms) ns = ground (arith, fills-append ms ns)

module _ {Rng : Type 0} (draw : Rng → ℤ × Rng) where
  abbrev IsLevel : GraphVertex Rng → Type 0
  IsLevel g = (l : PriceLevelVertex) × (g ≡ level_vertex l)

  with_base_of-IsLevel : (b : Vertex) (g : GraphVertex Rng) → IsLevel g → IsLevel (with_base_of b g)
  with_base_of-IsLevel b g (l, e) = (record l { base = b }, ap (with_base_of b) e)

  compute_of-IsLevel :
      (ms : List Message) (step : ℕ) (g : GraphVertex Rng)
      → IsLevel g
      → IsLevel (compute_of draw ms step g)
  compute_of-IsLevel ms step g (l, e) = (compute ms step l, ap (compute_of draw ms step) e)

  -- The turn of a price level, with its mail.
  level_turn :
      (step : ℕ) (mail : List Message) (l : PriceLevelVertex)
      → (l' : PriceLevelVertex) × (after_turn (graph_class draw) step mail (level_vertex l)
          ≡ level_vertex l')
        × (l'.state.total_qty ≡ l.state.total_qty - fills mail)
  level_turn step [] l = elim (Bool-cases l.base.halted) [
    | inl h ↦ (l, rw h refl, omega arith)
    | inr h ↦ (compute [] step l, rw h refl, (compute-DepthAfter [] step l).0)
  ]
  level_turn step (m ∷ ms) l = elim (Bool-cases l.base.halted) [
    | inl h ↦ (
      compute (m ∷ ms) step (record l { base = wake_up l.base }),
      rw h refl,
      (compute-DepthAfter (m ∷ ms) step (record l { base = wake_up l.base })).0,
    )
    | inr h ↦ (compute (m ∷ ms) step l, rw h refl, (compute-DepthAfter (m ∷ ms) step l).0)
  ]

  -- Two supersteps of a worker whose vertices have different ids, with a valid partition map and a
  -- bus that has one empty outbox for each worker: a price level that the map assigns to the worker
  -- is still a price level after the first one, and in the second one its quantity falls, down to
  -- zero at most, by exactly the quantities of the fills for it: those that the vertices of the
  -- worker sent in the first one, and those among what the transport has received, however far its
  -- network threads have come in between.
  pub level_settles :
      (p : PartitionMap) (order order' : List ℕ → List ℕ) (step now : ℕ) (rounds : ℕ → ℕ × ℕ)
      (w : WorkerNode (GraphVertex Rng)) (b : MessageBus) (k : ℕ) (v : PriceLevelVertex)
      → IsValid p
      → IsOrder order
      → IsOrder order'
      → NoDup (keys w.vertices)
      → IsAtRest p b
      → owner_of p k ≡ b.local_id
      → find k w.vertices ≡ some (level_vertex v)
      → (r : WorkerNode (GraphVertex Rng) × (MessageBus × ℕ)) × (run_superstep
            (graph_class draw)
            p
            order
            step
            now
            w
            b
          ≡ some r)
        × (l : PriceLevelVertex) × (find k r.0.vertices ≡ some (level_vertex l))
        × (l' : PriceLevelVertex) × (find k
              (compute_phase
                (graph_class draw)
                order'
                (suc step)
                (drain_inbox (network rounds r.1.0)).1
                r.0).vertices
            ≡ some (level_vertex l'))
        × (l'.state.total_qty
            ≡ l.state.total_qty
              - (fills (addressed k (sent (graph_class draw) order step w b))
                  + fills (addressed k (remote_mail (network rounds r.1.0)))))
  level_settles p order order' step now rounds w b k v valid o o' d h own e =
      let (r, ran, rest, u, there, next) =
        mail_delivered (graph_class draw) p order order' step now rounds w b k (level_vertex v)
          (graph_class-IsLawful draw) valid o o' d h own e in
      let (l, same) =
        superstep_keeps (graph_class draw) IsLevel p order step now w b k (level_vertex v) u r
          with_base_of-IsLevel compute_of-IsLevel (graph_class-IsLawful draw) valid o d h e ran
          there (v, refl) in
      let ours = addressed k (sent (graph_class draw) order step w b) in
      let (l', turn, left) =
        level_turn (suc step) (ours ++ addressed k (remote_mail (network rounds r.1.0))) l in
      (
        r,
        ran,
        l,
        there ∙ ap some same,
        l',
        next
            ∙ ap
                (λ q. some (
                  after_turn (graph_class draw) (suc step)
                    (ours ++ addressed k (remote_mail (network rounds r.1.0))) q))
                same
            ∙ ap some turn,
        omega (arith, left, fills-append ours (addressed k (remote_mail (network rounds r.1.0)))),
      )
