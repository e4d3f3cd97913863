-- ===== src/Engine/Market/Turns.antt =====
-- `Coordinator::run` on the order-book graph: how often a venue computes.
use pregel.Common.{ℕ, ◌^◌, ◌<◌, ◌≡◌, [], ◌∷◌, length, find, keys, some, false, ℤ}
use pregel.Types.{u32}
use pregel.Partition.{PartitionMap}
use pregel.Bus.{MessageBus}
use pregel.Heartbeat.{Floating}
use pregel.Worker.{WorkerNode}
use pregel.Worker.Inboxes.{NoDup}
use pregel.Coordinator.{Beat, Coordinator, Schedule}
use pregel.Coordinator.Run.{IsReady}
use pregel.OrderBook.Venue.{VenueVertex}
use pregel.OrderBook.GraphVertex.{GraphVertex, venue_vertex}

module _ {Rng : Type 0} (draw : Rng → ℤ × Rng) where
  -- An open venue that has computed as often as its tick says.
  abbrev At : ℕ → GraphVertex Rng → Type 0
  At t g =
      (v : VenueVertex Rng) × (g ≡ venue_vertex v) × (v.base.halted ≡ false) × (u32 v.tick ≡ u32 t)

  module _ (p : PartitionMap) (sched : Schedule) where
    -- The only worker, with a venue at `k` of the tick `t`.
    record Holds (k t : ℕ) (w : WorkerNode (GraphVertex Rng)) (b : MessageBus) : Type 0 where
      ready : IsReady p b
      no_dup : NoDup (keys w.vertices)
      few : length w.vertices < 2 ^ 64
      there : (g : GraphVertex Rng) × (find k w.vertices ≡ some g) × At t g

  module _ {F : Floating} (p : PartitionMap) (sched : Schedule) (clock : ℕ → ℕ → Beat)
      (time : ℕ → ℕ) where
    -- A coordinator with one worker that holds the venue.
    abbrev HoldsOne : ℕ → ℕ → Coordinator (GraphVertex Rng) F → Type 0
    HoldsOne k t c =
        (w : WorkerNode (GraphVertex Rng)) × (b : MessageBus) × (c.workers ≡ (w, b) ∷ [])
        × Holds p sched k t w b
