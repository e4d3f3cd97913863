-- ===== src/Main/Failure.antt =====
-- main.cpp: when a run fails.
use pregel.Common.{
  ℕ, suc, ◌<◌, ◌≡◌, ◌↔◌, ◌⊎◌, refl, ◌∙◌, ap, none, some, arith, ℤ, inl, inr, ℕ_discrete, Bool, ◌^◌,
  Option, ◌>>=◌,
}
use pregel.Types.{EngineConfig, default_config}
use pregel.Heartbeat.{Floating}
use pregel.Coordinator.{Schedule, Beat, Coordinator, new_coordinator}
use pregel.Coordinator.Lively.{Busy}
use pregel.OrderBook.GraphVertex.{GraphVertex}
use pregel.OrderBook.Graph.{Source, OrderBookGraphParams, owner_in}
use pregel.OrderBook.Graph.Loops.{build_order_book_graph, add_venues, add_venue}
use pregel.Engine.{GraphEngine, setup_infrastructure, set_up, divided_by}
use pregel.Engine.Distribution.{divided_by_lem}
use pregel.Engine.Market.{graph_params, load_order_book, set_up_order_book, run_order_book}
use pregel.Engine.Market.Busy.{run_order_book-Ends, run_order_book-Busy}
use pregel.Main.{Outcome, main, run_parsed}
use pregel.Main.Options.{options, parse_args-options}

bind_none {ℓ κ} :
    {A : Type ℓ} {B : Type κ} {o : Option A} (f : A → Option B) → o ≡ none → (o >>= f) ≡ none
bind_none f e = ap (λ x. x >>= f) e

-- A graph with a venue is not built without workers.
no_owner :
    {S Rng : Type 0} (R : Source S Rng) (p : OrderBookGraphParams) (s : S) (n : ℕ)
    → p.venue_count ≡ suc n
    → p.worker_count ≡ 0
    → build_order_book_graph R p s ≡ none
unfolding build_order_book_graph add_venues add_venue owner_in
no_owner R p s n v w = rw (v, w) refl

module _ {S Rng : Type 0} (F : Floating) (R : Source S Rng) (draw : Rng → ℤ × Rng)
    (sched : Schedule) (time : ℕ → ℕ) (hardware : ℕ) (threshold : F.Double) (now : ℕ → ℤ) (seed : S)
    (clock : ℕ → ℕ → Beat) where
  abbrev run_of : EngineConfig → Option (Coordinator (GraphVertex Rng) F)
  run_of config = run_order_book F R draw sched time hardware threshold now seed clock config

  no_nodes : (config : EngineConfig) → config.numa_nodes ≡ 0 → run_of config ≡ none
  unfolding run_order_book set_up_order_book setup_infrastructure divided_by
  no_nodes config z = rw z refl

  no_workers :
      (config : EngineConfig)
      → config.worker_count ≡ 0
      → 0 < config.numa_nodes
      → run_of config ≡ none
  unfolding run_order_book set_up_order_book setup_infrastructure load_order_book new_coordinator
  no_workers config z h =
      let e : GraphEngine (GraphVertex Rng) F = set_up hardware threshold now config in
      let load = load_order_book F R draw sched time hardware threshold now seed in
      bind_none _ (
        ap (λ o. o >>= load) (divided_by_lem config.numa_nodes e h)
        ∙ bind_none _ (no_owner R (graph_params config) seed 4 refl z))

  -- A run of the engine on its order-book graph fails, by a division by zero, exactly if it has no workers or no
  -- NUMA nodes.
  pub run_order_book-fails :
      (config : EngineConfig)
      → (run_order_book F R draw sched time hardware threshold now seed clock config ≡ none)
        ↔ ((config.worker_count ≡ 0) ⊎ (config.numa_nodes ≡ 0))
  run_order_book-fails config = (
    λ e. elim (ℕ_discrete config.worker_count 0) [
      | yes w ↦ inl w
      | no w ↦ elim (ℕ_discrete config.numa_nodes 0) [
        | yes n ↦ inr n
        | no n ↦
            let (c, f, b) =
              run_order_book-Ends F R draw sched time hardware threshold now seed clock config
                (omega (arith, w)) (omega (arith, n)) in
            absurd (cc (e, f))
      ]
    ],
    λ z. elim (ℕ_discrete config.numa_nodes 0) [
      | yes n ↦ no_nodes config n
      | no n ↦ elim z [
        | inl w ↦ no_workers config w (omega (arith, n))
        | inr n' ↦ no_nodes config n'
      ]
    ],
  )

  -- The program, called with the options of any configuration with one worker and with NUMA nodes whose numbers are
  -- below 2 ^ 31, runs to the end and makes exactly the number of supersteps asked for, each with active vertices.
  pub main-Busy :
      (steps nodes : ℕ) (fault rdma : Bool)
      → 0 < nodes
      → steps < 2 ^ 31
      → nodes < 2 ^ 31
      → let cfg : EngineConfig = record default_config {
        worker_count = 1;
        max_supersteps = steps;
        numa_nodes = nodes;
        enable_fault_injection = fault;
        enable_rdma_sim = rdma;
      } in
        (c : Coordinator (GraphVertex Rng) F) × (main F R draw sched time hardware threshold now
            seed clock
            (options cfg)
          ≡ some (Outcome.ran c))
        × Busy 0 steps c.reports
  unfolding main run_parsed
  main-Busy steps nodes fault rdma n k l =
      let cfg : EngineConfig = record default_config {
        worker_count = 1;
        max_supersteps = steps;
        numa_nodes = nodes;
        enable_fault_injection = fault;
        enable_rdma_sim = rdma;
      } in
      let (c, f, b) =
        run_order_book-Busy F R draw sched time hardware threshold now seed clock cfg refl n in
      (c, rw (parse_args-options 1 steps nodes fault rdma (omega arith) k l, f) refl, b)
