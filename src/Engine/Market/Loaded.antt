-- ===== src/Engine/Market/Loaded.antt =====
-- `GraphEngine` on the order-book graph: what `setup_infrastructure` and `load_graph` leave.
use pregel.Common.{
  ℕ, ◌≤◌, ◌<◌, ◌≡◌, refl, sym, ◌∙◌, ap, subst, List, [], ◌∷◌, length, arith, All, ℤ, weigh, false,
  Gives, Gives-bind, some-eq, ◌>>=◌,
}
use pregel.Types.{Message, EngineConfig}
use pregel.Vertex.{clear_outbox}
use pregel.Partition.{PartitionMap, IsValid}
use pregel.Bus.{MessageBus}
use pregel.Heartbeat.{Floating}
use pregel.Worker.{WorkerNode}
use pregel.Worker.Lively.{StaysLive}
use pregel.Coordinator.{new_coordinator}
use pregel.Coordinator.{Schedule}
use pregel.Coordinator.Run.{IsReady, AllReady}
use pregel.Coordinator.Lively.{load, AnyLive}
use pregel.OrderBook.Venue.Nbbo.{compute-nbbo}
use pregel.OrderBook.GraphVertex.{
  GraphVertex, order_vertex, level_vertex, venue_vertex, maker_vertex, graph_class, base_of,
}
use pregel.OrderBook.Graph.{Source}
use pregel.OrderBook.Graph.Shape.{IsVenueAt, IsFresh, named}
use pregel.OrderBook.Graph.Census.{build_order_book_graph-IsGraph}
use pregel.Engine.{GraphEngine, set_up, setup_infrastructure, load_graph}
use pregel.Engine.Distribution.{
  Distributed, Distributes, distribute_vertices-Distributes, divided_by_lem, new_workers-AllReady,
}
use pregel.Coordinator.Summary.{AllIdle}
use pregel.Engine.Lively.{
  distribute_vertices-AllIdle, new_workers-AllIdle, distribute_vertices-load, Distributed-AnyLive,
  new_workers-load,
}
use pregel.Engine.Market.{graph_params, load_order_book, set_up_order_book}

-- A venue that has not halted.
abbrev pub IsOpenVenue : {Rng : Type 0} → GraphVertex Rng → Type 0
IsOpenVenue (order_vertex v) = ⊥
IsOpenVenue (level_vertex v) = ⊥
IsOpenVenue (venue_vertex v) = v.base.halted ≡ false
IsOpenVenue (maker_vertex v) = ⊥

module _ {Rng : Type 0} (draw : Rng → ℤ × Rng) where
  pub venues-StaysLive : StaysLive (graph_class draw) IsOpenVenue
  unfolding clear_outbox
  venues-StaysLive = record { awake = awake; computed = computed; cleared = cleared }
    where
      awake : (v : GraphVertex Rng) → IsOpenVenue v → (base_of v).halted ≡ false
      awake (order_vertex v) l = elim l [ ]
      awake (level_vertex v) l = elim l [ ]
      awake (venue_vertex v) l = l
      awake (maker_vertex v) l = elim l [ ]

      computed :
          (v : GraphVertex Rng) (inbox : List Message) (step : ℕ)
          → IsOpenVenue v
          → IsOpenVenue ((graph_class draw).compute inbox step v)
      computed (order_vertex v) inbox step l = elim l [ ]
      computed (level_vertex v) inbox step l = elim l [ ]
      computed (venue_vertex v) inbox step l = (compute-nbbo draw inbox step v).5 ∙ l
      computed (maker_vertex v) inbox step l = elim l [ ]

      cleared :
          (v : GraphVertex Rng)
          → IsOpenVenue v
          → IsOpenVenue ((graph_class draw).with_base (clear_outbox (base_of v)) v)
      cleared (order_vertex v) l = elim l [ ]
      cleared (level_vertex v) l = elim l [ ]
      cleared (venue_vertex v) l = l
      cleared (maker_vertex v) l = elim l [ ]

  -- What `setup_infrastructure` and `load_graph` leave.
  pub record IsLoaded {F : Floating} (sched : Schedule) (config : EngineConfig)
      (e : GraphEngine (GraphVertex Rng) F) : Type 0 where
    pub valid : IsValid e.pmap
    pub ready : AllReady (graph_class draw) e.pmap sched e.coordinator.workers
    pub live : AnyLive (graph_class draw) IsOpenVenue e.coordinator.workers
    pub few : weigh load e.coordinator.workers ≤ 2113
    pub configured : e.coordinator.config ≡ config
    pub no_reports : e.coordinator.reports ≡ []
    pub idle : AllIdle e.coordinator.workers

  first-AnyLive :
      (p : PartitionMap) (vs : List (GraphVertex Rng))
      (ws ws' : List (WorkerNode (GraphVertex Rng) × MessageBus)) (n w : ℕ)
      → IsValid p
      → length ws ≡ p.worker_count
      → IsVenueAt vs 0
      → weigh (named 0) vs ≤ 1
      → All (λ v. IsFresh w n (base_of v)) vs
      → Distributed (graph_class draw) p vs ws ws'
      → AnyLive (graph_class draw) IsOpenVenue ws'
  unfolding weigh
  first-AnyLive p [] ws ws' n w valid l at once fresh r = absurd (cc (at.1))
  first-AnyLive p (x ∷ vs) ws ws' n w valid l (v, e, z) once fresh r =
      let same : x ≡ venue_vertex v = some-eq e in
      let first : (base_of x).id ≡ 0 = ap (λ g. (base_of g).id) same ∙ z in
      let none_else : weigh (named 0) vs ≡ 0 = ground (arith, once, first) in
      Distributed-AnyLive (graph_class draw) IsOpenVenue p x vs ws ws' valid l
        (ap (λ k. weigh (named k) vs) first ∙ none_else)
        (subst IsOpenVenue (sym same) (sym (ap (λ g. (base_of g).halted) same) ∙ fresh.0.1)) r

module _ {S Rng : Type 0} (F : Floating) (R : Source S Rng) (draw : Rng → ℤ × Rng)
    (sched : Schedule) (time : ℕ → ℕ) (hardware : ℕ) (threshold : F.Double) (now : ℕ → ℤ)
    (seed : S) where
  load_order_book-IsLoaded :
      (config : EngineConfig) (e : GraphEngine (GraphVertex Rng) F)
      → IsValid e.pmap
      → length e.coordinator.workers ≡ e.pmap.worker_count
      → AllReady (graph_class draw) e.pmap sched e.coordinator.workers
      → weigh load e.coordinator.workers ≡ 0
      → 0 < e.coordinator.config.worker_count
      → e.coordinator.config ≡ config
      → e.coordinator.reports ≡ []
      → AllIdle e.coordinator.workers
      → Gives
          (IsLoaded draw sched config)
          (load_order_book F R draw sched time hardware threshold now seed e)
  unfolding load_order_book load_graph Distributes
  load_order_book-IsLoaded config e valid size ready none_yet h c r idle =
      let C = graph_class draw in
      Gives-bind (build_order_book_graph-IsGraph R (graph_params e.coordinator.config) seed h)
        λ d g.
          let (ws, k, t, b) =
            distribute_vertices-Distributes C (IsReady e.pmap) e.pmap d.vertices
              e.coordinator.workers valid size in
          (
            record e { coordinator = record e.coordinator { workers = ws } },
            rw k refl,
            record {
              valid = valid;
              ready = b ready;
              live =
                  first-AnyLive draw e.pmap d.vertices e.coordinator.workers ws (length d.vertices)
                    e.coordinator.config.worker_count valid size (g.venues 0 (omega arith))
                    (ground (arith, g.ids 0)) g.fresh t;
              few = omega (
                arith,
                distribute_vertices-load C e.pmap d.vertices e.coordinator.workers ws k,
                none_yet,
                g.size,
              );
              configured = c;
              no_reports = r;
              idle =
                  distribute_vertices-AllIdle C e.pmap d.vertices e.coordinator.workers ws k idle;
            },
          )

  pub set_up_order_book-IsLoaded :
      (config : EngineConfig)
      → 0 < config.worker_count
      → 0 < config.numa_nodes
      → Gives
          (IsLoaded draw sched config)
          (set_up_order_book F R draw sched time hardware threshold now seed config)
  unfolding set_up_order_book setup_infrastructure load_order_book load_graph Distributes
      new_coordinator
  set_up_order_book-IsLoaded config h m =
      let C = graph_class draw in
      let k = new_workers-AllReady C config 0 config.worker_count in
      let e : GraphEngine (GraphVertex Rng) F = set_up hardware threshold now config in
      let (x, f, l) =
        load_order_book-IsLoaded config e (h, tt) k.1 k.0
          (new_workers-load (GraphVertex Rng) config 0 config.worker_count) h refl refl
          (new_workers-AllIdle (GraphVertex Rng) config 0 config.worker_count) in
      (
        x,
        ap (λ o. o >>= load_order_book F R draw sched time hardware threshold now seed)
              (divided_by_lem config.numa_nodes e m)
            ∙ f,
        l,
      )
