-- ===== src/Engine/Distribution.antt =====
-- `GraphEngine`: which worker gets which vertex, and a whole run.
use pregel.Common.{
  All-set, All-get_or, ℕ, suc, zero, ◌<◌, ◌≡◌, refl, ◌∙◌, sym, ap, subst, List, [], ◌∷◌, ◌++◌, ◌==◌,
  if◌then◌else◌, arith, All, length, length-set, length-replicate, get_elem?, get_or, get_or-set,
  set, Map, insert, some, ◌>>=◌, ℤ, true, Bool-cases, inl, inr, ==_iff,
}
use pregel.Types.{EngineConfig}
use pregel.Partition.{PartitionMap, empty_map, owner_of, IsValid, owner_of-lt}
use pregel.Bus.{MessageBus, new_bus}
use pregel.Heartbeat.{Floating}
use pregel.Worker.{VertexClass, WorkerNode, add_vertex}
use pregel.Worker.Collect.{IsLawful}
use pregel.Coordinator.{Schedule, Beat, Coordinator, Report, new_coordinator}
use pregel.Coordinator.Run.{IsReady, History, run-History}
use pregel.Engine.{
  GraphEngine, new_workers, setup_infrastructure, set_up, divided_by, add_to, distribute_vertices,
  load_graph, load_and_run, run_engine,
}

pub get_elem?-get_or {ℓ} :
    {A : Type ℓ} (xs : List A) (i : ℕ) (d : A)
    → i < length xs
    → get_elem? xs i ≡ some (get_or xs i d)
get_elem?-get_or [] i d h = elim h [ ]
get_elem?-get_or (x ∷ xs) zero d h = refl
get_elem?-get_or (x ∷ xs) (suc i) d h = get_elem?-get_or xs i d (omega arith)

get_or-default {ℓ} :
    {A : Type ℓ} (xs : List A) (i : ℕ) (d d' : A) → i < length xs → get_or xs i d ≡ get_or xs i d'
get_or-default [] i d d' h = elim h [ ]
get_or-default (x ∷ xs) zero d d' h = refl
get_or-default (x ∷ xs) (suc i) d d' h = get_or-default xs i d d' (omega arith)

pub divided_by_lem {ℓ} : {A : Type ℓ} (n : ℕ) (a : A) → 0 < n → divided_by n a ≡ some a
unfolding divided_by
divided_by_lem zero a h = elim h [ ]
divided_by_lem (suc n) a h = refl

module _ {V : Type 0} (C : VertexClass V) where
  -- The vertices that worker `i` owns, and a map with these vertices added.
  abbrev pub owned : PartitionMap → ℕ → List V → List V
  owned p i [] = []
  owned p i (v ∷ vs) = if owner_of p (C.base v).id == i then v ∷ owned p i vs else owned p i vs

  abbrev pub insert_all : List V → Map V → Map V
  insert_all [] m = m
  insert_all (v ∷ vs) m = insert_all vs (insert (C.base v).id v m)

  pub record Distributed (p : PartitionMap) (vs : List V)
      (ws ws' : List (WorkerNode V × MessageBus)) : Type 0 where
    pub size : length ws' ≡ length ws
    pub vertices :
        (i : ℕ) (d : WorkerNode V × MessageBus)
        → i < length ws
        → (get_or ws' i d).0.vertices ≡ insert_all (owned p i vs) (get_or ws i d).0.vertices
    pub buses : (i : ℕ) (d : WorkerNode V × MessageBus) → (get_or ws' i d).1 ≡ (get_or ws i d).1

  -- What is true of the buses stays true: `P` is any predicate on them.
  unfoldable pub Distributes :
      (MessageBus → Type 0) → PartitionMap → List V → List (WorkerNode V × MessageBus) → Type 0
  Distributes P p vs ws =
      (ws' : List (WorkerNode V × MessageBus)) × (distribute_vertices C p vs ws ≡ some ws')
      × Distributed p vs ws ws'
      × (All (λ w. P w.1) ws → All (λ w. P w.1) ws')

  abbrev added :
      PartitionMap
      → V
      → List (WorkerNode V × MessageBus)
      → WorkerNode V × MessageBus
      → List (WorkerNode V × MessageBus)
  added p v ws x =
      let w = owner_of p (C.base v).id in
      set ws w (add_vertex C v (get_or ws w x).0, (get_or ws w x).1)

  added-vertices :
      (p : PartitionMap) (v : V) (vs : List V) (ws : List (WorkerNode V × MessageBus))
      (x : WorkerNode V × MessageBus) (i : ℕ) (d : WorkerNode V × MessageBus)
      → owner_of p (C.base v).id < length ws
      → (insert_all (owned p i vs) (get_or (added p v ws x) i d).0.vertices
          ≡ insert_all (owned p i (v ∷ vs)) (get_or ws i d).0.vertices)
        × ((get_or (added p v ws x) i d).1 ≡ (get_or ws i d).1)
  unfolding add_vertex
  added-vertices p v vs ws x i d l =
      let w = owner_of p (C.base v).id in
      let g = get_or-set ws w i (add_vertex C v (get_or ws w x).0, (get_or ws w x).1) d l in
      elim (Bool-cases (w == i)) [
        | inl hit ↦
            let same : get_or ws w x ≡ get_or ws i d =
              get_or-default ws w x d l ∙ ap (λ k. get_or ws k d) ((==_iff w i).0 hit) in
            (
              rw (g, hit)
                  (ap {A = WorkerNode V × MessageBus}
                    (λ u. insert_all (owned p i vs) (insert (C.base v).id v u.0.vertices)) same),
              rw (g, hit) (ap {A = WorkerNode V × MessageBus} (λ u. u.1) same),
            )
        | inr miss ↦ (rw (g, miss) refl, rw (g, miss) refl)
      ]

  distribute_one :
      (P : MessageBus → Type 0) (p : PartitionMap) (v : V) (vs : List V)
      (ws : List (WorkerNode V × MessageBus)) (x : WorkerNode V × MessageBus)
      → owner_of p (C.base v).id < length ws
      → Distributes P p vs (added p v ws x)
      → Distributes P p (v ∷ vs) ws
  unfolding Distributes distribute_vertices add_to
  distribute_one P p v vs ws x l (ws', k, r, b) =
      let w = owner_of p (C.base v).id in
      (
        ws',
        rw (get_elem?-get_or ws w x l) k,
        record {
          size = r.size ∙ length-set ws w _;
          vertices = λ i d m.
              r.vertices i d (
                omega
                  (arith, length-set ws w (add_vertex C v (get_or ws w x).0, (get_or ws w x).1)))
              ∙ (added-vertices p v vs ws x i d l).0;
          buses = λ i d. r.buses i d ∙ (added-vertices p v vs ws x i d l).1;
        },
        λ a. b (
            All-set (λ (u : WorkerNode V × MessageBus). P u.1) ws w _
              (All-get_or (λ (u : WorkerNode V × MessageBus). P u.1) ws w x a l) a),
      )

  pub distribute_vertices-Distributes :
      (P : MessageBus → Type 0) (p : PartitionMap) (vs : List V)
      (ws : List (WorkerNode V × MessageBus))
      → IsValid p
      → length ws ≡ p.worker_count
      → Distributes P p vs ws
  unfolding distribute_vertices Distributes
  distribute_vertices-Distributes P p [] ws h n =
      (ws, refl, record { size = refl; vertices = λ i d l. refl; buses = λ i d. refl }, λ a. a)
  distribute_vertices-Distributes P p (v ∷ vs) [] h n = absurd (omega (arith, h.0))
  distribute_vertices-Distributes P p (v ∷ vs) (x ∷ xs) h n =
      let l = owner_of-lt p (C.base v).id h in
      distribute_one P p v vs (x ∷ xs) x (omega (arith, l, n)) (
        distribute_vertices-Distributes P p vs (added p v (x ∷ xs) x) h
          (length-set (x ∷ xs) (owner_of p (C.base v).id) _ ∙ n))

  -- With a valid partition map and one worker for each of its numbers, a graph is distributed without an
  -- access out of range: every worker gets exactly the vertices that it owns, in their order, and
  -- its bus is as before.
  pub distribute_vertices-Distributed :
      (p : PartitionMap) (vs : List V) (ws : List (WorkerNode V × MessageBus))
      → IsValid p
      → length ws ≡ p.worker_count
      → (ws' : List (WorkerNode V × MessageBus)) × (distribute_vertices C p vs ws ≡ some ws')
        × Distributed p vs ws ws'
  unfolding Distributes
  distribute_vertices-Distributed p vs ws h n =
      let (ws', k, r, b) = distribute_vertices-Distributes (IsReady p) p vs ws h n in (ws', k, r)

  pub new_workers-AllReady :
      (config : EngineConfig) (i left : ℕ)
      → All (λ w. IsReady (empty_map config.worker_count) w.1) (new_workers {V = V} config i left)
        × (length (new_workers {V = V} config i left) ≡ left)
  unfolding new_workers new_bus
  new_workers-AllReady config i zero = (tt, refl)
  new_workers-AllReady config i (suc left) =
      let k = new_workers-AllReady config (suc i) left in
      (((length-replicate config.worker_count [], refl), k.0), ap suc k.1)

  load_and_run_at :
      {F : Floating} (sched : Schedule) (clock : ℕ → ℕ → Beat) (time : ℕ → ℕ) (vs : List V)
      (e : GraphEngine V F)
      → IsLawful C
      → IsValid e.pmap
      → length e.coordinator.workers ≡ e.pmap.worker_count
      → All (λ w. IsReady e.pmap w.1) e.coordinator.workers
      → (c : Coordinator V F) × (rs : List Report) × (load_and_run C sched clock time vs e ≡ some c)
        × (c.reports ≡ e.coordinator.reports ++ rs)
        × History 0 e.coordinator.config.max_supersteps rs
        × (length c.workers ≡ length e.coordinator.workers)
        × (c.done ≡ true)
  unfolding load_and_run load_graph Distributes
  load_and_run_at sched clock time vs e l v n a =
      let (ws, k, r, b) =
        distribute_vertices-Distributes (IsReady e.pmap) e.pmap vs e.coordinator.workers v n in
      let (c, rs, f, q, s, m, d) =
        run-History C e.pmap sched clock time (record e.coordinator { workers = ws }) l v (b a) in
      (c, rs, rw k f, q, s, m ∙ r.size, d)

  -- A whole run of the engine, from any configuration with one worker and at least one NUMA node and any
  -- graph, always ends without an access out of range or a division by zero, whatever the orders in which the
  -- tasks are completed: the coordinator makes supersteps 0, 1, 2, … up to the first one without active
  -- vertices, or exactly `max_supersteps`, and still has its worker.
  pub run_engine-History :
      {F : Floating} (sched : Schedule) (clock : ℕ → ℕ → Beat) (time : ℕ → ℕ) (hardware : ℕ)
      (threshold : F.Double) (now : ℕ → ℤ) (vs : List V) (config : EngineConfig)
      → IsLawful C
      → config.worker_count ≡ 1
      → 0 < config.numa_nodes
      → (c : Coordinator V F) × (run_engine C sched clock time hardware threshold now vs config
          ≡ some c)
        × History 0 config.max_supersteps c.reports
        × (length c.workers ≡ 1)
        × (c.done ≡ true)
  unfolding run_engine setup_infrastructure new_coordinator
  run_engine-History {F = F} sched clock time hardware threshold now vs config lawful h m =
      let k = new_workers-AllReady config 0 config.worker_count in
      let (c, rs, f, q, s, n, d) =
        load_and_run_at {F = F} sched clock time vs (set_up hardware threshold now config) lawful
          (omega arith, tt) k.1 k.0 in
      (
        c,
        ap (λ e. e >>= load_and_run C sched clock time vs)
              (divided_by_lem config.numa_nodes
                (set_up {V = V} {F = F} hardware threshold now config) m)
            ∙ f,
        subst (History 0 config.max_supersteps) (sym q) s,
        n ∙ k.1 ∙ h,
        d,
      )
