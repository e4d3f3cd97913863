-- ===== src/Worker/Collect.antt =====
-- `WorkerNode::collect_and_route_outbox`, and the whole of `run_superstep`.
use pregel.Common.{
  ℕ, ◌+◌, ◌≡◌, refl, ◌∙◌, sym, ap, ap₂, List, [], ◌∷◌, ◌++◌, if◌then◌else◌, length, length-append,
  append_assoc, append-nil, get_or, Map, keys, AllV, some, true, arith,
}
use pregel.Types.{Message, u64}
use pregel.Vertex.{Vertex, clear_outbox}
use pregel.Partition.{PartitionMap, IsValid}
use pregel.Bus.{MessageBus, drain_inbox, flush}
use pregel.Bus.Own.{drain-outboxes}
use pregel.Bus.Routing.{routed, Fits, Routed, enqueue_batch-Routed}
use pregel.Worker.{
  VertexClass, WorkerNode, collect, collect_and_route_outbox, active_count, compute_phase,
  finish_superstep, run_superstep,
}

routed-append :
    (p : PartitionMap) (w : ℕ) (ms ns : List Message)
    → routed p w (ms ++ ns) ≡ routed p w ms ++ routed p w ns
routed-append p w [] ns = refl
routed-append p w (m ∷ ms) ns = ground (arith, routed-append p w ms ns)

Routed-append :
    (p : PartitionMap) (ms ns : List Message) (a b c : MessageBus)
    → Routed p ms a b
    → Routed p ns b c
    → Routed p (ms ++ ns) a c
Routed-append p ms ns a b c r s = record {
  fits = s.fits;
  rest = s.rest ∙ ap {A = MessageBus} (λ d. record d { outboxes = c.outboxes }) r.rest;
  boxes = λ w h.
      s.boxes w h
      ∙ ap (λ l. l ++ routed p w ns) (r.boxes w h)
      ∙ append_assoc (get_or a.outboxes w []) (routed p w ms) (routed p w ns)
      ∙ ap (◌++◌ (get_or a.outboxes w [])) (sym (routed-append p w ms ns));
}

Routed-none : (p : PartitionMap) (b : MessageBus) → Fits p b → Routed p [] b b
Routed-none p b f = record {
  fits = f;
  rest = refl;
  boxes = λ w h. sym (append-nil (get_or b.outboxes w []));
}

module _ {V : Type 0} (C : VertexClass V) where
  -- Writing the base part is read back.
  pub record IsLawful : Type 0 where
    pub base-with_base : (b : Vertex) (v : V) → C.base (C.with_base b v) ≡ b

  -- The messages in the outboxes, vertex by vertex.
  abbrev pub outboxes_of : Map V → List Message
  outboxes_of [] = []
  outboxes_of ((k, v) ∷ m) = (C.base v).outbox ++ outboxes_of m

  abbrev pub IsSilent : Map V → Type 0
  IsSilent m = AllV (λ k v. (C.base v).outbox ≡ []) m

  abbrev pub IsHalted : Map V → Type 0
  IsHalted m = AllV (λ k v. (C.base v).halted ≡ true) m

  -- A vertex after its outbox, as given, has been collected.
  abbrev pub emptied_by : List Message → V → V
  emptied_by [] v = v
  emptied_by (x ∷ xs) v = C.with_base (clear_outbox (C.base v)) v

  abbrev pub emptied : Map V → Map V
  emptied [] = []
  emptied ((k, v) ∷ m) = (k, emptied_by (C.base v).outbox v) ∷ emptied m

  record Collected (p : PartitionMap) (m : Map V) (sent : ℕ) (b : MessageBus)
      (r : Map V × (ℕ × MessageBus)) : Type 0 where
    silent : IsSilent r.0
    same_keys : keys r.0 ≡ keys m
    counted : u64 r.1.0 ≡ u64 (sent + length (outboxes_of m))
    routes : Routed p (outboxes_of m) b r.1.1
    active : active_count C r.0 ≡ active_count C m
    left_with : r.0 ≡ emptied m

  active_count-cons :
      (k : ℕ) (v : V) (m : Map V)
      → active_count C ((k, v) ∷ m) ≡ (if (C.base v).halted then 0 else 1) + active_count C m
  unfolding active_count
  active_count-cons k v m = ground arith

  Collects : PartitionMap → Map V → ℕ → MessageBus → Type 0
  Collects p m sent b =
      (r : Map V × (ℕ × MessageBus)) × (collect C p m sent b ≡ some r) × Collected p m sent b r

  -- One vertex, by what its outbox holds.
  collect_at :
      (p : PartitionMap) (k : ℕ) (u : V) (m : Map V) (sent : ℕ) (b : MessageBus)
      (box : List Message)
      → IsLawful
      → IsValid p
      → Fits p b
      → (C.base u).outbox ≡ box
      → ((n : ℕ) (b' : MessageBus) → Fits p b' → Collects p m n b')
      → Collects p ((k, u) ∷ m) sent b
  unfolding collect Collects clear_outbox
  collect_at p k u m sent b [] l v f e ih =
      let (r, c, h) = ih sent b f in
      (
        ((k, u) ∷ r.0, r.1),
        rw (e, collect, c) refl,
        record {
          silent = (e, h.silent);
          same_keys = ap (◌∷◌ k) h.same_keys;
          counted = rw e h.counted;
          routes = rw e h.routes;
          active = omega (arith, h.active, active_count-cons k u m, active_count-cons k u r.0);
          left_with =
              ap₂ {A = V} (λ q t. (k, q) ∷ t) (sym (ap (λ box. emptied_by box u) e)) h.left_with;
        },
      )
  collect_at p k u m sent b (x ∷ xs) l v f e ih =
      let (b', q, s) = enqueue_batch-Routed p (x ∷ xs) b v f in
      let (r, c, h) = ih (u64 (sent + length (x ∷ xs))) b' s.fits in
      (
        ((k, C.with_base (clear_outbox (C.base u)) u) ∷ r.0, r.1),
        rw (e, collect, q, c) refl,
        record {
          silent = (
            ap (λ (w : Vertex). w.outbox) (l.base-with_base (clear_outbox (C.base u)) u),
            h.silent,
          );
          same_keys = ap (◌∷◌ k) h.same_keys;
          counted = rw e (omega (arith, h.counted, length-append (x ∷ xs) (outboxes_of m)));
          routes = rw e (Routed-append p (x ∷ xs) (outboxes_of m) b b' r.1.1 s h.routes);
          active = omega (
            arith,
            h.active,
            active_count-cons k u m,
            active_count-cons k (C.with_base (clear_outbox (C.base u)) u) r.0,
            ap {B = ℕ} (λ (w : Vertex). if w.halted then 0 else 1)
                (l.base-with_base (clear_outbox (C.base u)) u),
          );
          left_with =
              ap₂ {A = V} (λ q t. (k, q) ∷ t) (sym (ap (λ box. emptied_by box u) e)) h.left_with;
        },
      )

  collect-Collects :
      (p : PartitionMap) (m : Map V) (sent : ℕ) (b : MessageBus)
      → IsLawful
      → IsValid p
      → Fits p b
      → Collects p m sent b
  unfolding collect Collects
  collect-Collects p [] sent b l v f = (
    ([], (sent, b)),
    refl,
    record {
      silent = tt;
      same_keys = refl;
      counted = omega arith;
      routes = Routed-none p b f;
      active = refl;
      left_with = refl;
    },
  )
  collect-Collects p ((k, u) ∷ m) sent b l v f =
      collect_at p k u m sent b (C.base u).outbox l v f refl
        (λ n b' f'. collect-Collects p m n b' l v f')

  active_count-IsHalted : (m : Map V) → active_count C m ≡ 0 → IsHalted m
  unfolding active_count
  active_count-IsHalted [] e = tt
  active_count-IsHalted ((k, v) ∷ m) e = (ground arith, active_count-IsHalted m (ground arith))

  -- What a superstep does with the vertices `m` that have computed, the drained bus `b`, and its result.
  pub record Superstep (p : PartitionMap) (now : ℕ) (m : Map V) (b : MessageBus)
      (r : WorkerNode V × (MessageBus × ℕ)) : Type 0 where
    pub routed_bus : MessageBus
    pub routes : Routed p (outboxes_of m) b routed_bus
    pub flushed : r.1.0 ≡ flush now routed_bus
    pub silent : IsSilent r.0.vertices
    pub same_keys : keys r.0.vertices ≡ keys m
    pub active : r.1.1 ≡ active_count C m
    pub left_with : r.0.vertices ≡ emptied m
    pub converged : r.1.1 ≡ 0 → IsHalted r.0.vertices

  -- With a valid partition map and one outbox for each worker, a superstep never accesses an outbox out of
  -- range: all that the vertices have sent is routed, vertex by vertex and in order, to the
  -- outboxes of the owners of the targets, and the bus is flushed; every vertex is left with an
  -- empty outbox, none is lost; the count returned is that of the vertices that have not
  -- voted to halt, so when it is zero, all vertices have voted to halt.
  pub run_superstep-Superstep :
      (p : PartitionMap) (order : List ℕ → List ℕ) (step now : ℕ) (w : WorkerNode V)
      (b : MessageBus)
      → IsLawful
      → IsValid p
      → Fits p b
      → (r : WorkerNode V × (MessageBus × ℕ)) × (run_superstep C p order step now w b ≡ some r)
        × Superstep p now
            (compute_phase C order step (drain_inbox b).1 w).vertices
            (drain_inbox b).0
            r
  unfolding run_superstep collect_and_route_outbox finish_superstep Collects
  run_superstep-Superstep p order step now w b l v f =
      let w₁ = compute_phase C order step (drain_inbox b).1 w in
      let (r, c, h) =
        collect-Collects p w₁.vertices w₁.stats.messages_sent (drain_inbox b).0 l v
          (ap length (drain-outboxes b) ∙ f) in
      (
        (
          finish_superstep
              (record w₁ { vertices = r.0; stats = record w₁.stats { messages_sent = r.1.0 } }),
          (flush now r.1.1, active_count C r.0),
        ),
        rw c refl,
        record {
          routed_bus = r.1.1;
          routes = h.routes;
          flushed = refl;
          silent = h.silent;
          same_keys = h.same_keys;
          active = h.active;
          left_with = h.left_with;
          converged = active_count-IsHalted r.0;
        },
      )
