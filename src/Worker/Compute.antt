-- ===== src/Worker/Compute.antt =====
-- `WorkerNode::run_superstep` up to `wait_all`: which vertices compute, and on which messages.
use pregel.Common.{
  some-eq, ℕ, ◌≡◌, refl, ◌∙◌, sym, ap, ap₂, subst, List, [], ◌∷◌, ◌++◌, ◌==◌, if◌then◌else◌, not,
  ◌&&◌, ◌||◌, Map, find, keys, find-insert, find-erase, none, some, Option-cases, inl, inr, arith,
  Bool, true, false, ==_iff, ==_refl, Bool-cases,
}
use pregel.Types.{Message}
use pregel.Vertex.{wake_up}
use pregel.Worker.{
  VertexClass, WorkerNode, inbox_at, has_inbox, deliver, dispatch_messages, wake, run_vertex,
  run_vertices, compute_phase,
}
use pregel.Worker.Inboxes.{
  elem, NoDup, IsOrder, addressed, is_none, deliver-inbox_at, deliver-has_inbox,
}

if-NoDup :
    (c : Bool) (j : ℕ) (xs : List ℕ)
    → elem j xs ≡ false
    → NoDup xs
    → NoDup (if c then j ∷ xs else xs)
if-NoDup true j xs e d = (e, d)
if-NoDup false j xs e d = d

module _ {V : Type 0} (C : VertexClass V) where
  abbrev pub is_due : Map (List Message) → ℕ → V → Bool
  is_due boxes k v = not (C.base v).halted || has_inbox k boxes

  abbrev pub woken : Map (List Message) → ℕ → V → V
  woken boxes k v =
      if (C.base v).halted && has_inbox k boxes then C.with_base (wake_up (C.base v)) v else v

  pub wake-cons :
      (boxes : Map (List Message)) (j : ℕ) (v : V) (m : Map V)
      → wake C boxes ((j, v) ∷ m) ≡ (
        (j, woken boxes j v) ∷ (wake C boxes m).0,
        if is_due boxes j v then j ∷ (wake C boxes m).1 else (wake C boxes m).1,
      )
  unfolding wake
  wake-cons boxes j v m = ground arith

  wake-none :
      (boxes : Map (List Message)) (m : Map V) (k : ℕ)
      → elem k (keys m) ≡ false
      → elem k (wake C boxes m).1 ≡ false
  unfolding wake
  wake-none boxes [] k e = refl
  wake-none boxes ((j, v) ∷ m) k e = ground (arith, wake-none boxes m k)

  pub wake-NoDup :
      (boxes : Map (List Message)) (m : Map V) → NoDup (keys m) → NoDup (wake C boxes m).1
  unfolding wake
  wake-NoDup boxes [] d = tt
  wake-NoDup boxes ((j, v) ∷ m) d =
      subst NoDup (sym (ap (λ (p : Map V × List ℕ). p.1) (wake-cons boxes j v m))) (
        if-NoDup (is_due boxes j v) j (wake C boxes m).1 (wake-none boxes m j d.0)
          (wake-NoDup boxes m d.1))

  due-elem :
      (boxes : Map (List Message)) (k : ℕ) (v : V) (ws : List ℕ)
      → elem k ws ≡ false
      → elem k (if is_due boxes k v then k ∷ ws else ws) ≡ is_due boxes k v
  due-elem boxes k v ws e = ground (arith, e, ==_refl k)

  wake-elem :
      (boxes : Map (List Message)) (m : Map V) (k : ℕ) (v : V)
      → NoDup (keys m)
      → find k m ≡ some v
      → elem k (wake C boxes m).1 ≡ is_due boxes k v
  unfolding wake find
  wake-elem boxes [] k v d e = absurd cc
  wake-elem boxes ((j, u) ∷ m) k v d e =
      ap (λ (p : Map V × List ℕ). elem k p.1) (wake-cons boxes j u m) ∙ elim (Bool-cases (j == k)) [
        | inl hit ↦
            ap₂
              (λ i q.
                elem k (if is_due boxes i q then i ∷ (wake C boxes m).1 else (wake C boxes m).1))
              ((==_iff j k).0 hit) (some-eq (rw hit at e))
            ∙ due-elem boxes k v (wake C boxes m).1 (
                wake-none boxes m k (subst (λ i. elem i (keys m) ≡ false) ((==_iff j k).0 hit) d.0))
        | inr miss ↦ ground (arith, miss, wake-elem boxes m k v d.1 (rw miss at e))
      ]

  wake-find :
      (boxes : Map (List Message)) (m : Map V) (k : ℕ) (v : V)
      → find k m ≡ some v
      → find k (wake C boxes m).0 ≡ some (woken boxes k v)
  unfolding wake find
  wake-find boxes [] k v e = absurd cc
  wake-find boxes ((j, u) ∷ m) k v e =
      ap (λ (p : Map V × List ℕ). find k p.0) (wake-cons boxes j u m) ∙ elim (Bool-cases (j == k)) [
        | inl hit ↦
            rw hit
              (ap₂ (λ i q. some (woken boxes i q)) ((==_iff j k).0 hit) (some-eq (rw hit at e)))
        | inr miss ↦ ground (arith, miss, wake-find boxes m k v (rw miss at e))
      ]

  run_vertex-find :
      (step x : ℕ) (w : WorkerNode V) (k : ℕ) (v : V)
      → find k w.vertices ≡ some v
      → let w' = run_vertex C step x w in
        (find k w'.vertices
          ≡ some (if x == k then C.compute (inbox_at k w.vertex_inbox) step v else v))
        × (find k w'.vertex_inbox ≡ (if x == k then none else find k w.vertex_inbox))
  unfolding run_vertex
  run_vertex-find step x w k v e = elim (Option-cases (find x w.vertices)) [
    | inl n ↦
        rw (n, run_vertex) (ground (arith, n, e, ==_iff x k), ground (arith, n, e, ==_iff x k))
    | inr (u, n) ↦
        rw (n, run_vertex)
          (
            find-insert x k _ w.vertices ∙ elim (Bool-cases (x == k)) [
              | inl hit ↦ rw hit (
                  ap₂ (λ i q. some (C.compute (inbox_at i w.vertex_inbox) step q))
                    ((==_iff x k).0 hit)
                    (some-eq (sym n ∙ ap (λ i. find i w.vertices) ((==_iff x k).0 hit) ∙ e)))
              | inr miss ↦ rw miss e
            ],
            find-erase x k w.vertex_inbox,
          )
  ]

  run_vertices-find :
      (step : ℕ) (vids : List ℕ) (w : WorkerNode V) (k : ℕ) (v : V)
      → NoDup vids
      → find k w.vertices ≡ some v
      → let w' = run_vertices C step vids w in
        (find k w'.vertices
          ≡ some (if elem k vids then C.compute (inbox_at k w.vertex_inbox) step v else v))
        × (find k w'.vertex_inbox ≡ (if elem k vids then none else find k w.vertex_inbox))
  unfolding run_vertices
  run_vertices-find step [] w k v d e = (e, refl)
  run_vertices-find step (x ∷ xs) w k v d e =
      let r = run_vertex-find step x w k v e in
      let n = run_vertices-find step xs (run_vertex C step x w) k _ d.1 r.0 in
      elim (Bool-cases (x == k)) [
        | inl hit ↦
            let gone : elem k xs ≡ false =
              subst (λ i. elem i xs ≡ false) ((==_iff x k).0 hit) d.0 in
            (n.0 ∙ ground (arith, gone, hit), n.1 ∙ ground (arith, gone, hit, r.1))
        | inr miss ↦ (n.0 ∙ ground (arith, miss, r.1), n.1 ∙ ground (arith, miss, r.1))
      ]

  not_due-same :
      (boxes : Map (List Message)) (k : ℕ) (v c : V)
      → (if is_due boxes k v then c else woken boxes k v) ≡ (if is_due boxes k v then c else v)
  not_due-same boxes k v c = ground arith

  not_due-none :
      (boxes : Map (List Message)) (k : ℕ) (v : V)
      → (if is_due boxes k v then none else find k boxes) ≡ none
  not_due-none boxes k v = elim (Option-cases (find k boxes)) [
    | inl e ↦ ground (arith, e)
    | inr (l, e) ↦ ground (arith, e)
  ]

  -- A superstep of a worker up to `wait_all`, whatever the order in which its tasks are completed: every
  -- vertex computes exactly once, on what was left in its inbox and all messages received for it in
  -- their order, if it was not halted or has an inbox, and is woken before if it was halted;
  -- any other vertex is left alone. Afterwards no vertex of the worker has an inbox.
  pub compute_phase-find :
      (order : List ℕ → List ℕ) (step : ℕ) (ms : List Message) (w : WorkerNode V) (k : ℕ) (v : V)
      → IsOrder order
      → NoDup (keys w.vertices)
      → find k w.vertices ≡ some v
      → let w' = compute_phase C order step ms w in
        let has = has_inbox k w.vertex_inbox || not (is_none (addressed k ms)) in
        let v' = if (C.base v).halted && has then C.with_base (wake_up (C.base v)) v else v in
        (find k w'.vertices
          ≡ some (
              if not (C.base v).halted || has
              then C.compute (inbox_at k w.vertex_inbox ++ addressed k ms) step v'
              else v))
        × (find k w'.vertex_inbox ≡ none)
  unfolding compute_phase dispatch_messages
  compute_phase-find order step ms w k v o d e =
      let boxes = deliver ms w.vertex_inbox in
      let due : elem k (order (wake C boxes w.vertices).1) ≡ is_due boxes k v =
        o.same _ k ∙ wake-elem boxes w.vertices k v d e in
      let r =
        run_vertices-find step (order (wake C boxes w.vertices).1)
          (record (dispatch_messages ms w) { vertices = (wake C boxes w.vertices).0 }) k
          (woken boxes k v) (o.no_dup _ (wake-NoDup boxes w.vertices d))
          (wake-find boxes w.vertices k v e) in
      (
        r.0
            ∙ ap
                (λ b. some (
                  if b
                  then C.compute (inbox_at k boxes) step (woken boxes k v)
                  else woken boxes k v))
                due
            ∙ ap some (not_due-same boxes k v (C.compute (inbox_at k boxes) step (woken boxes k v)))
            ∙ ap₂
                (λ hs l. some (
                  if not (C.base v).halted || hs
                  then C.compute l step
                      (if (C.base v).halted && hs then C.with_base (wake_up (C.base v)) v else v)
                  else v))
                (deliver-has_inbox k ms w.vertex_inbox) (deliver-inbox_at k ms w.vertex_inbox),
        r.1 ∙ ap (λ b. if b then none else find k boxes) due ∙ not_due-none boxes k v,
      )
