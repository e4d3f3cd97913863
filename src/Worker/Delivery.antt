-- ===== src/Worker/Delivery.antt =====
-- `WorkerNode::run_superstep` twice: how what the vertices send reaches the vertices of the same worker.
use pregel.Common.{
  ℕ, suc, ◌<◌, ◌≡◌, refl, ◌∙◌, sym, ap, subst, List, [], ◌∷◌, ◌++◌, ◌==◌, if◌then◌else◌, not, ◌&&◌,
  ◌||◌, length, find, keys, Option, none, some, true, false, Bool-cases, inl, inr, arith, replicate,
  length-replicate, get_or, get_or-replicate, ==_iff,
}
use pregel.Types.{Message}
use pregel.Vertex.{wake_up}
use pregel.Partition.{PartitionMap, owner_of, IsValid}
use pregel.Bus.{MessageBus, drain_inbox, flush, network}
use pregel.Bus.Routing.{routed, Routed}
use pregel.Bus.Own.{remote_mail, drain-outboxes, drain-inbox, drain-keeps, flush-keeps}
use pregel.Worker.{VertexClass, WorkerNode, compute_phase, run_superstep}
use pregel.Worker.Inboxes.{NoDup, IsOrder, addressed, is_none}
use pregel.Worker.Compute.{compute_phase-find}
use pregel.Worker.Kept.{IsAtRest, compute_phase-keys, find-emptied, run_superstep-inboxes}
use pregel.Worker.Collect.{IsLawful, outboxes_of, run_superstep-Superstep}

addressed-append :
    (k : ℕ) (ms ns : List Message) → addressed k (ms ++ ns) ≡ addressed k ms ++ addressed k ns
addressed-append k [] ns = refl
addressed-append k (m ∷ ms) ns = ground (arith, addressed-append k ms ns)

-- All messages for a vertex are routed to its owner.
addressed-routed :
    (p : PartitionMap) (k : ℕ) (ms : List Message)
    → addressed k (routed p (owner_of p k) ms) ≡ addressed k ms
addressed-routed p k [] = refl
addressed-routed p k (m ∷ ms) = elim (Bool-cases (m.dst == k)) [
  | inl hit ↦ ground (
    arith,
    hit,
    addressed-routed p k ms,
    ap (owner_of p) ((==_iff m.dst k).0 hit),
    ==_iff (owner_of p m.dst) (owner_of p k),
  )
  | inr miss ↦ ground (arith, miss, addressed-routed p k ms)
]

module _ {V : Type 0} (C : VertexClass V) where
  -- What a superstep from `w` and `b` sends, vertex by vertex.
  abbrev pub sent : (List ℕ → List ℕ) → ℕ → WorkerNode V → MessageBus → List Message
  sent order step w b = outboxes_of C (compute_phase C order step (drain_inbox b).1 w).vertices

  -- What a drain hands over after the superstep.
  drained_after :
      (p : PartitionMap) (rounds : ℕ → ℕ × ℕ) (now : ℕ) (b c : MessageBus) (ms : List Message)
      → IsAtRest p b
      → Routed p ms (drain_inbox b).0 c
      → ((drain_inbox (network rounds (flush now c))).1
          ≡ routed p b.local_id ms ++ remote_mail (network rounds (flush now c)))
        × IsAtRest p (flush now c)
  unfolding network
  drained_after p rounds now b c ms h r =
      let d = drain-keeps b in
      let f = flush-keeps now c in
      let local : c.local_id ≡ b.local_id = ap (λ (x : MessageBus). x.local_id) r.rest ∙ d.1 in
      let workers : c.worker_count ≡ b.worker_count =
        ap (λ (x : MessageBus). x.worker_count) r.rest ∙ d.2 in
      (
        drain-inbox (network rounds (flush now c))
            ∙ ap (λ l. l ++ remote_mail (network rounds (flush now c)))
                (f.0
                  ∙ ap (λ l. l ++ get_or c.outboxes c.local_id [])
                      (ap (λ (x : MessageBus). x.inbox) r.rest ∙ d.0)
                  ∙ ap (λ i. get_or c.outboxes i []) local
                  ∙ r.boxes b.local_id h.local
                  ∙ ap (λ l. get_or l b.local_id [] ++ routed p b.local_id ms)
                      (drain-outboxes b ∙ h.boxes)
                  ∙ ap (λ l. l ++ routed p b.local_id ms)
                      (get_or-replicate b.worker_count b.local_id [])),
        record {
          workers = f.2 ∙ workers ∙ h.workers;
          local = subst (λ i. i < p.worker_count) (sym (f.1 ∙ local)) h.local;
          boxes = f.3 ∙ ap (λ n. replicate n []) (sym f.2);
        },
      )

  -- A vertex after its turn in a superstep, with its mail.
  abbrev pub after_turn : ℕ → List Message → V → V
  after_turn step mail u =
      if not (C.base u).halted || not (is_none mail)
      then C.compute mail step (
          if (C.base u).halted && not (is_none mail) then C.with_base (wake_up (C.base u)) u else u)
      else u

  -- With an empty inbox, `compute_phase-find` speaks of the messages received only.
  turn_lem :
      (order : List ℕ → List ℕ) (step : ℕ) (ms : List Message) (w : WorkerNode V) (k : ℕ) (u : V)
      → IsOrder order
      → NoDup (keys w.vertices)
      → find k w.vertices ≡ some u
      → find k w.vertex_inbox ≡ none
      → find k (compute_phase C order step ms w).vertices
        ≡ some (after_turn step (addressed k ms) u)
  turn_lem order step ms w k u o d e n =
      (compute_phase-find C order step ms w k u o d e).0
      ∙ ap
          (λ (q : Option (List Message)).
            let has = elim q [ none ↦ false | some box ↦ true ] || not (is_none (addressed k ms)) in
            some (
              if not (C.base u).halted || has
              then C.compute (elim q [ none ↦ [] | some box ↦ box ] ++ addressed k ms) step
                  (if (C.base u).halted && has then C.with_base (wake_up (C.base u)) u else u)
              else u))
          n

  -- Two supersteps of a worker whose vertices have different ids, whatever the order in which the
  -- tasks are completed: with a valid partition map, and a bus that has one empty outbox for each
  -- worker, the first superstep ends with such a bus again, and in the second one a vertex of the
  -- worker that the map assigns to it takes its turn with exactly these messages: all those that
  -- the vertices of the worker sent to it in the first superstep, vertex by vertex in the order of
  -- their sending, then those for it among what the transport has received, however far its network
  -- threads have come in between. If there are none and it is halted, it is left alone; if there
  -- are some and it is halted, it is woken.
  pub mail_delivered :
      (p : PartitionMap) (order order' : List ℕ → List ℕ) (step now : ℕ) (rounds : ℕ → ℕ × ℕ)
      (w : WorkerNode V) (b : MessageBus) (k : ℕ) (v : V)
      → IsLawful C
      → IsValid p
      → IsOrder order
      → IsOrder order'
      → NoDup (keys w.vertices)
      → IsAtRest p b
      → owner_of p k ≡ b.local_id
      → find k w.vertices ≡ some v
      → (r : WorkerNode V × (MessageBus × ℕ)) × (run_superstep C p order step now w b ≡ some r)
        × IsAtRest p r.1.0
        × (u : V) × (find k r.0.vertices ≡ some u)
        × (find k
              (compute_phase C order'
                (suc step)
                (drain_inbox (network rounds r.1.0)).1
                r.0).vertices
            ≡ some (
                after_turn
                  (suc step)
                  (addressed k (sent order step w b)
                    ++ addressed k (remote_mail (network rounds r.1.0)))
                  u))
  mail_delivered p order order' step now rounds w b k v l valid o o' d h own e =
      let w₁ = compute_phase C order step (drain_inbox b).1 w in
      let (r, ran, s) =
        run_superstep-Superstep C p order step now w b l valid
          (ap length (h.boxes) ∙ length-replicate b.worker_count [] ∙ h.workers) in
      let found = compute_phase-find C order step (drain_inbox b).1 w k v o d e in
      let next : (u : V) × (find k r.0.vertices ≡ some u) =
        (_, ap (find k) s.left_with ∙ find-emptied C k w₁.vertices _ found.0) in
      let after = drained_after p rounds now b s.routed_bus (sent order step w b) h s.routes in
      let mail : addressed k (drain_inbox (network rounds r.1.0)).1
          ≡ addressed k (sent order step w b) ++ addressed k (remote_mail (network rounds r.1.0)) =
        ap (λ x. addressed k (drain_inbox (network rounds x)).1) s.flushed
        ∙ ap (addressed k) after.0
        ∙ addressed-append k (routed p b.local_id (sent order step w b)) _
        ∙ ap (λ l. l ++ addressed k (remote_mail (network rounds (flush now s.routed_bus))))
            (ap (λ i. addressed k (routed p i (sent order step w b))) (sym own)
              ∙ addressed-routed p k (sent order step w b))
        ∙ ap
            (λ x. addressed k (sent order step w b) ++ addressed k (remote_mail (network rounds x)))
            (sym s.flushed) in
      (
        r,
        ran,
        subst (IsAtRest p) (sym s.flushed) after.1,
        next.0,
        next.1,
        turn_lem order' (suc step) (drain_inbox (network rounds r.1.0)).1 r.0 k next.0 o'
              (subst NoDup (sym (s.same_keys ∙ compute_phase-keys C order step (drain_inbox b).1 w))
                d)
              next.1 (ap (find k) (run_superstep-inboxes C p order step now w b r ran) ∙ found.1)
            ∙ ap (λ ms. some (after_turn (suc step) ms next.0)) mail,
      )
