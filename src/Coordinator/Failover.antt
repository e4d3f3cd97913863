-- ===== src/Coordinator/Failover.antt =====
-- `Coordinator::handle_worker_failure`: the worker that would take over.
use pregel.Common.{
  ℕ, ◌≤◌, ◌<◌, ◌≡◌, ◌≢◌, ◌⊎◌, refl, sym, subst, List, [], ◌∷◌, arith, All, inl, inr, dec_lt,
  ℕ_discrete,
}
use pregel.Bus.{MessageBus}
use pregel.Heartbeat.{Floating}
use pregel.Worker.{WorkerNode, vertex_count}
use pregel.Coordinator.{Coordinator, least_vertices, failover_target, size_max}

module _ {V : Type 0} where
  -- Every worker but the failed one has at least `n` vertices.
  abbrev pub AtLeast : ℕ → ℕ → List (WorkerNode V × MessageBus) → Type 0
  AtLeast failed n ws = All (λ w. w.0.id ≢ failed → n ≤ vertex_count w.0) ws

  -- Some worker of this id, which is not the failed one, has `n` vertices.
  abbrev pub Has : ℕ → ℕ → ℕ → List (WorkerNode V × MessageBus) → Type 0
  Has failed id n [] = ⊥
  Has failed id n ((w, b) ∷ ws) =
      ((w.id ≡ id) × (w.id ≢ failed) × (vertex_count w ≡ n)) ⊎ Has failed id n ws

  AtLeast-Has :
      (failed id m n : ℕ) (ws : List (WorkerNode V × MessageBus))
      → AtLeast failed m ws
      → Has failed id n ws
      → m ≤ n
  AtLeast-Has failed id m n [] a h = absurd h
  AtLeast-Has failed id m n ((w, b) ∷ ws) a (inl h) = omega (arith, a.0 h.1, h.2)
  AtLeast-Has failed id m n ((w, b) ∷ ws) a (inr h) = AtLeast-Has failed id m n ws a.1 h

  IsFound : ℕ → ℕ → ℕ → ℕ → List (WorkerNode V × MessageBus) → Type 0
  IsFound failed owner min t ws =
      (n : ℕ) × (n ≤ min) × AtLeast failed n ws × (((t ≡ owner) × (n ≡ min)) ⊎ Has failed t n ws)

  keep-IsFound :
      (failed owner min t : ℕ) (w : WorkerNode V) (b : MessageBus)
      (ws : List (WorkerNode V × MessageBus))
      → (w.id ≢ failed → min ≤ vertex_count w)
      → IsFound failed owner min t ws
      → IsFound failed owner min t ((w, b) ∷ ws)
  unfolding IsFound
  keep-IsFound failed owner min t w b ws h (n, l, a, c) =
      (n, l, (λ e. omega (arith, h e), a), elim c [ inl k ↦ inl k | inr k ↦ inr (inr k) ])

  take-IsFound :
      (failed owner min t : ℕ) (w : WorkerNode V) (b : MessageBus)
      (ws : List (WorkerNode V × MessageBus))
      → w.id ≢ failed
      → vertex_count w < min
      → IsFound failed w.id (vertex_count w) t ws
      → IsFound failed owner min t ((w, b) ∷ ws)
  unfolding IsFound
  take-IsFound failed owner min t w b ws e h (n, l, a, c) = (
    n,
    omega arith,
    (λ _. l, a),
    elim c [ inl k ↦ inr (inl (sym k.0, e, sym k.1)) | inr k ↦ inr (inr k) ],
  )

  -- The loop: the old owner if no other worker has fewer vertices, and else one that has the least.
  least_vertices-IsFound :
      (failed owner min : ℕ) (ws : List (WorkerNode V × MessageBus))
      → IsFound failed owner min (least_vertices failed owner min ws) ws
  unfolding least_vertices IsFound
  least_vertices-IsFound failed owner min [] = (min, omega arith, tt, inl (refl, refl))
  least_vertices-IsFound failed owner min ((w, b) ∷ ws) = elim (ℕ_discrete w.id failed) [
    | yes e ↦
        subst (λ t. IsFound failed owner min t ((w, b) ∷ ws)) (ground (arith, e))
          (keep-IsFound failed owner min (least_vertices failed owner min ws) w b ws
            (λ n. absurd (n e)) (least_vertices-IsFound failed owner min ws))
    | no e ↦ elim (dec_lt (vertex_count w) min) [
      | yes l ↦
          subst (λ t. IsFound failed owner min t ((w, b) ∷ ws)) (ground (arith, e, l))
            (take-IsFound failed owner min (least_vertices failed w.id (vertex_count w) ws) w b ws e
              l (least_vertices-IsFound failed w.id (vertex_count w) ws))
      | no l ↦
          subst (λ t. IsFound failed owner min t ((w, b) ∷ ws)) (ground (arith, e, l))
            (keep-IsFound failed owner min (least_vertices failed owner min ws) w b ws
              (λ _. omega arith) (least_vertices-IsFound failed owner min ws))
    ]
  ]

  -- When a worker other than the failed one has fewer than `SIZE_MAX` vertices, the worker that would take over
  -- is not the failed one, and no other survivor has fewer vertices.
  pub failover_target-AtLeast :
      {F : Floating} (failed : ℕ) (c : Coordinator V F) (id n : ℕ)
      → Has failed id n c.workers
      → n < size_max
      → (m : ℕ) × Has failed (failover_target failed c) m c.workers × AtLeast failed m c.workers
  unfolding failover_target IsFound
  failover_target-AtLeast failed c id n h l =
      let (m, k, a, f) = least_vertices-IsFound failed 0 size_max c.workers in
      elim f [
        | inl e ↦ absurd (omega (arith, e.1, AtLeast-Has failed id m n c.workers a h))
        | inr e ↦ (m, e, a)
      ]
