-- ===== src/Worker/Refinement.antt =====
-- `WorkerNode::run_superstep` up to `wait_all`: the threads of the scheduler do what the compute phase does in some order.
use pregel.Common.{
  ℕ, ◌^◌, ◌<◌, ◌≤◌, ◌≡◌, refl, sym, ◌∙◌, ap, subst, List, [], ◌∷◌, ◌++◌, ◌==◌, if◌then◌else◌,
  length, All, true, false, ltb, keys, Bool-cases, inl, inr, ==_iff, ==_refl, weigh, weigh-append,
  arith, ℕ_discrete,
}
use mathlib.Core.List.{List-discrete}
use pregel.Types.{Message}
use pregel.Worker.{
  VertexClass, WorkerNode, dispatch_messages, deliver, wake, run_vertex, run_vertices, task_of,
  compute_phase,
}
use pregel.Worker.Inboxes.{elem, NoDup, IsOrder}
use pregel.Worker.Compute.{wake-NoDup}
use pregel.Scheduler.{Task, wait_done}
use pregel.Scheduler.Threads.{System, Reach}
use pregel.Scheduler.Threads.Accounts.{Runs, Reach-Inv, start-Inv}
use pregel.Scheduler.Threads.Waiting.{wait_all_done, Reach-trans}
use pregel.Scheduler.Threads.Ran.{run_tasks, IsQuiet}
use pregel.Scheduler.Threads.Quiet.{quiet_run}

abbrev hit : ℕ → ℕ → ℕ
hit k x = if x == k then 1 else 0

elem-weigh : (k : ℕ) (xs : List ℕ) → elem k xs ≡ ltb 0 (weigh (hit k) xs)
unfolding weigh
elem-weigh k [] = refl
elem-weigh k (x ∷ xs) = ground (arith, elem-weigh k xs)

NoDup-weigh : (k : ℕ) (xs : List ℕ) → NoDup xs → weigh (hit k) xs ≤ 1
unfolding weigh
NoDup-weigh k [] d = omega arith
NoDup-weigh k (x ∷ xs) d = elim (Bool-cases (x == k)) [
  | inl here ↦
      let gone : elem k xs ≡ false = subst (λ j. elem j xs ≡ false) ((==_iff x k).0 here) d.0 in
      ground (arith, here, gone, elem-weigh k xs)
  | inr there ↦ ground (arith, there, NoDup-weigh k xs d.1)
]

weigh-NoDup : (xs : List ℕ) → ((k : ℕ) → weigh (hit k) xs ≤ 1) → NoDup xs
unfolding weigh
weigh-NoDup [] h = tt
weigh-NoDup (x ∷ xs) h =
    (ground (arith, h x, ==_refl x, elem-weigh x xs), weigh-NoDup xs (λ k. omega (arith, h k)))

-- The reordering that takes `xs` to `ys`.
abbrev swapping : List ℕ → List ℕ → List ℕ → List ℕ
swapping xs ys zs = elim (List-discrete ℕ_discrete zs xs) [ yes e ↦ ys | no e ↦ zs ]

swapping-IsOrder :
    (xs ys : List ℕ)
    → NoDup xs
    → ((k : ℕ) → weigh (hit k) ys ≡ weigh (hit k) xs)
    → IsOrder (swapping xs ys)
swapping-IsOrder xs ys d h = record {
  no_dup = λ zs n.
      elim (List-discrete ℕ_discrete zs xs) as (λ c. NoDup (elim c [ yes e ↦ ys | no e ↦ zs ])) [
        | yes e ↦ weigh-NoDup ys (λ k. omega (arith, h k, NoDup-weigh k xs d))
        | no e ↦ n
      ];
  same = λ zs k.
      elim (List-discrete ℕ_discrete zs xs)
        as (λ c. elem k (elim c [ yes e ↦ ys | no e ↦ zs ]) ≡ elem k zs) [
          | yes e ↦ elem-weigh k ys ∙ ap (ltb 0) (h k) ∙ sym (elem-weigh k xs) ∙ ap (elem k) (sym e)
          | no e ↦ refl
        ];
}

swapping_self : (xs ys : List ℕ) → swapping xs ys xs ≡ ys
swapping_self xs ys =
    elim (List-discrete ℕ_discrete xs xs) as (λ c. (elim c [ yes e ↦ ys | no e ↦ xs ]) ≡ ys) [
      | yes e ↦ refl
      | no e ↦ absurd (e refl)
    ]

module _ {V : Type 0} (C : VertexClass V) (step : ℕ) where
  -- The tasks of a superstep, whose body is read off from their id.
  abbrev IsTask : Task (WorkerNode V) → Type 0
  IsTask t = t.fn ≡ run_vertex C step t.task_id

  abbrev tasks_of : WorkerNode V → List ℕ → List (Task (WorkerNode V))
  tasks_of w [] = []
  tasks_of w (vid ∷ vids) = task_of C step vid w ∷ tasks_of w vids

  tasks_of-IsTask : (w : WorkerNode V) (vids : List ℕ) → All IsTask (tasks_of w vids)
  unfolding task_of
  tasks_of-IsTask w [] = tt
  tasks_of-IsTask w (vid ∷ vids) = (refl, tasks_of-IsTask w vids)

  abbrev ids : List (Task (WorkerNode V)) → List ℕ
  ids [] = []
  ids (t ∷ ts) = t.task_id ∷ ids ts

  abbrev id_hit : ℕ → Task (WorkerNode V) → ℕ
  id_hit k t = hit k t.task_id

  ids-weigh :
      (k : ℕ) (ts : List (Task (WorkerNode V))) → weigh (hit k) (ids ts) ≡ weigh (id_hit k) ts
  unfolding weigh
  ids-weigh k [] = refl
  ids-weigh k (t ∷ ts) = omega (arith, ids-weigh k ts)

  tasks_of-weigh :
      (k : ℕ) (w : WorkerNode V) (vids : List ℕ)
      → weigh (id_hit k) (tasks_of w vids) ≡ weigh (hit k) vids
  unfolding weigh task_of
  tasks_of-weigh k w [] = refl
  tasks_of-weigh k w (vid ∷ vids) = omega (arith, tasks_of-weigh k w vids)

  run_tasks-ids :
      (ts : List (Task (WorkerNode V))) (w : WorkerNode V)
      → All IsTask ts
      → run_tasks ts w ≡ run_vertices C step (ids ts) w
  unfolding run_vertices
  run_tasks-ids [] w a = refl
  run_tasks-ids (t ∷ ts) w a =
      ap (λ g. run_tasks ts (g w)) a.0 ∙ run_tasks-ids ts (run_vertex C step t.task_id w) a.1

  -- The worker with the messages in its inboxes, and the vertices woken.
  abbrev pub dispatched : List Message → WorkerNode V → WorkerNode V
  dispatched ms w =
      let w₁ = dispatch_messages ms w in
      record w₁ { vertices = (wake C w₁.vertex_inbox w₁.vertices).0 }

  -- The tasks that it submits.
  abbrev pub submitted : List Message → WorkerNode V → List (Task (WorkerNode V))
  submitted ms w =
      let w₁ = dispatch_messages ms w in tasks_of w₁ (wake C w₁.vertex_inbox w₁.vertices).1

  -- The threads of the scheduler refine the compute phase. From any quiet state `x` of a scheduler, under any
  -- interleaving of the threads and of what submits the tasks of a superstep and no others: when `wait_all` returns, having
  -- loaded the completed count in `y` and the submitted count in `z`, with no `submit` between its
  -- two accesses and fewer than 2 ^ 64 tasks ever, the worker is as `compute_phase` leaves it
  -- for some order of the tasks, and the scheduler is quiet again.
  pub compute_phase-refined :
      (nodes per : ℕ) (w₀ : WorkerNode V) (x y z : System (WorkerNode V)) (ms : List Message)
      (w : WorkerNode V)
      → 0 < nodes
      → Runs nodes per w₀ x
      → IsQuiet x
      → x.world ≡ dispatched ms w
      → NoDup (keys w.vertices)
      → Reach x y
      → Reach y z
      → z.uncounted ≡ 0
      → z.pushed ≡ x.pushed ++ submitted ms w
      → length z.pushed < 2 ^ 64
      → wait_done y.sched.total_completed z.sched.total_submitted ≡ true
      → (order : List ℕ → List ℕ) × IsOrder order
        × (z.world ≡ compute_phase C order step ms w)
        × IsQuiet z
  unfolding compute_phase dispatch_messages
  compute_phase-refined nodes per w₀ x y z ms w h r u begin d xy yz count e small done =
      let new = submitted ms w in
      let vids = (wake C (deliver ms w.vertex_inbox) w.vertices).1 in
      let over = wait_all_done nodes per w₀ y z h (Reach-trans _ x y r xy) yz count small done in
      let quiet : IsQuiet z = record { held = λ f. (over f).1; queued = λ f. (over f).2 } in
      let before = Reach-Inv _ x (start-Inv nodes per w₀ h) r in
      let (ran, made, same, good) =
        quiet_run IsTask x z new u (Reach-trans x y z xy yz) quiet e
          (λ f. omega (
            arith,
            (over f).0,
            before.account f,
            u.held f,
            u.queued f,
            ap (weigh f) e,
            weigh-append f x.pushed new,
          ))
          (tasks_of-IsTask (dispatch_messages ms w) vids) in
      let swapped : (k : ℕ) → weigh (hit k) (ids ran) ≡ weigh (hit k) vids =
        λ k. ids-weigh k ran ∙ same (id_hit k) ∙ tasks_of-weigh k (dispatch_messages ms w) vids in
      (
        swapping vids (ids ran),
        swapping-IsOrder vids (ids ran) (wake-NoDup C (deliver ms w.vertex_inbox) w.vertices d)
            swapped,
        made
            ∙ run_tasks-ids ran x.world good
            ∙ ap (run_vertices C step (ids ran)) begin
            ∙ ap (λ l. run_vertices C step l (dispatched ms w))
                (sym (swapping_self vids (ids ran))),
        quiet,
      )
