-- ===== src/Scheduler/Threads/Accounts.antt =====
-- The threads of a scheduler: no task is lost, and the counters count the tasks.
use pregel.Common.{
  ℕ, suc, zero, ◌+◌, ◌-◌, ◌^◌, ◌<◌, ◌≡◌, refl, ◌∙◌, sym, ap, List, [], ◌∷◌, ◌++◌, Bool, true, false,
  if◌then◌else◌, set-get_or, length, length-replicate, get_or-replicate, ap₂, All, All-append,
  All-replicate, All-get_or, weigh-replicate, length-append, weigh, weigh-append, arith, replicate,
}
use pregel.Types.{u64}
use pregel.Scheduler.{
  Task, NumaQueue, queue_of, empty_queue, is_spike, count_spike, record_spike, release,
  count_completed, new_scheduler,
}
use pregel.Scheduler.Threads.Moves.{
  Inv, held_by, busy_on, queued, IsLoad, push-Inv, count-Inv, stop-Inv, move-Inv,
}
use pregel.Scheduler.Threads.{
  Pc, Thread, System, checking, looking, holding, timed, counted, finished, released, exited,
  threads_of, start, work_on, push, count, stop, here, later, pop_from, at, work, thread_of,
  no_thread, Step, Reach,
}

threads_of-placed :
    (W : Type 0) (n nodes per k : ℕ)
    → n + nodes ≡ k
    → All (λ (th : Thread W). th.node < k) (threads_of n nodes per)
unfolding threads_of
threads_of-placed W n zero per k e = tt
threads_of-placed W n (suc more) per k e =
    All-append (λ (th : Thread W). th.node < k) _ _
      (All-replicate (λ (th : Thread W). th.node < k) per _ (omega arith))
      (threads_of-placed W (suc n) more per k (omega arith))

module _ {W : Type 0} where
  pop-Inv :
      (i : ℕ) (ts : List (Task W)) (y : System W)
      → (thread_of y i).pc ≡ looking
      → (queue_of (thread_of y i).node y.sched).tasks ≡ ts
      → Inv y
      → let r = pop_from (thread_of y i).node ts y.sched in
        Inv (record y { sched = r.0; threads = at i r.1 y })
  unfolding pop_from weigh
  pop-Inv i [] y e d v =
      move-Inv y i looking checking (queue_of (thread_of y i).node y.sched) y.sched y.world y.done e
        (λ z. cc) refl (sym (set-get_or y.sched.queues _ empty_queue)) refl (λ f. refl) (λ b h. h)
        v.completed v
  pop-Inv i (t ∷ ts) y e d v =
      let q = queue_of (thread_of y i).node y.sched in
      move-Inv y i looking (holding t) (record q { tasks = ts }) _ y.world y.done e (λ z. cc) refl
        refl refl (λ f. omega (arith, ap (weigh f) d)) (λ b h. omega (arith, h, ap length d))
        v.completed v

  if-Inv : (c : Bool) (y z : System W) → Inv y → Inv z → Inv (if c then y else z)
  if-Inv true y z v w = v
  if-Inv false y z v w = w

  work-Inv :
      (i us : ℕ) (pc : Pc W) (y : System W)
      → (thread_of y i).pc ≡ pc
      → Inv y
      → Inv (work i (thread_of y i).node us pc y)
  unfolding work pop_from count_spike record_spike release count_completed weigh
  work-Inv i us checking y e v =
      move-Inv y i checking (if y.sched.running then looking else exited)
        (queue_of (thread_of y i).node y.sched) y.sched y.world y.done e (λ z. cc) refl
        (sym (set-get_or y.sched.queues _ empty_queue)) refl (λ f. ground arith)
        (λ b h. ground arith) v.completed v
  work-Inv i us looking y e v = pop-Inv i (queue_of (thread_of y i).node y.sched).tasks y e refl v
  work-Inv i us (holding t) y e v =
      move-Inv y i (holding t) (timed t us) (queue_of (thread_of y i).node y.sched) y.sched
        (t.fn y.world) y.done e (λ z. cc) refl (sym (set-get_or y.sched.queues _ empty_queue)) refl
        (λ f. refl) (λ b h. h) v.completed v
  work-Inv i us (timed t actual) y e v =
      if-Inv (is_spike actual t) _ _
        (move-Inv y i (timed t actual) (counted t actual) (queue_of (thread_of y i).node y.sched) _
          y.world y.done e (λ z. cc) refl (sym (set-get_or y.sched.queues _ empty_queue)) refl
          (λ f. refl) (λ b h. h) v.completed v)
        (move-Inv y i (timed t actual) (finished t) (queue_of (thread_of y i).node y.sched) _
          y.world y.done e (λ z. cc) refl (sym (set-get_or y.sched.queues _ empty_queue)) refl
          (λ f. refl) (λ b h. h) v.completed v)
  work-Inv i us (counted t actual) y e v =
      move-Inv y i (counted t actual) (finished t) (queue_of (thread_of y i).node y.sched) _ y.world
        y.done e (λ z. cc) refl (sym (set-get_or y.sched.queues _ empty_queue)) refl (λ f. refl)
        (λ b h. h) v.completed v
  work-Inv i us (finished t) y e v =
      let q = queue_of (thread_of y i).node y.sched in
      move-Inv y i (finished t) (released t)
        (record q { active_tasks = u64 (q.active_tasks + 2 ^ 64 - 1) }) _ y.world y.done e (λ z. cc)
        refl refl refl (λ f. refl) (λ b h. omega arith) v.completed v
  work-Inv i us (released t) y e v =
      move-Inv y i (released t) checking (queue_of (thread_of y i).node y.sched) _ y.world
        (y.done ++ t ∷ []) e (λ z. cc) refl (sym (set-get_or y.sched.queues _ empty_queue)) refl
        (λ f. omega (arith, weigh-append f y.done (t ∷ []))) (λ b h. h)
        (omega (arith, v.completed, length-append y.done (t ∷ []))) v
  work-Inv i us exited y e v = v

  threads_of-weigh :
      (g : Thread W → ℕ) (n nodes per : ℕ)
      → ((m : ℕ) → g (record { node = m; pc = checking }) ≡ 0)
      → weigh g (threads_of n nodes per) ≡ 0
  unfolding threads_of weigh
  threads_of-weigh g n zero per h = refl
  threads_of-weigh g n (suc more) per h = omega (
    arith,
    weigh-append g (replicate per (record { node = n; pc = checking }))
        (threads_of (suc n) more per),
    weigh-replicate g per (record { node = n; pc = checking }) (h n),
    threads_of-weigh g (suc n) more per h,
  )

  pub start-Inv : (nodes per : ℕ) (w : W) → 0 < nodes → Inv (start (new_scheduler nodes per) w)
  unfolding start new_scheduler weigh
  start-Inv nodes per w h = record {
    nodes = h;
    wired = length-replicate nodes empty_queue;
    placed = λ i l.
        All-get_or (λ (th : Thread W). th.node < nodes) _ i no_thread
          (threads_of-placed W 0 nodes per nodes (omega arith)) l;
    account = λ f. omega (
      arith,
      threads_of-weigh (held_by f) 0 nodes per (λ m. refl),
      weigh-replicate (queued f) nodes empty_queue refl,
    );
    submitted = refl;
    completed = refl;
    loads = λ n l.
        ap (λ (q : NumaQueue W). q.active_tasks) (get_or-replicate nodes n empty_queue)
        ∙ sym (
            ap u64 (
              ap₂ ◌+◌
                (ap (λ (q : NumaQueue W). length q.tasks) (get_or-replicate nodes n empty_queue))
                (threads_of-weigh (busy_on n) 0 nodes per (λ m. ground arith))));
  }

  Step-Inv : (y z : System W) → Inv y → Step y z → Inv z
  Step-Inv y _ v (work_on i us) = work-Inv i us (thread_of y i).pc y refl v
  Step-Inv y _ v (push t) = push-Inv t y v
  Step-Inv y _ v (count h) = count-Inv y h v
  Step-Inv y _ v stop = stop-Inv y v

  pub Reach-Inv : (y z : System W) → Inv y → Reach y z → Inv z
  Reach-Inv y _ v here = v
  Reach-Inv y _ v (later {z = z} r s) = Step-Inv z _ (Reach-Inv y z v r) s

  -- What runs after `start` on a fresh scheduler.
  abbrev pub Runs : ℕ → ℕ → W → System W → Type 0
  Runs nodes per w y = Reach (start (new_scheduler nodes per) w) y

  -- Whatever the interleaving of submitters and worker threads: no task is lost and none is run twice.
  -- For every measure of tasks, the tasks pushed weigh as much as the tasks completed, those in the
  -- hands of the threads and those in the queues together.
  pub tasks_conserved :
      (nodes per : ℕ) (w : W) (y : System W) (f : Task W → ℕ)
      → 0 < nodes
      → Runs nodes per w y
      → weigh f y.pushed
        ≡ weigh f y.done + (weigh (held_by f) y.threads + weigh (queued f) y.sched.queues)
  tasks_conserved nodes per w y f h r = (Reach-Inv _ y (start-Inv nodes per w h) r).account f

  -- The load that `least_loaded_node` compares is right under every interleaving: the count of a node
  -- is the number of tasks in its queue and in the hands of its threads (modulo 2 ^ 64).
  pub active_tasks-IsLoad :
      (nodes per : ℕ) (w : W) (y : System W) (n : ℕ)
      → 0 < nodes
      → Runs nodes per w y
      → n < y.sched.numa_nodes
      → IsLoad n (queue_of n y.sched) y.threads
  active_tasks-IsLoad nodes per w y n h r = (Reach-Inv _ y (start-Inv nodes per w h) r).loads n
