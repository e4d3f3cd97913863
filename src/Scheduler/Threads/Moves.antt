-- ===== src/Scheduler/Threads/Moves.antt =====
-- The invariant of a scheduler with its threads: where the tasks are, and what the counters count.
-- One step of a thread keeps it.
use pregel.Common.{
  ℕ, ◌+◌, ◌-◌, ◌%◌, ◌<◌, ◌≡◌, ◌≢◌, refl, ◌∙◌, sym, ap, subst, List, [], ◌∷◌, ◌++◌, ◌==◌,
  if◌then◌else◌, get_or, get_or-set, get_or-ne-lt, set, length, length-set, length-append, weigh,
  weigh-set, weigh-append, weigh-ge, arith, ℕ_discrete,
}
use pregel.Types.{u64}
use pregel.Scheduler.{
  Task, NumaScheduler, NumaQueue, queue_of, empty_queue, push_task, count_submitted,
}
use pregel.Scheduler.Threads.{
  Pc, Thread, System, holding, timed, counted, finished, released, exited, stop_running, at,
  thread_of, no_thread, push_step, count_step,
}

module _ {W : Type 0} where
  -- The weight of the task that a thread has in hand, and whether it counts in the load of its node.
  abbrev pub held : (Task W → ℕ) → Pc W → ℕ
  held f (holding t) = f t
  held f (timed t us) = f t
  held f (counted t us) = f t
  held f (finished t) = f t
  held f (released t) = f t
  held f _ = 0

  abbrev pub busy : Pc W → ℕ
  busy (holding t) = 1
  busy (timed t us) = 1
  busy (counted t us) = 1
  busy (finished t) = 1
  busy _ = 0

  abbrev pub held_by : (Task W → ℕ) → Thread W → ℕ
  held_by f th = held f th.pc

  abbrev pub busy_on : ℕ → Thread W → ℕ
  busy_on n th = if th.node == n then busy th.pc else 0

  abbrev pub queued : (Task W → ℕ) → NumaQueue W → ℕ
  queued f q = weigh f q.tasks

  pub record Inv (y : System W) : Type 0 where
    pub nodes : 0 < y.sched.numa_nodes
    pub wired : length y.sched.queues ≡ y.sched.numa_nodes
    pub placed : (i : ℕ) → i < length y.threads → (thread_of y i).node < y.sched.numa_nodes
    pub account :
        (f : Task W → ℕ)
        → weigh f y.pushed
          ≡ weigh f y.done + (weigh (held_by f) y.threads + weigh (queued f) y.sched.queues)
    pub submitted : u64 (y.sched.total_submitted + y.uncounted) ≡ u64 (length y.pushed)
    pub completed : y.sched.total_completed ≡ u64 (length y.done)
    pub loads :
        (n : ℕ)
        → n < y.sched.numa_nodes
        → (queue_of n y.sched).active_tasks
          ≡ u64 (length (queue_of n y.sched).tasks + weigh (busy_on n) y.threads)

  -- The load of node `n` with queue `q`.
  abbrev pub IsLoad : ℕ → NumaQueue W → List (Thread W) → Type 0
  IsLoad n q ths = q.active_tasks ≡ u64 (length q.tasks + weigh (busy_on n) ths)

  IsLoad-set :
      (k n : ℕ) (q : NumaQueue W) (qs : List (NumaQueue W)) (ths : List (Thread W))
      → k < length qs
      → (k ≡ n → IsLoad n q ths)
      → (k ≢ n → IsLoad n (get_or qs n empty_queue) ths)
      → IsLoad n (get_or (set qs k q) n empty_queue) ths
  IsLoad-set k n q qs ths l a b =
      subst (λ r. IsLoad n r ths) (sym (get_or-set qs k n q empty_queue l))
        (elim (ℕ_discrete k n) [ yes e ↦ ground (arith, a e) | no e ↦ ground (arith, b e) ])

  busy_on-same : (n : ℕ) (th : Thread W) → th.node ≡ n → busy_on n th ≡ busy th.pc
  busy_on-same n th e = ground arith

  busy_on-other : (n : ℕ) (th : Thread W) → th.node ≢ n → busy_on n th ≡ 0
  busy_on-other n th e = ground arith

  pub push-Inv : (t : Task W) (y : System W) → Inv y → Inv (push_step t y)
  unfolding push_step push_task weigh
  push-Inv t y v =
      let k = t.preferred_numa_node % y.sched.numa_nodes in
      let q = queue_of k y.sched in
      let q' : NumaQueue W = record {
        tasks = q.tasks ++ t ∷ [];
        active_tasks = u64 (q.active_tasks + 1);
      } in
      let l : k < length y.sched.queues = omega (arith, v.nodes, v.wired) in
      record {
        nodes = v.nodes;
        wired = length-set y.sched.queues _ _ ∙ v.wired;
        placed = v.placed;
        account = λ f. omega (
          arith,
          v.account f,
          weigh-append f y.pushed (t ∷ []),
          weigh-set (queued f) y.sched.queues k q' empty_queue l,
          weigh-append f q.tasks (t ∷ []),
        );
        submitted = omega (arith, v.submitted, length-append y.pushed (t ∷ []));
        completed = v.completed;
        loads = λ n h.
            IsLoad-set k n q' y.sched.queues y.threads l
              (λ e. omega (
                arith,
                e,
                v.loads k (omega arith),
                length-append q.tasks (t ∷ []),
                ap (λ j. weigh (busy_on j) y.threads) e,
              ))
              (λ e. v.loads n h);
      }

  pub count-Inv : (y : System W) → 0 < y.uncounted → Inv y → Inv (count_step y)
  unfolding count_step count_submitted
  count-Inv y h v = record {
    nodes = v.nodes;
    wired = v.wired;
    placed = v.placed;
    account = v.account;
    submitted = omega (arith, v.submitted);
    completed = v.completed;
    loads = v.loads;
  }

  pub stop-Inv : (y : System W) → Inv y → Inv (stop_running y)
  unfolding stop_running
  stop-Inv y v = record {
    nodes = v.nodes;
    wired = v.wired;
    placed = v.placed;
    account = v.account;
    submitted = v.submitted;
    completed = v.completed;
    loads = v.loads;
  }

  -- A step of thread `i` that leaves its queue as `q`, its scheduler otherwise with the same counts of
  -- submissions, and the completed tasks as `done`.
  pub move-Inv :
      (y : System W) (i : ℕ) (pc pc' : Pc W) (q : NumaQueue W) (s : NumaScheduler W) (w : W)
      (done : List (Task W))
      → let node = (thread_of y i).node in
        let q₀ = queue_of node y.sched in
        (thread_of y i).pc ≡ pc
        → pc ≢ exited
        → s.numa_nodes ≡ y.sched.numa_nodes
        → s.queues ≡ set y.sched.queues node q
        → s.total_submitted ≡ y.sched.total_submitted
        → ((f : Task W → ℕ)
            → weigh f done + (held f pc' + weigh f q.tasks)
              ≡ weigh f y.done + (held f pc + weigh f q₀.tasks))
        → ((b : ℕ)
            → q₀.active_tasks ≡ u64 (length q₀.tasks + (b + busy pc))
            → q.active_tasks ≡ u64 (length q.tasks + (b + busy pc')))
        → s.total_completed ≡ u64 (length done)
        → Inv y
        → Inv (record y { sched = s; threads = at i pc' y; world = w; done = done })
  move-Inv y i pc pc' q s w done e x nodes queues sub acc load comp v = record {
    nodes = omega (arith, v.nodes);
    wired = ap length queues ∙ length-set y.sched.queues node q ∙ v.wired ∙ sym nodes;
    placed = λ j l. placed_at j (subst (◌<◌ j) (length-set y.threads i th') l);
    account = λ f. omega (
      arith,
      v.account f,
      acc f,
      weigh-set (held_by f) y.threads i th' no_thread lt,
      weigh-set (queued f) y.sched.queues node q empty_queue lq,
      ap (held f) e,
      ap (weigh (queued f)) queues,
    );
    submitted = omega (arith, v.submitted);
    completed = comp;
    loads = λ n h.
        subst (λ qs. IsLoad n (get_or qs n empty_queue) (at i pc' y)) (sym queues)
          (IsLoad-set node n q y.sched.queues (at i pc' y) lq
            (λ c. subst (λ k. IsLoad k q (at i pc' y)) c here_load)
            (λ c. there_load n (omega arith) c));
  }
    where
      node : ℕ
      node = (thread_of y i).node

      th' : Thread W
      th' = record (thread_of y i) { pc = pc' }

      lt : i < length y.threads
      lt = get_or-ne-lt y.threads i no_thread (λ z. x (sym e ∙ ap (λ (t : Thread W). t.pc) z))

      lq : node < length y.sched.queues
      lq = omega (arith, v.placed i lt, v.wired)

      placed_at :
          (j : ℕ) → j < length y.threads → (get_or (at i pc' y) j no_thread).node < s.numa_nodes
      placed_at j l =
          ground (arith, get_or-set y.threads i j th' no_thread lt, v.placed j l, v.placed i lt)

      here_load : IsLoad node q (at i pc' y)
      here_load =
          let b = weigh (busy_on node) y.threads - busy pc in
          omega (
            arith,
            load b (
                omega (
                  arith,
                  v.loads node (omega (arith, v.placed i lt)),
                  weigh-ge (busy_on node) y.threads i no_thread lt,
                  busy_on-same node (thread_of y i) refl,
                  ap busy e,
                )),
            weigh-set (busy_on node) y.threads i th' no_thread lt,
            weigh-ge (busy_on node) y.threads i no_thread lt,
            busy_on-same node (thread_of y i) refl,
            busy_on-same node th' refl,
            ap busy e,
          )

      there_load :
          (n : ℕ) → n < y.sched.numa_nodes → node ≢ n → IsLoad n (queue_of n y.sched) (at i pc' y)
      there_load n h c = omega (
        arith,
        v.loads n h,
        weigh-set (busy_on n) y.threads i th' no_thread lt,
        busy_on-other n (thread_of y i) c,
        busy_on-other n th' c,
      )
