-- ===== src/Scheduler/Threads/Quiet.antt =====
-- The threads of a scheduler between two quiet states: every step keeps what is known of the tasks that have run.
use pregel.Common.{
  ℕ, ◌+◌, ◌≡◌, refl, ◌∙◌, sym, ap, subst, List, [], ◌∷◌, ◌++◌, if◌then◌else◌, All, All-append,
  All-set, append_assoc, append-nil, weigh, weigh-append, arith,
}
use pregel.Scheduler.{
  Task, NumaQueue, queue_of, push_task, is_spike, count_spike, record_spike, count_completed,
  count_submitted,
}
use pregel.Scheduler.Threads.{
  Pc, Thread, System, checking, looking, holding, timed, counted, finished, released, exited,
  stop_running, thread_of, push_step, count_step, work, Step, Reach, work_on, push, count, stop,
  here, later,
}
use pregel.Scheduler.Threads.Moves.{held_by, queued}
use pregel.Scheduler.Threads.Ran.{
  prefix_eq, pc-Pending, Ran, run_tasks-append, pop-Ran, All-queue, AllQueued, move-Ran, IsQuiet,
  All-split, idle-Pending, passed-le, AllPending, if-Ran, run_tasks, no_task, passed_by,
  release-AllQueued,
}

module _ {W : Type 0} (P : Task W → Type 0) where
  work-Ran :
      (x y : System W) (i us : ℕ) (pc : Pc W)
      → (thread_of y i).pc ≡ pc
      → Ran P x y
      → Ran P x (work i (thread_of y i).node us pc y)
  unfolding work count_spike record_spike count_completed weigh
  work-Ran x y i us checking e v =
      move-Ran P x y i checking (if y.sched.running then looking else exited) y.sched y.world v.ran
        y.done v e (λ z. cc) v.world (λ f. ground arith)
        (λ r p q. (r, idle-Pending P y.sched.running, q))
  work-Ran x y i us looking e v =
      pop-Ran P x y i (queue_of (thread_of y i).node y.sched).tasks e refl v
  work-Ran x y i us (holding t) e v =
      move-Ran P x y i (holding t) (timed t us) y.sched (t.fn y.world) (v.ran ++ t ∷ []) y.done v e
        (λ z. cc) (ap t.fn v.world ∙ sym (run_tasks-append v.ran (t ∷ []) x.world))
        (λ f. omega (arith, weigh-append f v.ran (t ∷ [])))
        (λ r p q. (All-append P v.ran (t ∷ []) r (p, tt), tt, q))
  work-Ran x y i us (timed t actual) e v =
      if-Ran P (is_spike actual t) x _ _
        (move-Ran P x y i (timed t actual) (counted t actual) _ y.world v.ran y.done v e (λ z. cc)
          v.world (λ f. refl) (λ r p q. (r, tt, q)))
        (move-Ran P x y i (timed t actual) (finished t) _ y.world v.ran y.done v e (λ z. cc) v.world
          (λ f. refl) (λ r p q. (r, tt, q)))
  work-Ran x y i us (counted t actual) e v =
      move-Ran P x y i (counted t actual) (finished t) _ y.world v.ran y.done v e (λ z. cc) v.world
        (λ f. refl) (λ r p q. (r, tt, q))
  work-Ran x y i us (finished t) e v =
      move-Ran P x y i (finished t) (released t) _ y.world v.ran y.done v e (λ z. cc) v.world
        (λ f. refl) (λ r p q. (r, tt, release-AllQueued P (thread_of y i).node y.sched q))
  work-Ran x y i us (released t) e v =
      move-Ran P x y i (released t) checking _ y.world v.ran (y.done ++ t ∷ []) v e (λ z. cc)
        v.world (λ f. omega (arith, weigh-append f y.done (t ∷ []))) (λ r p q. (r, tt, q))
  work-Ran x y i us exited e v = v

  push-Ran : (x y : System W) (t : Task W) → Ran P x y → Ran P x (push_step t y)
  unfolding push_step push_task
  push-Ran x y t v = record {
    ran = v.ran;
    fresh = v.fresh ++ t ∷ [];
    world = v.world;
    pushed = ap (λ l. l ++ t ∷ []) v.pushed ∙ append_assoc x.pushed v.fresh (t ∷ []);
    counts = v.counts;
    good = λ a.
        let (before, now) = All-split P v.fresh (t ∷ []) a in
        let (r, p, q) = v.good before in
        (
          r,
          p,
          All-set (λ (c : NumaQueue W). All P c.tasks) y.sched.queues _ _
              (All-append P _ (t ∷ []) (All-queue P _ y.sched.queues q) now) q,
        );
  }

  Step-Ran : (x y z : System W) → Ran P x y → Step y z → Ran P x z
  unfolding count_step count_submitted stop_running
  Step-Ran x y _ v (work_on i us) = work-Ran x y i us (thread_of y i).pc refl v
  Step-Ran x y _ v (push t) = push-Ran x y t v
  Step-Ran x y _ v (count h) = record {
    ran = v.ran;
    fresh = v.fresh;
    world = v.world;
    pushed = v.pushed;
    counts = v.counts;
    good = v.good;
  }
  Step-Ran x y _ v stop = record {
    ran = v.ran;
    fresh = v.fresh;
    world = v.world;
    pushed = v.pushed;
    counts = v.counts;
    good = v.good;
  }

  quiet-AllPending : (ths : List (Thread W)) → weigh (held_by (λ t. 1)) ths ≡ 0 → AllPending P ths
  unfolding weigh
  quiet-AllPending [] h = tt
  quiet-AllPending (th ∷ ths) h =
      (pc-Pending P th.pc (omega arith), quiet-AllPending ths (omega arith))

  quiet-AllQueued : (qs : List (NumaQueue W)) → weigh (queued (λ t. 1)) qs ≡ 0 → AllQueued P qs
  unfolding weigh
  quiet-AllQueued [] h = tt
  quiet-AllQueued (q ∷ qs) h = (no_task P q.tasks (omega arith), quiet-AllQueued qs (omega arith))

  passed-held :
      (f : Task W → ℕ) (ths : List (Thread W))
      → weigh (held_by f) ths ≡ 0
      → weigh (passed_by f) ths ≡ 0
  unfolding weigh
  passed-held f [] h = refl
  passed-held f (th ∷ ths) h = omega (arith, passed-le P f th.pc, passed-held f ths (omega arith))

  Reach-Ran : (x y : System W) → IsQuiet x → Reach x y → Ran P x y
  unfolding weigh
  Reach-Ran x _ u here = record {
    ran = [];
    fresh = [];
    world = refl;
    pushed = sym (append-nil x.pushed);
    counts = λ f. omega (arith, passed-held f x.threads (u.held f));
    good = λ a. (
      tt,
      quiet-AllPending x.threads (u.held (λ t. 1)),
      quiet-AllQueued x.sched.queues (u.queued (λ t. 1)),
    );
  }
  Reach-Ran x _ u (later {z = z} r s) = Step-Ran x z _ (Reach-Ran x z u r) s

  -- Whatever the interleaving of submitters and worker threads from a quiet state to a quiet one, and whatever is
  -- true of all tasks pushed in between: the shared state is what these tasks make of it when they
  -- run one after the other, each exactly once by any measure, in some order.
  pub quiet_run :
      (x y : System W) (fresh : List (Task W))
      → IsQuiet x
      → Reach x y
      → IsQuiet y
      → y.pushed ≡ x.pushed ++ fresh
      → ((f : Task W → ℕ) → weigh f y.done ≡ weigh f x.done + weigh f fresh)
      → All P fresh
      → (ran : List (Task W)) × (y.world ≡ run_tasks ran x.world)
        × ((f : Task W → ℕ) → weigh f ran ≡ weigh f fresh)
        × All P ran
  quiet_run x y fresh u r q e d a =
      let v = Reach-Ran x y u r in
      (
        v.ran,
        v.world,
        λ f. omega (arith, v.counts f, passed-held f y.threads (q.held f), d f),
        (v.good (subst (All P) (prefix_eq x.pushed fresh v.fresh (sym e ∙ v.pushed)) a)).0,
      )
