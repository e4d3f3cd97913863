-- ===== src/Scheduler/Threads/Ran.antt =====
-- The threads of a scheduler: which tasks have run, and what they have made of the shared state.
use pregel.Common.{
  ℕ, suc, zero, ◌+◌, ◌<◌, ◌≤◌, ◌≡◌, ◌≢◌, refl, ◌∙◌, sym, ap, subst, List, [], ◌∷◌, ◌++◌, Bool, true,
  false, if◌then◌else◌, get_or, get_or-ne-lt, length, All, All-set, All-get_or, weigh, weigh-set,
  arith,
}
use pregel.Scheduler.{Task, NumaScheduler, NumaQueue, queue_of, empty_queue, release}
use pregel.Scheduler.Threads.{
  Pc, Thread, System, checking, looking, holding, timed, counted, finished, released, exited, at,
  thread_of, no_thread, pop_from,
}
use pregel.Scheduler.Threads.Moves.{held, held_by, queued}

-- The tasks, run one after the other.
abbrev pub run_tasks : {W : Type 0} → List (Task W) → W → W
run_tasks [] w = w
run_tasks (t ∷ ts) w = run_tasks ts (t.fn w)

pub run_tasks-append :
    {W : Type 0} (ts us : List (Task W)) (w : W)
    → run_tasks (ts ++ us) w ≡ run_tasks us (run_tasks ts w)
run_tasks-append [] us w = refl
run_tasks-append (t ∷ ts) us w = run_tasks-append ts us (t.fn w)

module _ {W : Type 0} where
  -- The weight of the task of a thread that has run it.
  abbrev pub passed : (Task W → ℕ) → Pc W → ℕ
  passed f (timed t us) = f t
  passed f (counted t us) = f t
  passed f (finished t) = f t
  passed f (released t) = f t
  passed f _ = 0

  abbrev pub passed_by : (Task W → ℕ) → Thread W → ℕ
  passed_by f th = passed f th.pc

  -- No task is in a queue or in the hands of a thread.
  pub record IsQuiet (x : System W) : Type 0 where
    pub held : (f : Task W → ℕ) → weigh (held_by f) x.threads ≡ 0
    pub queued : (f : Task W → ℕ) → weigh (queued f) x.sched.queues ≡ 0

pub prefix_eq {ℓ} : {A : Type ℓ} (xs ys zs : List A) → xs ++ ys ≡ xs ++ zs → ys ≡ zs
prefix_eq [] ys zs e = e
prefix_eq (x ∷ xs) ys zs e = prefix_eq xs ys zs (cc)

module _ {W : Type 0} (P : Task W → Type 0) where
  -- `P` of a task that a thread has taken and not run.
  abbrev pub Pending : Pc W → Type 0
  Pending (holding t) = P t
  Pending _ = Unit

  abbrev pub AllPending : List (Thread W) → Type 0
  AllPending ths = All (λ (th : Thread W). Pending th.pc) ths

  abbrev pub AllQueued : List (NumaQueue W) → Type 0
  AllQueued qs = All (λ (q : NumaQueue W). All P q.tasks) qs

  -- What has run since the state `x`, in which no task was waiting or in the hands of a thread.
  pub record Ran (x y : System W) : Type 0 where
    pub ran : List (Task W)
    pub fresh : List (Task W)
    pub world : y.world ≡ run_tasks ran x.world
    pub pushed : y.pushed ≡ x.pushed ++ fresh
    pub counts :
        (f : Task W → ℕ)
        → weigh f x.done + weigh f ran ≡ weigh f y.done + weigh (passed_by f) y.threads
    pub good : All P fresh → All P ran × AllPending y.threads × AllQueued y.sched.queues

  pub idle-Pending : (c : Bool) → Pending (if c then looking else exited)
  idle-Pending true = tt
  idle-Pending false = tt

  pub pc-Pending : (pc : Pc W) → held (λ t. 1) pc ≡ 0 → Pending pc
  pc-Pending (holding t) h = absurd (omega arith)
  pc-Pending checking h = tt
  pc-Pending looking h = tt
  pc-Pending (timed t us) h = tt
  pc-Pending (counted t us) h = tt
  pc-Pending (finished t) h = tt
  pc-Pending (released t) h = tt
  pc-Pending exited h = tt

  pub passed-le : (f : Task W → ℕ) (pc : Pc W) → passed f pc ≤ held f pc
  passed-le f pc = ground arith

  pub All-split : (ts us : List (Task W)) → All P (ts ++ us) → All P ts × All P us
  All-split [] us a = (tt, a)
  All-split (t ∷ ts) us a = let r = All-split ts us a.1 in ((a.0, r.0), r.1)

  pub no_task : (ts : List (Task W)) → weigh (λ t. 1) ts ≡ 0 → All P ts
  unfolding weigh
  no_task [] h = tt
  no_task (t ∷ ts) h = absurd (omega arith)

  pub All-queue :
      (n : ℕ) (qs : List (NumaQueue W)) → AllQueued qs → All P (get_or qs n empty_queue).tasks
  All-queue n [] a = tt
  All-queue zero (q ∷ qs) a = a.0
  All-queue (suc n) (q ∷ qs) a = All-queue n qs a.1

  -- A step of thread `i` from `pc` to `pc'`, after which `ran` has run and `done` is completed.
  pub move-Ran :
      (x y : System W) (i : ℕ) (pc pc' : Pc W) (s : NumaScheduler W) (w : W)
      (ran done : List (Task W)) (v : Ran x y)
      → (thread_of y i).pc ≡ pc
      → pc ≢ exited
      → w ≡ run_tasks ran x.world
      → ((f : Task W → ℕ)
          → weigh f ran + (weigh f y.done + passed f pc)
            ≡ weigh f v.ran + (weigh f done + passed f pc'))
      → (All P v.ran
          → Pending pc
          → AllQueued y.sched.queues
          → All P ran × Pending pc' × AllQueued s.queues)
      → Ran x (record y { sched = s; threads = at i pc' y; world = w; done = done })
  move-Ran x y i pc pc' s w ran done v e out world counts good =
      let th : Thread W = record (thread_of y i) { pc = pc' } in
      let lt : i < length y.threads =
        get_or-ne-lt y.threads i no_thread (λ z. out (sym e ∙ ap (λ (t : Thread W). t.pc) z)) in
      record {
        ran = ran;
        fresh = v.fresh;
        world = world;
        pushed = v.pushed;
        counts = λ f. omega (
          arith,
          v.counts f,
          counts f,
          weigh-set (passed_by f) y.threads i th no_thread lt,
          ap (passed f) e,
        );
        good = λ a.
            let (r, p, q) = v.good a in
            let (r', p', q') =
              good r
                (subst Pending e
                  (All-get_or (λ (t : Thread W). Pending t.pc) y.threads i no_thread p lt))
                q in
            (r', All-set (λ (t : Thread W). Pending t.pc) y.threads i th p' p, q');
      }

  pub pop-Ran :
      (x y : System W) (i : ℕ) (ts : List (Task W))
      → (thread_of y i).pc ≡ looking
      → (queue_of (thread_of y i).node y.sched).tasks ≡ ts
      → Ran x y
      → let r = pop_from (thread_of y i).node ts y.sched in
        Ran x (record y { sched = r.0; threads = at i r.1 y })
  unfolding pop_from
  pop-Ran x y i [] e d v =
      move-Ran x y i looking checking y.sched y.world v.ran y.done v e (λ z. cc) v.world (λ f. refl)
        (λ r p q. (r, tt, q))
  pop-Ran x y i (t ∷ ts) e d v =
      move-Ran x y i looking (holding t) _ y.world v.ran y.done v e (λ z. cc) v.world (λ f. refl)
        (λ r p q.
          let k = subst (All P) d (All-queue (thread_of y i).node y.sched.queues q) in
          (
            r,
            k.0,
            All-set (λ (c : NumaQueue W). All P c.tasks) y.sched.queues (thread_of y i).node _ k.1
                q,
          ))

  pub if-Ran : (c : Bool) (x y z : System W) → Ran x y → Ran x z → Ran x (if c then y else z)
  if-Ran true x y z v u = v
  if-Ran false x y z v u = u

  pub release-AllQueued :
      (n : ℕ) (s : NumaScheduler W) → AllQueued s.queues → AllQueued (release n s).queues
  unfolding release
  release-AllQueued n s q =
      All-set (λ (c : NumaQueue W). All P c.tasks) s.queues n _ (All-queue n s.queues q) q
