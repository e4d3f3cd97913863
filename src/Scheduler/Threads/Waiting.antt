-- ===== src/Scheduler/Threads/Waiting.antt =====
-- `NumaScheduler::wait_all`.
use pregel.Common.{
  ℕ, ◌+◌, ◌^◌, ◌≤◌, ◌<◌, ◌≡◌, refl, List, [], ◌∷◌, true, length, length-append, weigh, arith,
}
use pregel.Scheduler.{Task, NumaQueue, wait_done}
use pregel.Scheduler.Threads.{
  System, Thread, Pc, checking, looking, holding, timed, counted, finished, released, exited, work,
  thread_of, push_step, count_step, stop_running, Step, Reach, work_on, push, count, stop, here,
  later,
}
use pregel.Scheduler.Threads.Moves.{Inv, held_by, queued}
use pregel.Scheduler.Threads.Accounts.{Runs, Reach-Inv, start-Inv}

weigh-one {ℓ} : {A : Type ℓ} (xs : List A) → weigh (λ _. 1) xs ≡ length xs
unfolding weigh
weigh-one [] = refl
weigh-one (x ∷ xs) = omega (arith, weigh-one xs)

-- Where one measure finds nothing, another finds nothing.
weigh-zero {ℓ} :
    {A : Type ℓ} (g h : A → ℕ) (xs : List A)
    → ((a : A) → g a ≡ 0 → h a ≡ 0)
    → weigh g xs ≡ 0
    → weigh h xs ≡ 0
unfolding weigh
weigh-zero g h [] k e = refl
weigh-zero g h (x ∷ xs) k e = omega (arith, k x (omega arith), weigh-zero g h xs k (omega arith))

wait_done-le : (c s : ℕ) → wait_done c s ≡ true → s ≤ c
unfolding wait_done
wait_done-le c s h = ground arith

module _ {W : Type 0} where
  abbrev one : Task W → ℕ
  one t = 1

  held-zero : (f : Task W → ℕ) (th : Thread W) → held_by one th ≡ 0 → held_by f th ≡ 0
  held-zero f th e = ground arith

  queued-zero : (f : Task W → ℕ) (q : NumaQueue W) → queued one q ≡ 0 → queued f q ≡ 0
  queued-zero f q e = weigh-zero one f q.tasks (λ a z. absurd (omega arith)) e

  work-done :
      (i n us : ℕ) (pc : Pc W) (y : System W) → length y.done ≤ length (work i n us pc y).done
  unfolding work
  work-done i n us checking y = omega arith
  work-done i n us looking y = omega arith
  work-done i n us (holding t) y = omega arith
  work-done i n us (timed t a) y = ground arith
  work-done i n us (counted t a) y = omega arith
  work-done i n us (finished t) y = omega arith
  work-done i n us (released t) y = omega (arith, length-append y.done (t ∷ []))
  work-done i n us exited y = omega arith

  Step-done : (y z : System W) → Step y z → length y.done ≤ length z.done
  unfolding push_step count_step stop_running
  Step-done y _ (work_on i us) = work-done i (thread_of y i).node us (thread_of y i).pc y
  Step-done y _ (push t) = omega arith
  Step-done y _ (count h) = omega arith
  Step-done y _ stop = omega arith

  Reach-done : (y z : System W) → Reach y z → length y.done ≤ length z.done
  Reach-done y _ here = omega arith
  Reach-done y _ (later {z = z} r s) = omega (arith, Reach-done y z r, Step-done z _ s)

  pub Reach-trans : (x y z : System W) → Reach x y → Reach y z → Reach x z
  Reach-trans x y _ r here = r
  Reach-trans x y _ r (later {z = z} s t) = later (Reach-trans x y z r s) t

  -- When `wait_all` returns, having loaded the completed count in the state `y` and the submitted count
  -- in the later state `z`, and no `submit` is between its two accesses in `z`, and fewer than 2 ^ 64
  -- tasks were pushed: every task pushed is completed, by any measure, so none is in a queue or in
  -- the hands of a thread.
  pub wait_all_done :
      (nodes per : ℕ) (w : W) (y z : System W)
      → 0 < nodes
      → Runs nodes per w y
      → Reach y z
      → z.uncounted ≡ 0
      → length z.pushed < 2 ^ 64
      → wait_done y.sched.total_completed z.sched.total_submitted ≡ true
      → (f : Task W → ℕ)
      → (weigh f z.done ≡ weigh f z.pushed)
        × (weigh (held_by f) z.threads ≡ 0)
        × (weigh (queued f) z.sched.queues ≡ 0)
  wait_all_done nodes per w y z h r s u small d f =
      (omega (arith, v.account f, held_none, queued_none), held_none, queued_none)
    where
      vy : Inv y
      vy = Reach-Inv _ y (start-Inv nodes per w h) r

      v : Inv z
      v = Reach-Inv y z vy s

      all_done : length z.pushed ≤ length z.done
      all_done = omega (
        arith,
        wait_done-le y.sched.total_completed z.sched.total_submitted d,
        v.submitted,
        vy.completed,
        Reach-done y z s,
      )

      nothing : weigh (held_by one) z.threads + weigh (queued one) z.sched.queues ≡ 0
      nothing = omega (arith, v.account one, weigh-one z.pushed, weigh-one z.done, all_done)

      held_none : weigh (held_by f) z.threads ≡ 0
      held_none =
          weigh-zero (held_by one) (held_by f) z.threads (held-zero f) (omega (arith, nothing))

      queued_none : weigh (queued f) z.sched.queues ≡ 0
      queued_none =
          weigh-zero (queued one) (queued f) z.sched.queues (queued-zero f) (omega (arith, nothing))
