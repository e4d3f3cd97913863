-- ===== src/Scheduler/Threads.antt =====
-- numa_scheduler.cpp, `start`, `stop` and `worker_thread`: the threads of a scheduler, one access of the
-- shared state in each step.
pub mod Moves
pub mod Accounts
pub mod Waiting
pub mod Ran
pub mod Quiet
use pregel.Common.{
  ℕ, suc, zero, ◌+◌, ◌-◌, List, [], ◌∷◌, ◌++◌, Bool, true, false, if◌then◌else◌, get_or, set,
  replicate, length, ◌<◌, tail,
}
use pregel.Scheduler.{
  Task, NumaScheduler, NumaQueue, queue_of, with_queue, push_task, count_submitted, is_spike,
  latency_of, count_spike, record_spike, release, count_completed,
}

-- Where a thread stands in `worker_thread`, with its task and the measured duration.
pub data Pc (W : Type 0) : Type 0 where
  checking : Pc W
  looking : Pc W
  holding : Task W → Pc W
  timed : Task W → ℕ → Pc W
  counted : Task W → ℕ → Pc W
  finished : Task W → Pc W
  released : Task W → Pc W
  exited : Pc W

pub record Thread (W : Type 0) : Type 0 where
  pub node : ℕ
  pub pc : Pc W

-- The scheduler with its threads, the shared state of the tasks, and what has happened: the tasks
-- pushed, the number of those not yet counted by `submit`, and the tasks completed.
pub record System (W : Type 0) : Type 0 where
  pub sched : NumaScheduler W
  pub threads : List (Thread W)
  pub world : W
  pub pushed : List (Task W)
  pub uncounted : ℕ
  pub done : List (Task W)

module _ {W : Type 0} where
  -- The loops of `start`.
  unfoldable pub threads_of : ℕ → ℕ → ℕ → List (Thread W)
  threads_of node zero per_node = []
  threads_of node (suc more) per_node =
      replicate per_node (record { node = node; pc = checking })
      ++ threads_of (suc node) more per_node

  unfoldable pub start : NumaScheduler W → W → System W
  start s w = record {
    sched = record s { running = true };
    threads = threads_of 0 s.numa_nodes s.threads_per_node;
    world = w;
    pushed = [];
    uncounted = 0;
    done = [];
  }

  -- `stop`: the flag; the threads leave by themselves and are joined.
  unfoldable pub stop_running : System W → System W
  stop_running y = record y { sched = record y.sched { running = false } }

  -- The block of `worker_thread` under the lock, once the wait is over, with the tasks of the queue.
  unfoldable pub pop_from : ℕ → List (Task W) → NumaScheduler W → NumaScheduler W × Pc W
  pop_from node [] s = (s, checking)
  pop_from node (t ∷ ts) s =
      (with_queue node (record (queue_of node s) { tasks = ts }) s, holding t)

  abbrev pub pop_task : ℕ → NumaScheduler W → NumaScheduler W × Pc W
  pop_task node s = pop_from node (queue_of node s).tasks s

  abbrev pub no_thread : Thread W
  no_thread = record { node = 0; pc = exited }

  abbrev pub at : ℕ → Pc W → System W → List (Thread W)
  at i pc y = set y.threads i (record (get_or y.threads i no_thread) { pc = pc })

  -- One step of thread `i` of the node `node`; `us` is the duration that it measures.
  unfoldable pub work : ℕ → ℕ → ℕ → Pc W → System W → System W
  work i node us checking y = record y {
    threads = at i (if y.sched.running then looking else exited) y;
  }
  work i node us looking y =
      let (s, pc) = pop_task node y.sched in record y { sched = s; threads = at i pc y }
  work i node us (holding t) y = record y { world = t.fn y.world; threads = at i (timed t us) y }
  work i node us (timed t actual) y =
      if is_spike actual t
      then record y { sched = count_spike y.sched; threads = at i (counted t actual) y }
      else record y { threads = at i (finished t) y }
  work i node us (counted t actual) y = record y {
    sched = record_spike (latency_of node actual t) y.sched;
    threads = at i (finished t) y;
  }
  work i node us (finished t) y = record y {
    sched = release node y.sched;
    threads = at i (released t) y;
  }
  work i node us (released t) y = record y {
    sched = count_completed y.sched;
    threads = at i checking y;
    done = y.done ++ t ∷ [];
  }
  work i node us exited y = y

  abbrev pub thread_of : System W → ℕ → Thread W
  thread_of y i = get_or y.threads i no_thread

  -- The two accesses of `submit`.
  unfoldable pub push_step : Task W → System W → System W
  push_step t y = record y {
    sched = push_task t y.sched;
    pushed = y.pushed ++ t ∷ [];
    uncounted = suc y.uncounted;
  }

  unfoldable pub count_step : System W → System W
  count_step y = record y { sched = count_submitted y.sched; uncounted = y.uncounted - 1 }

  pub data Step (y : System W) : System W → Type 0 where
    work_on : (i us : ℕ) → Step y (work i (thread_of y i).node us (thread_of y i).pc y)
    push : (t : Task W) → Step y (push_step t y)
    count : 0 < y.uncounted → Step y (count_step y)
    stop : Step y (stop_running y)

  pub data Reach (y : System W) : System W → Type 0 where
    here : Reach y y
    later : {z z' : System W} → Reach y z → Step z z' → Reach y z'
