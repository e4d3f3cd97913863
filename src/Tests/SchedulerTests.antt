-- ===== src/Tests/SchedulerTests.antt =====
-- numa_scheduler.cpp at concrete inputs.
use pregel.Common.{ℕ, ◌+◌, ◌<◌, ◌≡◌, refl, [], ◌∷◌, true, length, weigh, arith}
use pregel.Scheduler.{
  Task, LatencyRecord, NumaScheduler, new_scheduler, push_task, count_submitted, wait_done,
  queue_of, is_spike, release, count_completed,
}
use pregel.Scheduler.Threads.{
  System, start, push_step, count_step, work, thread_of, here, later, push, count, work_on,
  pop_from, threads_of,
}
use pregel.Scheduler.Threads.Moves.{held_by, queued, IsLoad}
use pregel.Scheduler.Threads.Accounts.{Runs, tasks_conserved, active_tasks-IsLoad}
use pregel.Scheduler.Threads.Waiting.{wait_all_done}

-- A task that adds `k` to a number.
abbrev add_task : ℕ → Task ℕ
add_task k = record {
  task_id = k;
  preferred_numa_node = 3;
  fn = λ w. w + k;
  expected_duration = 50;
}

abbrev idle : System ℕ
idle = start (new_scheduler 1 1) 0

abbrev submitted : System ℕ
submitted = count_step (push_step (add_task 4) idle)

-- One step of the only thread.
abbrev turn : System ℕ → System ℕ
turn y = work 0 (thread_of y 0).node 7 (thread_of y 0).pc y

abbrev taken : System ℕ
taken = turn (turn submitted)

abbrev finished : System ℕ
finished = turn (turn (turn (turn taken)))

submitted-Runs : Runs 1 1 0 submitted
unfolding push_step
submitted-Runs = later (later here (push (add_task 4))) (count (omega arith))

taken-Runs : Runs 1 1 0 taken
taken-Runs = later (later submitted-Runs (work_on 0 7)) (work_on 0 7)

finished-Runs : Runs 1 1 0 finished
finished-Runs =
    later (later (later (later taken-Runs (work_on 0 7)) (work_on 0 7)) (work_on 0 7)) (work_on 0 7)

finished-done :
    (wait_done finished.sched.total_completed finished.sched.total_submitted ≡ true)
    × (finished.uncounted ≡ 0)
    × (length finished.pushed ≡ 1)
    × (finished.world ≡ 4)
unfolding work push_step count_step push_task count_submitted start new_scheduler threads_of
    pop_from is_spike release count_completed wait_done
finished-done = (refl, refl, refl, refl)

tasks_conserved_example :
    weigh (λ t. t.task_id) taken.pushed
    ≡ weigh (λ t. t.task_id) taken.done
      + (weigh (held_by (λ t. t.task_id)) taken.threads
          + weigh (queued (λ t. t.task_id)) taken.sched.queues)
tasks_conserved_example = tasks_conserved 1 1 0 taken (λ t. t.task_id) (omega arith) taken-Runs

taken-node : 0 < taken.sched.numa_nodes
unfolding work push_step count_step push_task count_submitted start new_scheduler threads_of
    pop_from
taken-node = omega arith

active_tasks-IsLoad_example : IsLoad 0 (queue_of 0 taken.sched) taken.threads
active_tasks-IsLoad_example = active_tasks-IsLoad 1 1 0 taken 0 (omega arith) taken-Runs taken-node

wait_all_done_example :
    (weigh (λ t. t.task_id) finished.done ≡ weigh (λ t. t.task_id) finished.pushed)
    × (weigh (held_by (λ t. t.task_id)) finished.threads ≡ 0)
    × (weigh (queued (λ t. t.task_id)) finished.sched.queues ≡ 0)
wait_all_done_example =
    wait_all_done 1 1 0 finished finished (omega arith) finished-Runs here finished-done.1
      (omega (arith, finished-done.2)) finished-done.0 (λ t. t.task_id)

-- A second submitter has pushed task 9 and not counted it, which is completed: `wait_all` of the first
-- submitter, whose task 4 is pushed and counted, returns although that task is still queued.
abbrev both_pushed : System ℕ
both_pushed = count_step (push_step (add_task 4) (push_step (add_task 9) idle))

abbrev hidden : System ℕ
hidden = turn (turn (turn (turn (turn (turn both_pushed)))))

early_wait :
    (wait_done hidden.sched.total_completed hidden.sched.total_submitted ≡ true)
    × ((queue_of 0 hidden.sched).tasks ≡ add_task 4 ∷ [])
unfolding work push_step count_step push_task count_submitted start new_scheduler threads_of
    pop_from is_spike release count_completed wait_done
early_wait = (refl, refl)

abbrev two_nodes : NumaScheduler ℕ
two_nodes = push_task (record (add_task 1) { preferred_numa_node = 0 }) (new_scheduler 2 1)

two_nodes-size : length two_nodes.queues ≡ 2
unfolding push_task new_scheduler
two_nodes-size = refl

abbrev spike : ℕ → LatencyRecord
spike k = record { task_id = k; numa_node = 0; actual = 900; expected = 50; is_spike = true }

abbrev quiet : NumaScheduler ℕ
quiet = new_scheduler 1 1
