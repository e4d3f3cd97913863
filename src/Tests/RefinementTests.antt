-- ===== src/Tests/RefinementTests.antt =====
-- A superstep of a worker on the threads of a scheduler, at a concrete run.
use pregel.Common.{ℕ, ◌≡◌, refl, List, [], ◌∷◌, ◌++◌, length, true, arith, keys, weigh}
use pregel.Types.{default_config}
use pregel.Worker.{
  VertexClass, WorkerNode, new_worker, compute_phase, dispatch_messages, deliver, wake, task_of,
}
use pregel.Worker.Inboxes.{IsOrder, NoDup}
use pregel.Worker.Refinement.{dispatched, submitted, compute_phase-refined}
use pregel.Scheduler.{
  Task, new_scheduler, push_task, count_submitted, wait_done, is_spike, release, count_completed,
}
use pregel.Scheduler.Threads.{
  System, start, push_step, count_step, work, thread_of, here, later, push, count, work_on, Reach,
  pop_from, threads_of,
}
use pregel.Scheduler.Threads.Ran.{IsQuiet}
use pregel.OrderBook.GraphVertex.{GraphVertex, venue_vertex, graph_class}
use pregel.Tests.OrderBookTests.{one_venue, count_draw}

abbrev graph : VertexClass (GraphVertex ℕ)
graph = graph_class count_draw

-- A worker with the venue 1.
abbrev owner : WorkerNode (GraphVertex ℕ)
owner = record (new_worker 1 default_config) { vertices = (1, venue_vertex one_venue) ∷ [] }

abbrev before : System (WorkerNode (GraphVertex ℕ))
before = start (new_scheduler 1 1) (dispatched graph 0 [] owner)

abbrev task : Task (WorkerNode (GraphVertex ℕ))
task = task_of graph 0 1 (dispatch_messages [] owner)

abbrev turn : System (WorkerNode (GraphVertex ℕ)) → System (WorkerNode (GraphVertex ℕ))
turn y = work 0 (thread_of y 0).node 7 (thread_of y 0).pc y

abbrev sent : System (WorkerNode (GraphVertex ℕ))
sent = count_step (push_step task before)

abbrev after : System (WorkerNode (GraphVertex ℕ))
after = turn (turn (turn (turn (turn (turn sent)))))

before-IsQuiet : IsQuiet before
unfolding start threads_of new_scheduler weigh
before-IsQuiet = record { held = λ f. refl; queued = λ f. refl }

after-Reach : Reach before after
unfolding push_step
after-Reach =
    later
      (later
        (later
          (later
            (later (later (later (later here (push task)) (count (omega arith))) (work_on 0 7))
              (work_on 0 7))
            (work_on 0 7))
          (work_on 0 7))
        (work_on 0 7))
      (work_on 0 7)

owner-NoDup : NoDup (keys owner.vertices)
unfolding new_worker
owner-NoDup = (refl, tt)

after-done :
    (wait_done after.sched.total_completed after.sched.total_submitted ≡ true)
    × (after.uncounted ≡ 0)
    × (after.pushed ≡ before.pushed ++ submitted graph 0 [] owner)
    × (length after.pushed ≡ 1)
unfolding work push_step count_step push_task count_submitted start new_scheduler threads_of
    pop_from is_spike release count_completed wait_done dispatch_messages deliver wake task_of
    new_worker
after-done = (refl, refl, refl, refl)

compute_phase-refined_example :
    (order : List ℕ → List ℕ) × IsOrder order
    × (after.world ≡ compute_phase graph order 0 [] owner)
    × IsQuiet after
unfolding start
compute_phase-refined_example =
    compute_phase-refined graph 0 1 1 (dispatched graph 0 [] owner) before after after [] owner
      (omega arith) here before-IsQuiet refl owner-NoDup after-Reach here after-done.1 after-done.2
      (omega (arith, after-done.3)) after-done.0
