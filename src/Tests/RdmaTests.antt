-- ===== src/Tests/RdmaTests.antt =====
-- rdma_transport.cpp at concrete inputs.
use pregel.Common.{ℕ, ◌≡◌, refl, ◌++◌, List, [], ◌∷◌, true, map, arith, some}
use pregel.Types.{Message, blank_message}
use pregel.Rdma.QueuePair.{
  new_pair, post_push, post_count, net_step, drain_received, flush_done, memcpy_message,
}
use pregel.Rdma.QueuePair.Wire.{
  Trace, started, Reach, start, later, push, count, net, drain, push_step, count_step, drain_step,
  msgs, unboxed, uncompleted, completion, wire_fifo, wire_completions, flush_complete,
}
use pregel.Rdma.Transport.{RdmaTransport, new_transport, pair_to, send_batch, deliver, receive_all}
use pregel.Rdma.Transport.Batch.{Sent, send_batch-Sends}
use pregel.Rdma.Transport.Receive.{batch_returns_to_sender}
use pregel.Rdma.Transport.New.{new_transport-IsIdle}

abbrev to_vertex : ℕ → Message
to_vertex v = record blank_message { dst = v }

abbrev net_turn : Trace → Trace
net_turn t = record t { qp = net_step 9 t.qp }

-- Two writes are posted; the first is in the network thread's hands when the inbox is drained.
abbrev half_way : Trace
half_way = net_turn (
    net_turn (
      count_step
        (push_step (to_vertex 4) 8 1 (count_step (push_step (to_vertex 3) 7 0 (started 0 1))))))

Reach-half_way : Reach 0 1 half_way
unfolding push_step count_step
Reach-half_way =
    later
      (later
        (later
          (later (later (later start (push (to_vertex 3) 7 0)) (count (omega arith)))
            (push (to_vertex 4) 8 1))
          (count (omega arith)))
        (net 9))
      (net 9)

abbrev all_done : Trace
all_done = drain_step (
    net_turn
      (net_turn (net_turn (net_turn (count_step (push_step (to_vertex 3) 7 0 (started 0 1)))))))

Reach-all_done : Reach 0 1 all_done
unfolding push_step count_step
Reach-all_done =
    later
      (later
        (later
          (later
            (later (later (later start (push (to_vertex 3) 7 0)) (count (omega arith))) (net 9))
            (net 9))
          (net 9))
        (net 9))
      drain

half_way_inbox : half_way.qp.inbox ≡ to_vertex 3 ∷ []
unfolding push_step count_step post_push post_count net_step memcpy_message
half_way_inbox = refl

wire_fifo_example :
    msgs half_way.posted
    ≡ half_way.drained
      ++ (half_way.qp.inbox ++ (msgs (unboxed half_way.qp.net) ++ msgs half_way.qp.in_flight))
wire_fifo_example = wire_fifo Reach-half_way

wire_completions_example :
    map completion half_way.posted
    ≡ half_way.polled
      ++ (half_way.qp.cq ++ map completion (uncompleted half_way.qp.net ++ half_way.qp.in_flight))
wire_completions_example = wire_completions Reach-half_way

flush_complete_example :
    (all_done.qp.in_flight ≡ []) × (msgs all_done.posted ≡ all_done.drained ++ all_done.qp.inbox)
unfolding push_step count_step post_push post_count net_step memcpy_message drain_step
    drain_received flush_done
flush_complete_example = flush_complete Reach-all_done refl (omega arith) refl

abbrev link : RdmaTransport
link = new_transport 0 2

abbrev batch : List Message
batch = to_vertex 3 ∷ to_vertex 5 ∷ []

link_pair : pair_to link 1 ≡ some (new_pair 0 1)
unfolding new_transport pair_to
link_pair = refl

send_batch-Sends_example :
    ((send_batch 1 batch 6 link).1 ≡ true)
    × Sent link (new_pair 0 1) 1 batch 6 (send_batch 1 batch 6 link).0
unfolding new_transport
send_batch-Sends_example =
    send_batch-Sends link (new_pair 0 1) 1 batch 6 link_pair (omega arith) (omega arith)

batch_returns_to_sender_example : (receive_all (deliver 8 (send_batch 1 batch 6 link).0)).1 ≡ batch
unfolding new_transport
batch_returns_to_sender_example =
    batch_returns_to_sender link (new_pair 0 1) 1 batch 6 8 link_pair (omega arith) (omega arith)
      (new_transport-IsIdle 0 2) (omega arith)
