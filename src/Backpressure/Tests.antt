-- ===== src/Backpressure/Tests.antt =====
-- shared/messaging/backpressure.py: a connection with a queue of two messages.
use rg_agent_engine.Base.{
  ◌≤◌, ◌≡◌, refl, Key, false, some, List, [], ◌∷◌, arith, ◌==◌, if◌then◌else◌,
}
use rg_agent_engine.Base.Lists.{length}
use rg_agent_engine.Base.Dict.{get, put}
use rg_agent_engine.Backpressure.Flow.{new_flow, increment, decrement, up, down, run_counts}
use rg_agent_engine.Backpressure.Controller.{
  Connection, head, new_controller, new_connection, register_connection, queue_message, queue_on,
  put_message, Outcome, delivered, refused, drain_on, drain_loop, drain_one, after_send,
  on_connection,
}
use rg_agent_engine.Backpressure.Bounds.{Call, registers, queues, run, queues_bound}
use rg_agent_engine.Backpressure.Drained.{IsDrained}
use rg_agent_engine.Backpressure.Drain.{drain_on-IsDrained}

abbrev calls : List Call
calls = registers 5 ∷ queues 5 11 ∷ queues 5 12 ∷ queues 5 13 ∷ []

connection : Connection
connection = record {
  flow = new_flow 100 25;
  queue = 12 ∷ 13 ∷ [];
  metrics = record {
    messages_sent = 0;
    messages_dropped = 1;
    current_queue_size = 2;
    max_queue_size = 2;
  };
}

-- The oldest message makes room for the third.
connected : get 5 (run calls (new_controller 2 100 25 head)).connections ≡ some connection
unfolding run new_controller register_connection new_connection queue_message queue_on put_message
    on_connection get put connection
connected = refl

queues_bound_example : (length connection.queue ≤ 2) × (connection.metrics.max_queue_size ≤ 2)
queues_bound_example = queues_bound 2 100 25 head calls 5 connection (omega arith) connected

paused_between : (run_counts (up 3 ∷ up 1 ∷ down 2 ∷ []) (new_flow 4 1)).is_set ≡ false
unfolding run_counts new_flow increment decrement
paused_between = refl

-- The sender delivers 12 and refuses all other messages.
sender : Key → Outcome
sender m = if m == 12 then delivered else refused

refused_last : (drain_on 10 2 head sender connection).1.queue ≡ 13 ∷ []
unfolding drain_on drain_loop drain_one after_send queue_on put_message sender connection new_flow
    increment decrement
refused_last = refl

room : length connection.queue ≤ 2
unfolding connection
room = omega arith

drain_on-IsDrained_example :
    IsDrained 10 sender connection.queue connection.flow (drain_on 10 2 head sender connection)
drain_on-IsDrained_example = drain_on-IsDrained 10 2 head sender connection room
