-- ===== src/Backpressure/Controller.antt =====
-- shared/messaging/backpressure.py: `BackpressureController`. The three tables of the source have the
-- same keys, since only `register_connection` and `unregister_connection` add and remove; here they
-- are one table of connections. The counts of bytes and pauses are never written.
use rg_agent_engine.Base.{
  ℕ, zero, suc, ◌+◌, Key, Bool, true, false, not, ◌&&◌, none, some, List, [], ◌∷◌, ◌++◌, ◌==◌, ltb,
  leb, if◌then◌else◌,
}
use rg_agent_engine.Base.Lists.{length}
use rg_agent_engine.Base.Dict.{Dict, get, put, pop}
use rg_agent_engine.Backpressure.Flow.{FlowControl, new_flow, is_flowing, increment, decrement}

pub record FlowMetrics : Type 0 where
  pub messages_sent : ℕ
  pub messages_dropped : ℕ
  pub current_queue_size : ℕ
  pub max_queue_size : ℕ

pub record Connection : Type 0 where
  pub flow : FlowControl
  pub queue : List Key
  pub metrics : FlowMetrics

-- "tail" drops the new message and "head" the oldest. Any other text, "random" included, drops by
-- the exception of the full queue.
pub data DropPolicy : Type 0 where
  tail head random : DropPolicy

pub record BackpressureController : Type 0 where
  pub max_queue_size : ℕ
  pub high_water_mark : ℕ
  pub low_water_mark : ℕ
  pub drop_policy : DropPolicy
  pub connections : Dict Connection

unfoldable pub new_controller : ℕ → ℕ → ℕ → DropPolicy → BackpressureController
new_controller size high low policy = record {
  max_queue_size = size;
  high_water_mark = high;
  low_water_mark = low;
  drop_policy = policy;
  connections = [];
}

unfoldable pub new_connection : BackpressureController → Connection
new_connection c = record {
  flow = new_flow c.high_water_mark c.low_water_mark;
  queue = [];
  metrics = record {
    messages_sent = 0;
    messages_dropped = 0;
    current_queue_size = 0;
    max_queue_size = 0;
  };
}

-- `register_connection` and `unregister_connection`
unfoldable pub register_connection : Key → BackpressureController → BackpressureController
register_connection id c = record c { connections = put id (new_connection c) c.connections }

unfoldable pub unregister_connection : Key → BackpressureController → BackpressureController
unregister_connection id c = record c { connections = pop id c.connections }

abbrev pub count_dropped : Connection → Connection
count_dropped x = record x {
  metrics = record x.metrics { messages_dropped = x.metrics.messages_dropped + 1 };
}

abbrev pub count_sent : Connection → Connection
count_sent x = record x {
  metrics = record x.metrics { messages_sent = x.metrics.messages_sent + 1 };
}

abbrev pub set_flow : (FlowControl → FlowControl) → Connection → Connection
set_flow f x = record x { flow = f x.flow }

-- How the function that sends a message ends.
pub data Outcome : Type 0 where
  delivered refused raised : Outcome

-- `send` past the flow check
abbrev pub send_now : Outcome → Connection → Bool × Connection
send_now delivered x = (true, set_flow (decrement 1) (count_sent (set_flow (increment 1) x)))
send_now refused x = (false, set_flow (decrement 1) (count_dropped (set_flow (increment 1) x)))
send_now raised x = (false, count_dropped (set_flow (decrement 1) (set_flow (increment 1) x)))

-- `send`, where `drained` says whether a wait ended before its time-out
unfoldable pub send_on : Bool → Outcome → Connection → Bool × Connection
send_on drained outcome x =
    if not (is_flowing x.flow) && not drained then (false, count_dropped x) else send_now outcome x

-- `queue.full()`: a queue of size 0 has no bound
abbrev pub is_full : ℕ → List Key → Bool
is_full size queue = not (size == 0) && leb size (length queue)

-- `queue.put_nowait` with what follows it
unfoldable pub put_message : ℕ → Key → Connection → Bool × Connection
put_message size message x =
    if is_full size x.queue
    then (false, count_dropped x)
    else let queue = x.queue ++ message ∷ [] in
      (
        true,
        record x {
          queue = queue;
          metrics = record x.metrics {
            current_queue_size = length queue;
            max_queue_size =
                if ltb x.metrics.max_queue_size (length queue)
                then length queue
                else x.metrics.max_queue_size;
          };
        },
      )

-- `queue.get_nowait` for the policy "head"
abbrev pub drop_oldest : Connection → Connection
drop_oldest x = elim x.queue [ [] ↦ x | m ∷ rest ↦ count_dropped (record x { queue = rest }) ]

-- `queue_message` on a connection
unfoldable pub queue_on : ℕ → DropPolicy → Key → Connection → Bool × Connection
queue_on size policy message x =
    if is_full size x.queue
    then elim policy [
      | tail ↦ (false, count_dropped x)
      | head ↦ put_message size message (drop_oldest x)
      | random ↦ put_message size message x
    ]
    else put_message size message x

-- How many messages were sent, the messages that the sender was given, and the connection.
abbrev pub Drained : Type 0
Drained = (ℕ × List Key) × Connection

-- What follows the sender's answer, given the rounds that are left.
unfoldable pub after_send :
    (Connection → Drained) → ℕ → DropPolicy → Key → Outcome → Connection → Drained
after_send rec size policy m delivered z =
    let (r, last) = rec (count_sent z) in ((r.0 + 1, m ∷ r.1), last)
after_send rec size policy m refused z = ((0, m ∷ []), (queue_on size policy m z).1)
after_send rec size policy m raised z = ((0, m ∷ []), z)

-- A round of the loop of `drain_queue`, where the flow runs.
unfoldable pub drain_one :
    (Connection → Drained) → ℕ → DropPolicy → (Key → Outcome) → List Key → Connection → Drained
drain_one rec size policy sender [] x = ((0, []), x)
drain_one rec size policy sender (m ∷ rest) x =
    after_send rec size policy m (sender m)
      (set_flow (decrement 1) (set_flow (increment 1) (record x { queue = rest })))

-- The loop of `drain_queue`.
unfoldable pub drain_loop : ℕ → ℕ → DropPolicy → (Key → Outcome) → Connection → Drained
drain_loop zero size policy sender x = ((0, []), x)
drain_loop (suc rounds) size policy sender x = elim (is_flowing x.flow) [
  | true ↦ drain_one (drain_loop rounds size policy sender) size policy sender x.queue x
  | false ↦ ((0, []), x)
]

-- `drain_queue` on a connection
unfoldable pub drain_on : ℕ → ℕ → DropPolicy → (Key → Outcome) → Connection → Drained
drain_on batch size policy sender x =
    let (r, y) = drain_loop batch size policy sender x in
    (r, record y { metrics = record y.metrics { current_queue_size = length y.queue } })

-- A method on a connection that is registered, and its result where there is none.
unfoldable pub on_connection :
    {A : Type 0}
    → Key
    → A
    → (Connection → A × Connection)
    → BackpressureController
    → A × BackpressureController
on_connection id missing f c = elim (get id c.connections) [
  | none ↦ (missing, c)
  | some x ↦ let (r, y) = f x in (r, record c { connections = put id y c.connections })
]

unfoldable pub send : Key → Bool → Outcome → BackpressureController → Bool × BackpressureController
send id drained outcome c = on_connection id false (send_on drained outcome) c

unfoldable pub queue_message : Key → Key → BackpressureController → Bool × BackpressureController
queue_message id message c =
    on_connection id false (queue_on c.max_queue_size c.drop_policy message) c

unfoldable pub drain_queue :
    Key → (Key → Outcome) → ℕ → BackpressureController → (ℕ × List Key) × BackpressureController
drain_queue id sender batch c =
    on_connection id (0, []) (drain_on batch c.max_queue_size c.drop_policy sender) c
