-- ===== src/Backpressure/Bounds.antt =====
-- shared/messaging/backpressure.py: how long the queues grow.
use rg_agent_engine.Base.{
  ℕ, zero, suc, ◌≤◌, ◌<◌, ◌≡◌, refl, inl, inr, Key, Bool, false, none, some, List, [], ◌∷◌, arith,
  Bool-cases, Option-cases,
}
use rg_agent_engine.Base.Lists.{length, length-append}
use rg_agent_engine.Base.Dict.{get, put, get-put_inv, get-pop, get-nil}
use rg_agent_engine.Backpressure.Flow.{is_flowing}
use rg_agent_engine.Backpressure.Controller.{
  Connection, DropPolicy, BackpressureController, new_controller, new_connection,
  register_connection, unregister_connection, Outcome, delivered, refused, raised, send_on,
  put_message, drop_oldest, queue_on, Drained, after_send, drain_one, drain_loop, drain_on,
  on_connection, send, queue_message, drain_queue, count_sent,
}

-- The queue is within its size, which is positive, and so is the longest that it has been.
pub record Fits (size : ℕ) (x : Connection) : Type 0 where
  pub queued : length x.queue ≤ size
  pub longest : x.metrics.max_queue_size ≤ size

put_message-Fits :
    (size : ℕ) (m : Key) (x : Connection)
    → 0 < size
    → Fits size x
    → Fits size (put_message size m x).1
unfolding put_message
put_message-Fits size m x p f = ground (arith, length-append x.queue (m ∷ []))

queue_on-Fits :
    (size : ℕ) (policy : DropPolicy) (m : Key) (x : Connection)
    → 0 < size
    → Fits size x
    → Fits size (queue_on size policy m x).1
unfolding queue_on
queue_on-Fits size policy m x p f =
    ground (arith, put_message-Fits size m x p f, put_message-Fits size m (drop_oldest x) p)

after_send-Fits :
    (rec : Connection → Drained) (size : ℕ) (policy : DropPolicy) (m : Key) (o : Outcome)
    (z : Connection)
    → ((x : Connection) → Fits size x → Fits size (rec x).1)
    → 0 < size
    → Fits size z
    → Fits size (after_send rec size policy m o z).1
unfolding after_send
after_send-Fits rec size policy m delivered z h p f =
    h (count_sent z) (record { queued = f.queued; longest = f.longest })
after_send-Fits rec size policy m refused z h p f = queue_on-Fits size policy m z p f
after_send-Fits rec size policy m raised z h p f = f

drain_one-Fits :
    (rec : Connection → Drained) (size : ℕ) (policy : DropPolicy) (sender : Key → Outcome)
    (queue : List Key) (x : Connection)
    → ((x : Connection) → Fits size x → Fits size (rec x).1)
    → 0 < size
    → length queue ≤ size
    → Fits size x
    → Fits size (drain_one rec size policy sender queue x).1
unfolding drain_one
drain_one-Fits rec size policy sender [] x h p q f = f
drain_one-Fits rec size policy sender (m ∷ rest) x h p q f =
    after_send-Fits rec size policy m (sender m) _ h p
      (record { queued = omega (arith, q); longest = f.longest })

drain_loop-Fits :
    (rounds size : ℕ) (policy : DropPolicy) (sender : Key → Outcome) (x : Connection)
    → 0 < size
    → Fits size x
    → Fits size (drain_loop rounds size policy sender x).1
unfolding drain_loop
drain_loop-Fits zero size policy sender x p f = f
drain_loop-Fits (suc rounds) size policy sender x p f = elim (Bool-cases (is_flowing x.flow)) [
  | inl on ↦
      rw (on, drain_loop)
        (drain_one-Fits (drain_loop rounds size policy sender) size policy sender x.queue x
          (λ y. drain_loop-Fits rounds size policy sender y p) p f.queued f)
  | inr off ↦ rw (off, drain_loop) f
]

send_on-Fits :
    (size : ℕ) (drained : Bool) (outcome : Outcome) (x : Connection)
    → Fits size x
    → Fits size (send_on drained outcome x).1
unfolding send_on
send_on-Fits size drained outcome x f = ground arith

-- The connections of the controller fit its queue size.
pub record AllFit (size : ℕ) (c : BackpressureController) : Type 0 where
  pub sized : c.max_queue_size ≡ size
  pub each : (id : Key) (x : Connection) → get id c.connections ≡ some x → Fits size x

put-AllFit :
    (size : ℕ) (id : Key) (x : Connection) (c : BackpressureController)
    → AllFit size c
    → Fits size x
    → AllFit size (record c { connections = put id x c.connections })
put-AllFit size id x c h f = record {
  sized = h.sized;
  each = λ k y g. elim (get-put_inv id k x c.connections g) [
    | inl (same, is) ↦ rw (← is) f
    | inr (other, old) ↦ h.each k y old
  ];
}

module _ {A : Type 0} (id : Key) (missing : A) (f : Connection → A × Connection)
    (c : BackpressureController) where
  on_connection_missing : get id c.connections ≡ none → (on_connection id missing f c).1 ≡ c
  unfolding on_connection
  on_connection_missing e = ground arith

  on_connection_found :
      (x : Connection)
      → get id c.connections ≡ some x
      → (on_connection id missing f c).1 ≡ record c { connections = put id (f x).1 c.connections }
  unfolding on_connection
  on_connection_found x e = ground arith

  on_connection-AllFit :
      (size : ℕ)
      → ((x : Connection) → Fits size x → Fits size (f x).1)
      → AllFit size c
      → AllFit size (on_connection id missing f c).1
  on_connection-AllFit size fits h = elim (Option-cases (get id c.connections)) [
    | inl e ↦ rw (on_connection_missing e) h
    | inr (x, e) ↦
        rw (on_connection_found x e) (put-AllFit size id (f x).1 c h (fits x (h.each id x e)))
  ]

-- A call on the controller.
pub data Call : Type 0 where
  registers : Key → Call
  unregisters : Key → Call
  sends : Key → Bool → Outcome → Call
  queues : Key → Key → Call
  drains : Key → (Key → Outcome) → ℕ → Call

unfoldable pub run : List Call → BackpressureController → BackpressureController
run [] c = c
run (registers id ∷ calls) c = run calls (register_connection id c)
run (unregisters id ∷ calls) c = run calls (unregister_connection id c)
run (sends id drained outcome ∷ calls) c = run calls (send id drained outcome c).1
run (queues id m ∷ calls) c = run calls (queue_message id m c).1
run (drains id sender batch ∷ calls) c = run calls (drain_queue id sender batch c).1

drain_on-Fits :
    (batch size : ℕ) (policy : DropPolicy) (sender : Key → Outcome) (x : Connection)
    → 0 < size
    → Fits size x
    → Fits size (drain_on batch size policy sender x).1
unfolding drain_on
drain_on-Fits batch size policy sender x p f =
    let g = drain_loop-Fits batch size policy sender x p f in
    record { queued = g.queued; longest = g.longest }

run-AllFit :
    (size : ℕ) (calls : List Call) (c : BackpressureController)
    → 0 < size
    → AllFit size c
    → AllFit size (run calls c)
unfolding run
run-AllFit size [] c p h = h
run-AllFit size (registers id ∷ calls) c p h = run-AllFit size calls _ p (
    unfold register_connection new_connection in
    put-AllFit size id _ c h (record { queued = omega arith; longest = omega arith }))
run-AllFit size (unregisters id ∷ calls) c p h = run-AllFit size calls _ p (
    unfold unregister_connection in
    record {
      sized = h.sized;
      each = λ k y g. h.each k y (ground (arith, get-pop id k c.connections));
    })
run-AllFit size (sends id drained outcome ∷ calls) c p h =
    run-AllFit size calls _ p
      (unfold send in on_connection-AllFit id false _ c size (send_on-Fits size drained outcome) h)
run-AllFit size (queues id m ∷ calls) c p h = run-AllFit size calls _ p (
    unfold queue_message in
    on_connection-AllFit id false _ c size
      (λ x f. rw h.sized (queue_on-Fits size c.drop_policy m x p f)) h)
run-AllFit size (drains id sender batch ∷ calls) c p h = run-AllFit size calls _ p (
    unfold drain_queue in
    on_connection-AllFit id (0, []) _ c size
      (λ x f. rw h.sized (drain_on-Fits batch size c.drop_policy sender x p f)) h)

-- Under any calls on a new controller with a positive queue size, no queue is ever longer than that
-- size, nor is the longest length that its metrics have.
pub queues_bound :
    (size high low : ℕ) (policy : DropPolicy) (calls : List Call) (id : Key) (x : Connection)
    → 0 < size
    → get id (run calls (new_controller size high low policy)).connections ≡ some x
    → (length x.queue ≤ size) × (x.metrics.max_queue_size ≤ size)
unfolding new_controller
queues_bound size high low policy calls id x p g =
    let start : AllFit size (new_controller size high low policy) = record {
      sized = refl;
      each = λ k y e. get-nil k e;
    } in
    let fits = (run-AllFit size calls _ p start).each id x g in (fits.queued, fits.longest)
