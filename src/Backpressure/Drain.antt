-- ===== src/Backpressure/Drain.antt =====
-- shared/messaging/backpressure.py: what `drain_queue` does with the messages of a queue.
use mathlib.Core.List.{append-nil}
use rg_agent_engine.Base.{
  ℕ, zero, suc, ◌≤◌, ◌<◌, ◌≡◌, ◌⊎◌, ◌+◌, subst, refl, inl, inr, Key, true, false, List, [], ◌∷◌,
  ◌++◌, arith, ap, sym, ◌∙◌, Bool-cases,
}
use rg_agent_engine.Base.Lists.{length}
use rg_agent_engine.Backpressure.Flow.{FlowControl, is_flowing, increment, decrement}
use rg_agent_engine.Backpressure.Controller.{
  Connection, DropPolicy, Outcome, delivered, refused, raised, is_full, put_message, queue_on,
  Drained, after_send, drain_one, drain_loop, drain_on, count_sent,
}
use rg_agent_engine.Backpressure.Drained.{put_back, all_but_last, last_lost, IsDrained}

-- A queue with room takes the message at its end.
queue_on-room :
    (size : ℕ) (policy : DropPolicy) (m : Key) (z : Connection)
    → is_full size z.queue ≡ false
    → (queue_on size policy m z).1.queue ≡ z.queue ++ m ∷ []
unfolding queue_on put_message
queue_on-room size policy m z h = ground arith

put_back_delivered :
    (sender : Key → Outcome) (m : Key) (given : List Key)
    → sender m ≡ delivered
    → put_back sender (m ∷ given) ≡ put_back sender given
put_back_delivered sender m [] e = rw (e, put_back) refl
put_back_delivered sender m (n ∷ given) e = refl

queue_on-flow :
    (size : ℕ) (policy : DropPolicy) (m : Key) (z : Connection)
    → is_full size z.queue ≡ false
    → (queue_on size policy m z).1.flow ≡ z.flow
unfolding queue_on put_message
queue_on-flow size policy m z h = ground arith

-- A message that is delivered goes before those that are given after it.
delivered-IsDrained :
    (batch : ℕ) (sender : Key → Outcome) (m : Key) (queue : List Key) (flow : FlowControl)
    (d : Drained)
    → sender m ≡ delivered
    → is_flowing flow ≡ true
    → IsDrained batch sender queue (decrement 1 (increment 1 flow)) d
    → IsDrained (suc batch) sender (m ∷ queue) flow ((d.0.0 + 1, m ∷ d.0.1), d.1)
delivered-IsDrained batch sender m queue flow ((sent, given), y) e on h = record {
  rest = h.rest;
  split = ap (λ (l : List Key). m ∷ l) h.split;
  left = h.left ∙ ap (λ (l : List Key). h.rest ++ l) (sym (put_back_delivered sender m given e));
  sent = ground (arith, h.sent);
  flow_then = h.flow_then;
  within = omega (arith, h.within);
  running = rw on h.running;
  going = going_on given h.going;
  stopped = elim h.stopped [
    | inl full ↦ inl (ap suc full)
    | inr (inl empty) ↦ inr (inl empty)
    | inr (inr (inl paused)) ↦ inr (inr (inl paused))
    | inr (inr (inr lost)) ↦ inr (inr (inr (still_lost given lost)))
  ];
}
  where
    going_on : (l : List Key) → all_but_last sender l ≡ true → all_but_last sender (m ∷ l) ≡ true
    going_on [] g = refl
    going_on (n ∷ l) g = rw (e, all_but_last) g

    still_lost : (l : List Key) → last_lost sender l ≡ true → last_lost sender (m ∷ l) ≡ true
    still_lost [] g = cc
    still_lost (n ∷ l) g = g

-- One that is not delivered is the last.
lost-IsDrained :
    (batch : ℕ) (sender : Key → Outcome) (m : Key) (queue : List Key) (flow : FlowControl)
    (y : Connection)
    → is_flowing flow ≡ true
    → last_lost sender (m ∷ []) ≡ true
    → y.queue ≡ queue ++ put_back sender (m ∷ [])
    → y.flow ≡ decrement 1 (increment 1 flow)
    → IsDrained (suc batch) sender (m ∷ queue) flow ((0, m ∷ []), y)
lost-IsDrained batch sender m queue flow y on lost left then_flow = record {
  rest = queue;
  split = refl;
  left = left;
  sent = ground arith;
  flow_then = then_flow;
  within = omega arith;
  running = rw on refl;
  going = refl;
  stopped = inr (inr (inr lost));
}

after_send-IsDrained :
    (rec : Connection → Drained) (batch size : ℕ) (policy : DropPolicy) (sender : Key → Outcome)
    (m : Key) (o : Outcome) (flow : FlowControl) (z : Connection)
    → sender m ≡ o
    → is_flowing flow ≡ true
    → z.flow ≡ decrement 1 (increment 1 flow)
    → ((x : Connection) → length x.queue ≤ size → IsDrained batch sender x.queue x.flow (rec x))
    → length z.queue < size
    → IsDrained (suc batch) sender (m ∷ z.queue) flow (after_send rec size policy m o z)
unfolding after_send
after_send-IsDrained rec batch size policy sender m delivered flow z e on f h p =
    delivered-IsDrained batch sender m z.queue flow (rec (count_sent z)) e on (
      subst (λ (g : FlowControl). IsDrained batch sender z.queue g (rec (count_sent z))) f
        (h (count_sent z) (omega (arith, p))))
after_send-IsDrained rec batch size policy sender m refused flow z e on f h p =
    lost-IsDrained batch sender m z.queue flow _ on (ground arith)
      (queue_on-room size policy m z (ground arith)
        ∙ ap (λ (l : List Key). z.queue ++ l) (sym (put_back_refused e)))
      (queue_on-flow size policy m z (ground arith) ∙ f)
  where
    put_back_refused : sender m ≡ refused → put_back sender (m ∷ []) ≡ m ∷ []
    put_back_refused e = ground arith
after_send-IsDrained rec batch size policy sender m raised flow z e on f h p =
    lost-IsDrained batch sender m z.queue flow z on (ground arith)
      (sym (append-nil z.queue) ∙ ap (λ (l : List Key). z.queue ++ l) (sym (put_back_raised e))) f
  where
    put_back_raised : sender m ≡ raised → put_back sender (m ∷ []) ≡ []
    put_back_raised e = ground arith

-- Nothing is given, for a reason.
none-IsDrained :
    (batch : ℕ) (sender : Key → Outcome) (x : Connection)
    → (0 ≡ batch) ⊎ ((x.queue ≡ []) ⊎ (is_flowing x.flow ≡ false))
    → IsDrained batch sender x.queue x.flow ((0, []), x)
none-IsDrained batch sender x why = record {
  rest = x.queue;
  split = refl;
  left = sym (append-nil x.queue);
  sent = refl;
  flow_then = refl;
  within = omega arith;
  running = refl;
  going = refl;
  stopped = elim why [
    | inl full ↦ inl full
    | inr (inl empty) ↦ inr (inl empty)
    | inr (inr paused) ↦ inr (inr (inl paused))
  ];
}

drain_one-IsDrained :
    (rec : Connection → Drained) (batch size : ℕ) (policy : DropPolicy) (sender : Key → Outcome)
    (queue : List Key) (x : Connection)
    → ((y : Connection) → length y.queue ≤ size → IsDrained batch sender y.queue y.flow (rec y))
    → length queue ≤ size
    → is_flowing x.flow ≡ true
    → x.queue ≡ queue
    → IsDrained (suc batch) sender queue x.flow (drain_one rec size policy sender queue x)
unfolding drain_one
drain_one-IsDrained rec batch size policy sender [] x h p on e =
    subst (λ (l : List Key). IsDrained (suc batch) sender l x.flow ((0, []), x)) e
      (none-IsDrained (suc batch) sender x (inr (inl e)))
drain_one-IsDrained rec batch size policy sender (m ∷ rest) x h p on e =
    after_send-IsDrained rec batch size policy sender m (sender m) x.flow _ refl on refl h
      (omega (arith, p))

drain_loop-IsDrained :
    (rounds size : ℕ) (policy : DropPolicy) (sender : Key → Outcome) (x : Connection)
    → length x.queue ≤ size
    → IsDrained rounds sender x.queue x.flow (drain_loop rounds size policy sender x)
unfolding drain_loop
drain_loop-IsDrained zero size policy sender x p = none-IsDrained 0 sender x (inl refl)
drain_loop-IsDrained (suc rounds) size policy sender x p = elim (Bool-cases (is_flowing x.flow)) [
  | inl on ↦
      rw (on, drain_loop)
        (drain_one-IsDrained (drain_loop rounds size policy sender) rounds size policy sender
          x.queue x (drain_loop-IsDrained rounds size policy sender) p on refl)
  | inr off ↦ rw (off, drain_loop) (none-IsDrained (suc rounds) sender x (inr (inr off)))
]

-- For a queue within its size: the sender is given the first messages of the queue in their order,
-- no more than the batch, each while the flow runs and after those before it were delivered. It is
-- given as many as the batch, unless the queue is empty, the flow stands or the last one was not
-- delivered. The count that is returned is of the delivered ones. The others stay in their order, a
-- refused message goes behind them, and one whose sending raised is in the queue no more.
pub drain_on-IsDrained :
    (batch size : ℕ) (policy : DropPolicy) (sender : Key → Outcome) (x : Connection)
    → length x.queue ≤ size
    → IsDrained batch sender x.queue x.flow (drain_on batch size policy sender x)
unfolding drain_on
drain_on-IsDrained batch size policy sender x p =
    let d = drain_loop-IsDrained batch size policy sender x p in
    record {
      rest = d.rest;
      split = d.split;
      left = d.left;
      sent = d.sent;
      flow_then = d.flow_then;
      within = d.within;
      running = d.running;
      going = d.going;
      stopped = d.stopped;
    }
