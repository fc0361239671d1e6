-- ===== src/Backpressure/Drained.antt =====
-- shared/messaging/backpressure.py: what a drain of a queue leads to.
use rg_agent_engine.Base.{
  ℕ, zero, suc, ◌≤◌, ◌≡◌, ◌⊎◌, ◌&&◌, Bool, Key, true, false, List, [], ◌∷◌, ◌++◌,
}
use rg_agent_engine.Base.Lists.{length}
use rg_agent_engine.Backpressure.Flow.{FlowControl, is_flowing, increment, decrement}
use rg_agent_engine.Backpressure.Controller.{Outcome, delivered, refused, raised, Drained}

-- The message that goes back to the queue: the last one given, where it was refused.
abbrev pub put_back : (Key → Outcome) → List Key → List Key
put_back sender [] = []
put_back sender (m ∷ []) = elim (sender m) [ delivered ↦ [] | refused ↦ m ∷ [] | raised ↦ [] ]
put_back sender (m ∷ n ∷ given) = put_back sender (n ∷ given)

abbrev pub count_delivered : (Key → Outcome) → List Key → ℕ
count_delivered sender [] = 0
count_delivered sender (m ∷ given) =
    let rest = count_delivered sender given in
    elim (sender m) [ delivered ↦ suc rest | refused ↦ rest | raised ↦ rest ]

-- Each of the messages but the last was delivered.
abbrev pub all_but_last : (Key → Outcome) → List Key → Bool
all_but_last sender [] = true
all_but_last sender (m ∷ []) = true
all_but_last sender (m ∷ n ∷ given) = elim (sender m) [
  | delivered ↦ all_but_last sender (n ∷ given)
  | refused ↦ false
  | raised ↦ false
]

-- The last of the messages was not delivered.
abbrev pub last_lost : (Key → Outcome) → List Key → Bool
last_lost sender [] = false
last_lost sender (m ∷ []) = elim (sender m) [ delivered ↦ false | refused ↦ true | raised ↦ true ]
last_lost sender (m ∷ n ∷ given) = last_lost sender (n ∷ given)

-- The flow after a number of messages, each counted before it is sent and taken off after that.
abbrev pub flow_after : ℕ → FlowControl → FlowControl
flow_after zero f = f
flow_after (suc n) f = flow_after n (decrement 1 (increment 1 f))

-- The flow runs before each of the messages.
abbrev pub runs_before : ℕ → FlowControl → Bool
runs_before zero f = true
runs_before (suc n) f = is_flowing f && runs_before n (decrement 1 (increment 1 f))

-- The queue and the flow before, what was given to the sender and what came of it.
pub record IsDrained (batch : ℕ) (sender : Key → Outcome) (queue : List Key) (flow : FlowControl)
    (d : Drained) : Type 0 where
  pub rest : List Key
  pub split : queue ≡ d.0.1 ++ rest
  pub left : d.1.queue ≡ rest ++ put_back sender d.0.1
  pub sent : d.0.0 ≡ count_delivered sender d.0.1
  pub flow_then : d.1.flow ≡ flow_after (length d.0.1) flow
  pub within : length d.0.1 ≤ batch
  pub running : runs_before (length d.0.1) flow ≡ true
  pub going : all_but_last sender d.0.1 ≡ true
  -- why no further message was given
  pub stopped :
      (length d.0.1 ≡ batch)
      ⊎ ((rest ≡ []) ⊎ ((is_flowing d.1.flow ≡ false) ⊎ (last_lost sender d.0.1 ≡ true)))
