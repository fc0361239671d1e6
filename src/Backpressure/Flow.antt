-- ===== src/Backpressure/Flow.antt =====
-- shared/messaging/backpressure.py: `FlowControl`.
use rg_agent_engine.Base.{
  ℕ, ◌+◌, ◌-◌, ◌<◌, ◌≡◌, Bool, true, false, List, [], ◌∷◌, leb, if◌then◌else◌, arith,
}

pub data FlowState : Type 0 where
  flowing paused blocked : FlowState

-- `_pause_event` is set where a sender need not wait.
pub record FlowControl : Type 0 where
  pub high_water_mark : ℕ
  pub low_water_mark : ℕ
  pub state : FlowState
  pub pending_count : ℕ
  pub is_set : Bool

unfoldable pub new_flow : ℕ → ℕ → FlowControl
new_flow high low = record {
  high_water_mark = high;
  low_water_mark = low;
  state = flowing;
  pending_count = 0;
  is_set = true;
}

abbrev pub is_flowing : FlowControl → Bool
is_flowing f = elim f.state [ flowing ↦ true | paused ↦ false | blocked ↦ false ]

-- The state of `increment` where the high mark is reached.
abbrev pub pause : FlowControl → FlowControl
pause f = elim f.state [
  | flowing ↦ record f { state = paused; is_set = false }
  | paused ↦ f
  | blocked ↦ f
]

abbrev pub resume : FlowControl → FlowControl
resume f = elim f.state [
  | flowing ↦ f
  | paused ↦ record f { state = flowing; is_set = true }
  | blocked ↦ f
]

-- `increment`
unfoldable pub increment : ℕ → FlowControl → FlowControl
increment count f =
    let f' : FlowControl = record f { pending_count = f.pending_count + count } in
    if leb f.high_water_mark f'.pending_count then pause f' else f'

-- `decrement`, with `max(0, …)` by the subtraction on ℕ
unfoldable pub decrement : ℕ → FlowControl → FlowControl
decrement count f =
    let f' : FlowControl = record f { pending_count = f.pending_count - count } in
    if leb f'.pending_count f.low_water_mark then resume f' else f'

-- `force_resume` and `force_block`
unfoldable pub force_resume : FlowControl → FlowControl
force_resume f = record f { state = flowing; is_set = true }

unfoldable pub force_block : FlowControl → FlowControl
force_block f = record f { state = blocked; is_set = false }

-- What is counted, in any order.
pub data Count : Type 0 where
  up down : ℕ → Count

unfoldable pub run_counts : List Count → FlowControl → FlowControl
run_counts [] f = f
run_counts (up n ∷ counts) f = run_counts counts (increment n f)
run_counts (down n ∷ counts) f = run_counts counts (decrement n f)

-- The flow runs below the high mark and stands above the low one.
pub record IsMarked (f : FlowControl) : Type 0 where
  pub marks : f.low_water_mark < f.high_water_mark
  pub runs : f.state ≡ flowing → f.pending_count < f.high_water_mark
  pub stands : f.state ≡ paused → f.low_water_mark < f.pending_count
  pub signals : f.is_set ≡ is_flowing f

increment-IsMarked : (n : ℕ) (f : FlowControl) → IsMarked f → IsMarked (increment n f)
unfolding increment
increment-IsMarked n f m = ground arith

decrement-IsMarked : (n : ℕ) (f : FlowControl) → IsMarked f → IsMarked (decrement n f)
unfolding decrement
decrement-IsMarked n f m = ground arith

-- Where the low mark is below the high one, any order of increments and decrements from a marked
-- flow ends in one: it flows only with fewer pending messages than the high mark, it is paused only
-- with more than the low mark, and the event is set exactly while it flows.
pub run_counts-IsMarked :
    (counts : List Count) (f : FlowControl) → IsMarked f → IsMarked (run_counts counts f)
unfolding run_counts
run_counts-IsMarked [] f m = m
run_counts-IsMarked (up n ∷ counts) f m = run_counts-IsMarked counts _ (increment-IsMarked n f m)
run_counts-IsMarked (down n ∷ counts) f m = run_counts-IsMarked counts _ (decrement-IsMarked n f m)

pub new_flow-IsMarked : (high low : ℕ) → low < high → IsMarked (new_flow high low)
unfolding new_flow
new_flow-IsMarked high low h = ground arith
