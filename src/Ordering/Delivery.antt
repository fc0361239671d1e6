-- ===== src/Ordering/Delivery.antt =====
-- shared/messaging/ordering.py: the loop of the flush, and what becomes of a late message.
use rg_agent_engine.Base.{
  ℕ, zero, suc, ◌+◌, ◌≤◌, ◌<◌, ◌≡◌, refl, none, some, List, [], ◌∷◌, Key, arith, Option-cases, inl,
  inr,
}
use rg_agent_engine.Base.Lists.{length}
use rg_agent_engine.Base.Dict.{Dict, get, pop}
use rg_agent_engine.Ordering.Tracker.{SequenceTracker, record_sequence, consolidate_gaps}
use rg_agent_engine.Ordering.Channel.{
  SequencedMessage, OrderedMessageChannel, deliver, flush_one, flush, flush_buffer, accept, receive,
  wake_up, deliver_stale, deliver_one, get_next, sorted, stale_sequences, Call, receives, wakes,
  takes, run,
}

length-pop_le : {V : Type 0} (k : Key) (d : Dict V) → length (pop k d) ≤ length d
unfolding pop
length-pop_le k [] = omega arith
length-pop_le k (e ∷ d) = ground (arith, length-pop_le k d)

length-pop :
    {V : Type 0} (k : Key) (d : Dict V) {v : V} → get k d ≡ some v → length (pop k d) < length d
unfolding pop get
length-pop k [] h = cc
length-pop k (e ∷ d) {v} h =
    ground (arith, length-pop_le k d, λ (g : get k d ≡ some v). length-pop k d g)

flush-done :
    (fuel : ℕ) (c : OrderedMessageChannel)
    → length c.buffer < fuel
    → let c' = flush fuel c in get c'.next_delivery c'.buffer ≡ none
unfolding flush flush_one deliver
flush-done zero c h = absurd (omega (arith, h))
flush-done (suc fuel) c h = elim (Option-cases (get c.next_delivery c.buffer)) [
  | inl e ↦ rw (e, flush) e
  | inr (m, e) ↦
      let fewer = length-pop c.next_delivery c.buffer e in
      rw (e, flush) (flush-done fuel (flush_one m c) (omega (arith, h, fewer)))
]

-- The flush ends: the message that is to be delivered next is not in the buffer that it leaves.
pub flush_buffer_lem :
    (c : OrderedMessageChannel) → let c' = flush_buffer c in get c'.next_delivery c'.buffer ≡ none
unfolding flush_buffer
flush_buffer_lem c = flush-done (suc (length c.buffer)) c (omega arith)

tracker-flush :
    (fuel : ℕ) (c : OrderedMessageChannel) → (flush fuel c).sequence_tracker ≡ c.sequence_tracker
unfolding flush flush_one deliver
tracker-flush zero c = refl
tracker-flush (suc fuel) c = elim (Option-cases (get c.next_delivery c.buffer)) [
  | inl e ↦ rw (e, flush) refl
  | inr (m, e) ↦ rw (e, flush) (tracker-flush fuel (flush_one m c))
]

tracker-accept :
    (m : SequencedMessage) (c : OrderedMessageChannel)
    → (accept m c).sequence_tracker ≡ c.sequence_tracker
unfolding accept flush_buffer deliver
tracker-accept m c =
    let c' = record (deliver m c) { next_delivery = c.next_delivery + 1 } in
    ground (arith, tracker-flush (suc (length c'.buffer)) c')

tracker-deliver_stale :
    (ns : List ℕ) (c : OrderedMessageChannel)
    → (deliver_stale ns c).sequence_tracker ≡ c.sequence_tracker
unfolding deliver_stale deliver_one deliver
tracker-deliver_stale [] c = refl
tracker-deliver_stale (n ∷ ns) c =
    let c' : OrderedMessageChannel = elim (get n c.buffer) [
      | none ↦ c
      | some m ↦ deliver_one n m c
    ] in
    ground (arith, tracker-deliver_stale ns c')

next_expected-record :
    (n : ℕ) (t : SequenceTracker) → t.next_expected ≤ (record_sequence n t).1.next_expected
unfolding record_sequence consolidate_gaps
next_expected-record n t = ground arith

past-record : (n : ℕ) (t : SequenceTracker) → n < (record_sequence n t).1.next_expected
unfolding record_sequence consolidate_gaps
past-record n t = ground arith

tracker-receive :
    (m : SequencedMessage) (c : OrderedMessageChannel)
    → (receive m c).sequence_tracker ≡ (record_sequence m.sequence c.sequence_tracker).1
unfolding receive
tracker-receive m c =
    let c' = record c { sequence_tracker = (record_sequence m.sequence c.sequence_tracker).1 } in
    ground (arith, tracker-accept m c')

next_expected-run :
    (cs : List Call) (c : OrderedMessageChannel)
    → c.sequence_tracker.next_expected ≤ (run cs c).sequence_tracker.next_expected
unfolding run wake_up get_next
next_expected-run [] c = omega arith
next_expected-run (receives m ∷ cs) c = ground (
  arith,
  next_expected-run cs (receive m c),
  tracker-receive m c,
  next_expected-record m.sequence c.sequence_tracker,
)
next_expected-run (wakes now ∷ cs) c = ground (
  arith,
  next_expected-run cs (wake_up now c),
  tracker-deliver_stale (sorted (stale_sequences now c.max_wait_ms c.buffer)) c,
)
next_expected-run (takes ∷ cs) c = ground (arith, next_expected-run cs (get_next c).1)

receive_late :
    (m : SequencedMessage) (c : OrderedMessageChannel)
    → m.sequence < c.sequence_tracker.next_expected
    → receive m c
      ≡ record c { sequence_tracker = (record_sequence m.sequence c.sequence_tracker).1 }
unfolding receive record_sequence
receive_late m c late = ground arith

-- A message is dropped if one of its number or a higher one has come before, whatever happened
-- since: its arrival changes nothing but the tracker, neither the buffer nor the queue.
pub late_dropped :
    (first late : SequencedMessage) (cs : List Call) (c : OrderedMessageChannel)
    → late.sequence ≤ first.sequence
    → let c' = run cs (receive first c) in
      receive late c'
      ≡ record c' { sequence_tracker = (record_sequence late.sequence c'.sequence_tracker).1 }
late_dropped first late cs c le =
    let c' = run cs (receive first c) in
    let past = past-record first.sequence c.sequence_tracker in
    let same = tracker-receive first c in
    let grown = next_expected-run cs (receive first c) in
    receive_late late c' (ground (arith, past, same, grown))
