-- ===== src/Ordering/Channel.antt =====
-- shared/messaging/ordering.py: `OrderedMessageChannel` and `ConversationOrderManager`. What the
-- handler of a message raises is swallowed, so that the handler is left out. The delivery loop is a
-- function of the time at which it wakes up; its times are in milliseconds.
use rg_agent_engine.Base.{
  ℕ, zero, suc, ◌+◌, Option, none, some, List, [], ◌∷◌, ◌++◌, Key, ◌==◌, ltb, leb, if◌then◌else◌,
}
use rg_agent_engine.Base.Lists.{length}
use rg_agent_engine.Base.Dict.{Dict, get, get_or, put, pop}
use rg_agent_engine.Ordering.Tracker.{
  SequenceTracker, new_tracker, duplicate, expected, gap_detected, record_sequence,
}

pub record SequencedMessage : Type 0 where
  pub sequence : ℕ
  pub payload : Key
  pub timestamp : ℕ

pub record OrderedMessageChannel : Type 0 where
  pub buffer_size : ℕ
  pub max_wait_ms : ℕ
  pub sequence_tracker : SequenceTracker
  pub buffer : Dict SequencedMessage
  pub next_delivery : ℕ
  pub delivered_count : ℕ
  pub dead_letter_count : ℕ
  pub delivery_queue : List SequencedMessage

unfoldable pub new_channel : ℕ → ℕ → OrderedMessageChannel
new_channel buffer_size max_wait_ms = record {
  buffer_size = buffer_size;
  max_wait_ms = max_wait_ms;
  sequence_tracker = new_tracker;
  buffer = [];
  next_delivery = 0;
  delivered_count = 0;
  dead_letter_count = 0;
  delivery_queue = [];
}

unfoldable pub deliver : SequencedMessage → OrderedMessageChannel → OrderedMessageChannel
deliver m c = record c {
  delivery_queue = c.delivery_queue ++ m ∷ [];
  delivered_count = c.delivered_count + 1;
}

-- One turn of the loop of `_flush_buffer`, and the loop on fuel.
unfoldable pub flush_one : SequencedMessage → OrderedMessageChannel → OrderedMessageChannel
unfolding deliver
flush_one m c =
    let c' = deliver m (record c { buffer = pop c.next_delivery c.buffer }) in
    record c' { next_delivery = c'.next_delivery + 1 }

unfoldable pub flush : ℕ → OrderedMessageChannel → OrderedMessageChannel
unfolding flush_one
flush zero c = c
flush (suc fuel) c = elim (get c.next_delivery c.buffer) [
  | none ↦ c
  | some m ↦ flush fuel (flush_one m c)
]

-- Each turn takes a message out of the buffer.
unfoldable pub flush_buffer : OrderedMessageChannel → OrderedMessageChannel
unfolding flush
flush_buffer c = flush (suc (length c.buffer)) c

-- `receive` behind the tracker
unfoldable pub accept : SequencedMessage → OrderedMessageChannel → OrderedMessageChannel
unfolding deliver flush_buffer
accept m c =
    if m.sequence == c.next_delivery
    then flush_buffer (record (deliver m c) { next_delivery = c.next_delivery + 1 })
    else if ltb (length c.buffer) c.buffer_size
    then record c { buffer = put m.sequence m c.buffer }
    else record c { dead_letter_count = c.dead_letter_count + 1 }

unfoldable pub receive : SequencedMessage → OrderedMessageChannel → OrderedMessageChannel
unfolding accept
receive m c =
    let (arrival, t) = record_sequence m.sequence c.sequence_tracker in
    let c' = record c { sequence_tracker = t } in
    elim arrival [ duplicate ↦ c' | expected ↦ accept m c' | gap_detected ↦ accept m c' ]

-- `sorted`
unfoldable pub insert : ℕ → List ℕ → List ℕ
insert n [] = n ∷ []
insert n (k ∷ ks) = let rest = insert n ks in if leb n k then n ∷ k ∷ ks else k ∷ rest

unfoldable pub sorted : List ℕ → List ℕ
unfolding insert
sorted [] = []
sorted (n ∷ ns) = insert n (sorted ns)

-- `age_ms > max_wait_ms`
unfoldable pub stale_sequences : ℕ → ℕ → Dict SequencedMessage → List ℕ
stale_sequences now wait [] = []
stale_sequences now wait (e ∷ d) =
    let rest = stale_sequences now wait d in
    if ltb (e.1.timestamp + wait) now then e.0 ∷ rest else rest

unfoldable pub deliver_one : ℕ → SequencedMessage → OrderedMessageChannel → OrderedMessageChannel
unfolding deliver
deliver_one n m c =
    let c' = deliver m (record c { buffer = pop n c.buffer }) in
    if leb c'.next_delivery n then record c' { next_delivery = n + 1 } else c'

unfoldable pub deliver_stale : List ℕ → OrderedMessageChannel → OrderedMessageChannel
unfolding deliver_one
deliver_stale [] c = c
deliver_stale (n ∷ ns) c =
    deliver_stale ns (elim (get n c.buffer) [ none ↦ c | some m ↦ deliver_one n m c ])

-- One turn of `_delivery_loop`
unfoldable pub wake_up : ℕ → OrderedMessageChannel → OrderedMessageChannel
unfolding sorted stale_sequences deliver_stale
wake_up now c = deliver_stale (sorted (stale_sequences now c.max_wait_ms c.buffer)) c

-- `get_next`: the first of the queue, if there is one
unfoldable pub get_next : OrderedMessageChannel → Option SequencedMessage × OrderedMessageChannel
get_next c = elim c.delivery_queue [
  | [] ↦ (none, c)
  | m ∷ ms ↦ (some m, record c { delivery_queue = ms })
]

-- `ConversationOrderManager`
pub record ConversationOrderManager : Type 0 where
  pub channels : Dict OrderedMessageChannel
  pub sequence_counters : Dict ℕ

unfoldable pub get_next_sequence : Key → ConversationOrderManager → ℕ × ConversationOrderManager
get_next_sequence conversation s =
    let n = get_or conversation 0 s.sequence_counters in
    (n, record s { sequence_counters = put conversation (n + 1) s.sequence_counters })

unfoldable pub get_or_create_channel :
    Key → ConversationOrderManager → OrderedMessageChannel × ConversationOrderManager
unfolding new_channel
get_or_create_channel conversation s = elim (get conversation s.channels) [
  | some c ↦ (c, s)
  | none ↦
      let c = new_channel 1000 5000 in (c, record s { channels = put conversation c s.channels })
]

unfoldable pub close_channel : Key → ConversationOrderManager → ConversationOrderManager
close_channel conversation s = record s { channels = pop conversation s.channels }

-- The calls on a channel.
pub data Call : Type 0 where
  receives : SequencedMessage → Call
  wakes : ℕ → Call
  takes : Call

unfoldable pub run : List Call → OrderedMessageChannel → OrderedMessageChannel
run [] c = c
run (receives m ∷ cs) c = run cs (receive m c)
run (wakes now ∷ cs) c = run cs (wake_up now c)
run (takes ∷ cs) c = run cs (get_next c).1
