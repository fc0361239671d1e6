-- ===== src/Ordering/Tests.antt =====
-- shared/messaging/ordering.py: runs of a tracker and of a channel.
use rg_agent_engine.Base.{ℕ, ◌≡◌, refl, [], ◌∷◌, arith}
use rg_agent_engine.Base.Dict.{get, put, pop}
use rg_agent_engine.Ordering.Tracker.{
  SequenceTracker, new_tracker, record_sequence, fill_gap, fill_gaps, split_gap,
}
use rg_agent_engine.Ordering.Channel.{
  SequencedMessage, OrderedMessageChannel, new_channel, deliver, accept, receive, wake_up,
  deliver_stale, deliver_one, sorted, insert, stale_sequences, receives, wakes, run,
}
use rg_agent_engine.Ordering.Delivery.{late_dropped}

abbrev message : ℕ → SequencedMessage
message n = record { sequence = n; payload = 9; timestamp = 100 }

-- The message 0 is overtaken by the message 1.
abbrev overtaken : OrderedMessageChannel
overtaken = receive (message 1) (new_channel 10 5000)

overtaken_waits : overtaken.delivery_queue ≡ []
unfolding receive record_sequence accept new_channel new_tracker put
overtaken_waits = refl

late_is_lost :
    (run (receives (message 0) ∷ wakes 6000 ∷ []) overtaken).delivery_queue ≡ message 1 ∷ []
unfolding run receive record_sequence accept new_channel new_tracker put pop get wake_up sorted
    insert stale_sequences deliver_stale deliver_one deliver
late_is_lost = refl

abbrev gapped : SequenceTracker
gapped = record new_tracker { next_expected = 6; gaps = (0, 2) ∷ (4, 4) ∷ [] }

filled_in : (fill_gap 1 gapped).1.gaps ≡ (0, 0) ∷ (2, 2) ∷ (4, 4) ∷ []
unfolding fill_gap fill_gaps split_gap
filled_in = refl

late_dropped_example :
    let c' = run (wakes 6000 ∷ []) (receive (message 1) (new_channel 10 5000)) in
    receive (message 0) c'
    ≡ record c' { sequence_tracker = (record_sequence 0 c'.sequence_tracker).1 }
late_dropped_example =
    late_dropped (message 1) (message 0) (wakes 6000 ∷ []) (new_channel 10 5000) (omega arith)
