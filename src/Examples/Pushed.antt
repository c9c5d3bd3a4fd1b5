-- ===== src/Examples/Pushed.antt =====
-- The push-shaped consumer over three messages: one sent, one that cannot be decoded, one cut off.
use netflow_collector.Base.{◌≡◌, refl, true, false, Option, none, some, List, [], ◌∷◌}
use netflow_collector.Flow.Record.{FlowRecord}
use netflow_collector.Kafka.Push.{
  PushPoll, messages, ended, send_one, take_message, take_messages, push_loop, start_push, Accounts,
  push_loop_complete, fresh, polled,
}
use netflow_collector.Examples.Messages.{sample}

abbrev decode : Option FlowRecord → Option FlowRecord
decode o = o

abbrev polls : List (PushPoll decode)
polls =
    messages ((some sample, true) ∷ (none, true) ∷ [])
    ∷ messages ((some sample, false) ∷ (some sample, true) ∷ [])
    ∷ ended
    ∷ []

cut_off :
    start_push decode true polls
    ≡ some (
      record { marked = some sample ∷ none ∷ some sample ∷ []; out = sample ∷ []; stop = true },
      true,
    )
unfolding start_push push_loop take_messages take_message send_one
cut_off = refl

push_loop_complete_example :
    Accounts decode (push_loop decode polls (fresh decode)).0
    × ((push_loop decode polls (fresh decode)).0.stop ≡ false
        → (push_loop decode polls (fresh decode)).0.marked ≡ polled decode polls)
push_loop_complete_example = push_loop_complete decode polls
