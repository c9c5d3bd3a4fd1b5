-- ===== src/Examples/Messages.antt =====
-- Messages between the tiers.
use netflow_collector.Base.{
  ℕ, ◌≡◌, refl, sym, ◌+◌, ◌*◌, ◌^◌, ◌==◌, if◌then◌else◌, none, some, List, [], ◌∷◌, All, arith,
  true, false,
}
use netflow_collector.Flow.Addr.{Addr, invalid, is_valid, as_16}
use netflow_collector.Flow.Time.{second, zero_time}
use netflow_collector.Flow.Record.{FlowRecord, valid}
use netflow_collector.Wire.{Codec, Message, ok, message_of, encode, decode}
use netflow_collector.Wire.RoundTrip.{normal, IsComplete, decode-encode, normal-normal}
use netflow_collector.Kafka.Dedup.{natural_key, dedup_key, decode_message}
use netflow_collector.Kafka.Identity.{IsSized, SameKey, natural_key_inj, redelivered}
use netflow_collector.Kafka.Session.{
  Answer, durable, write_failed, Session, Event, polls, hands_over, takes, answered, poison,
  offered, each_record, ack_of, poll_turn, hand_over, conclude, take_ack, end_of, initial, step,
  steps,
}
use netflow_collector.Kafka.Commits.{none_left, skips, grows}
use netflow_collector.Kafka.Underway.{fetched, IsPrefix, AllAscending}
use netflow_collector.Kafka.Delivery.{IsSettled, committed_settled, committed_prefix}

-- A codec that keeps the message.
abbrev pub plain : Codec
plain = record {
  Body = Message;
  marshal = some;
  unmarshal = some;
  unmarshal-marshal = λ m b e. sym e;
}

-- An exporter with a mapped address sent a record timed to the nanosecond.
abbrev pub sample : FlowRecord
sample = record {
  received_at = zero_time + 90 * second + 1_500;
  exporter_addr = Addr.v6 (0xffff * 2 ^ 32 + 0x0a000001) "";
  exporter_id = 0;
  flow_type = "netflow9";
  first_switched = zero_time + 80 * second + 250;
  last_switched = zero_time + 85 * second;
  src_addr = Addr.v4 0x0a000002;
  dst_addr = Addr.v6 1 "";
  src_port = 443;
  dst_port = 50_000;
  protocol = 6;
  tcp_flags = 2;
  packets = 10;
  bytes = 1_000;
  sampling_rate = 0;
  input_iface = 1;
  output_iface = 2;
  src_as = 64_512;
  dst_as = 64_513;
  next_hop = invalid;
  dedup_key = none;
}

pub sample-IsComplete : IsComplete sample
unfolding is_valid valid
sample-IsComplete = record {
  exporter = refl;
  flow_type = refl;
  src = refl;
  dst = refl;
  first = λ e. omega arith;
  last = λ e. omega arith;
  received = λ e. omega arith;
}

decode-encode_example : decode plain (message_of sample) zero_time ≡ ok (normal sample)
unfolding encode
decode-encode_example =
    decode-encode plain sample (message_of sample) zero_time sample-IsComplete refl

normal-normal_example : normal (normal sample) ≡ normal sample
normal-normal_example = normal-normal sample

abbrev other : FlowRecord
other = record sample { packets = 11; first_switched = zero_time + 80 * second + 999 }

sample-IsSized : IsSized sample
unfolding as_16
sample-IsSized = record {
  exporter = omega arith;
  src = omega arith;
  dst = omega arith;
  src_port = omega arith;
  dst_port = omega arith;
  protocol = omega arith;
}

other-IsSized : IsSized other
unfolding as_16
other-IsSized = record {
  exporter = omega arith;
  src = omega arith;
  dst = omega arith;
  src_port = omega arith;
  dst_port = omega arith;
  protocol = omega arith;
}

natural_key_inj_example : SameKey sample other
unfolding natural_key
natural_key_inj_example = natural_key_inj sample other sample-IsSized other-IsSized refl

redelivered_example :
    decode_message (λ bs. bs) plain (message_of sample) zero_time
    ≡ ok (record (normal sample) { dedup_key = some (dedup_key (λ bs. bs) sample) })
unfolding encode
redelivered_example =
    redelivered (λ bs. bs) plain sample (message_of sample) zero_time sample-IsComplete refl

-- Two polls are handed over; the first is confirmed, the second fails.
abbrev session : List (Event ℕ)
session =
    polls ((1, offered 1) ∷ (2, poison) ∷ (3, offered 2) ∷ [])
    ∷ hands_over
    ∷ takes
    ∷ polls ((4, offered 3) ∷ [])
    ∷ answered
    ∷ hands_over
    ∷ takes
    ∷ answered
    ∷ []

abbrev third_fails : ℕ → Answer
third_fails q = if q == 3 then write_failed else durable

abbrev rewound : Session ℕ
rewound = record {
  cancelled = true;
  polling = true;
  handing = none;
  acks = [];
  awaiting = none;
  committing = false;
  failed = true;
  committed = (1, offered 1) ∷ (2, poison) ∷ (3, offered 2) ∷ [];
}

session_runs : steps third_fails initial session ≡ some rewound
unfolding each_record ack_of poll_turn hand_over conclude take_ack end_of initial step steps
session_runs = refl

session-AllAscending : AllAscending session
unfolding AllAscending
session-AllAscending = (
  grows (omega arith) (skips (grows (omega arith) none_left)),
  (grows (omega arith) none_left, tt),
)

committed_settled_example : All (IsSettled third_fails) rewound.committed
committed_settled_example =
    committed_settled third_fails session rewound session-AllAscending session_runs

committed_prefix_example : IsPrefix rewound.committed (fetched session)
committed_prefix_example =
    committed_prefix third_fails session rewound session-AllAscending session_runs
