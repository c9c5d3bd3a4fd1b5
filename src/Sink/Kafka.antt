-- ===== src/Sink/Kafka.antt =====
-- internal/sink/kafka/kafka.go: the sink that sends records to a topic. The client is a parameter, and
-- so is `Addr.String`.
use Prim.Native.String.{String}
use text.Mathlib.Text.{◌==◌ as str_eq}
use netflow_collector.Base.{
  Bool, true, false, ◌&&◌, Option, none, some, List, [], ◌∷◌, if◌then◌else◌, Text,
}
use netflow_collector.Flow.Time.{Time}
use netflow_collector.Flow.Addr.{Addr}
use netflow_collector.Flow.Record.{FlowRecord}
use netflow_collector.Wire.{Codec, encode}
pub mod Tier

-- `New`: whether the client was made and answered its ping.
unfoldable pub new_kafka_sink : List String → String → Bool → Bool → Bool
new_kafka_sink [] topic client ping = false
new_kafka_sink (b ∷ bs) topic client ping = if str_eq topic "" then false else client && ping

module _ (codec : Codec) (string_of : Addr → Text) where
  open codec use {Body}

  -- A record of the client.
  pub record Produced : Type 0 where
    pub key : Text
    pub value : Body
    pub timestamp : Time

  abbrev pub produced_of : FlowRecord → Body → Produced
  produced_of r body = record {
    key = string_of r.exporter_addr;
    value = body;
    timestamp = r.received_at;
  }

  abbrev pub both : Option Produced → Option (List Produced) → Option (List Produced)
  both none ms = none
  both (some m) none = none
  both (some m) (some ms) = some (m ∷ ms)

  abbrev pub produced_if : FlowRecord → Option Body → Option Produced
  produced_if r none = none
  produced_if r (some body) = some (produced_of r body)

  -- The first record that cannot be encoded fails the batch.
  unfoldable pub messages_of : List FlowRecord → Option (List Produced)
  messages_of [] = some []
  messages_of (r ∷ rs) = both (produced_if r (encode codec r)) (messages_of rs)

  -- `produce` is ProduceSync with its first error.
  unfoldable pub send_all :
      {S : Type 0} → (List Produced → S → Bool × S) → Option (List Produced) → S → Bool × S
  send_all produce none s = (false, s)
  send_all produce (some ms) s = produce ms s

  -- `WriteBatch`: whether it returns nil, and what it leaves.
  unfoldable pub write_messages :
      {S : Type 0} → (List Produced → S → Bool × S) → List FlowRecord → S → Bool × S
  unfolding send_all
  write_messages produce [] s = (true, s)
  write_messages produce (r ∷ rs) s = send_all produce (messages_of (r ∷ rs)) s
