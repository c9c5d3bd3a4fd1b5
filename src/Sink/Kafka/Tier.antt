-- ===== src/Sink/Kafka/Tier.antt =====
-- internal/sink/kafka with internal/source/kafka: two tiers with a topic between them.
use mathlib.Core.Option.{some-injective}
use netflow_collector.Base.{
  ◌≡◌, refl, ap, sym, ◌∙◌, Bool, true, Option, none, some, List, [], ◌∷◌, ◌++◌, append-nil, map,
  All, arith, Text, ℕ,
}
use netflow_collector.Flow.Time.{Time}
use netflow_collector.Flow.Addr.{Addr}
use netflow_collector.Flow.Record.{FlowRecord}
use netflow_collector.Wire.{Codec, Decoded, ok, encode, decode}
use netflow_collector.Kafka.Dedup.{stamp, decode_message}
use netflow_collector.Wire.RoundTrip.{normal, IsComplete, decode-encode}
use netflow_collector.Sink.Kafka.{
  Produced, produced_of, produced_if, both, messages_of, send_all, write_messages,
}

module _ (codec : Codec) (string_of : Addr → Text) where
  open codec use {Body}

  -- A topic: the messages of a call that succeeds are appended in order.
  pub record Topic : Type 1 where
    pub State : Type 0
    pub produce : List (Produced codec string_of) → State → Bool × State
    pub log : State → List (Produced codec string_of)
    pub appends :
        (ms : List (Produced codec string_of)) (s : State)
        → (produce ms s).0 ≡ true
        → log (produce ms s).1 ≡ log s ++ ms

  both_inv :
      (a : Option (Produced codec string_of)) (b : Option (List (Produced codec string_of)))
      {ms : List (Produced codec string_of)}
      → both codec string_of a b ≡ some ms
      → (m : Produced codec string_of) × (rest : List (Produced codec string_of)) × (a ≡ some m)
        × (b ≡ some rest)
        × (ms ≡ m ∷ rest)
  both_inv none b h = absurd (ground (arith, h))
  both_inv (some m) none h = absurd (ground (arith, h))
  both_inv (some m) (some rest) h = (m, rest, refl, refl, sym (some-injective _ _ h))

  message_inv :
      (r : FlowRecord) (o : Option Body) {m : Produced codec string_of}
      → produced_if codec string_of r o ≡ some m
      → (body : Body) × (o ≡ some body) × (m ≡ produced_of codec string_of r body)
  message_inv r none h = absurd (ground (arith, h))
  message_inv r (some body) h = (body, refl, sym (some-injective _ _ h))

  module _ (sum_256 : List ℕ → List ℕ) (stamp_of : Produced codec string_of → Time) where
    -- What the consuming tier makes of a message, with the timestamp that the topic gave it.
    abbrev pub read : Produced codec string_of → Decoded
    read m = decode_message sum_256 codec m.value (stamp_of m)

    -- The record in its normal form, with the digest of its natural key.
    abbrev pub accepted : FlowRecord → Decoded
    accepted r = stamp sum_256 (ok (normal r))

    messages_of-read :
        (rs : List FlowRecord) {ms : List (Produced codec string_of)}
        → All IsComplete rs
        → messages_of codec string_of rs ≡ some ms
        → (map read ms ≡ map accepted rs)
          × (map (λ m. m.key) ms ≡ map (λ r. string_of r.exporter_addr) rs)
    unfolding messages_of
    messages_of-read [] {ms} h e = rw (← some-injective _ _ e) (refl, refl)
    messages_of-read (r ∷ rs) {ms} h e =
        let (m, rest, first, later, split) =
          both_inv (produced_if codec string_of r (encode codec r)) (messages_of codec string_of rs)
            e in
        let (body, encoded, made) = message_inv r (encode codec r) first in
        let (reads, keys) = messages_of-read rs h.1 later in
        let value : m.value ≡ body = ap (λ x. x.value) made in
        let key : m.key ≡ string_of r.exporter_addr = ap (λ x. x.key) made in
        let this : read m ≡ accepted r =
          unfold decode_message in
          ap (λ b. stamp sum_256 (decode codec b (stamp_of m))) value
          ∙ ap (stamp sum_256) (decode-encode codec r body (stamp_of m) h.0 encoded) in
        (
          ap (map read) split ∙ rw (this, reads) refl,
          ap (map (λ x. x.key)) split ∙ rw (key, keys) refl,
        )

    -- If every record of a batch is complete and `WriteBatch` returns nil, the topic has grown by one
    -- message for each record, in order; each has its exporter's address as its key, and whatever
    -- timestamps the topic gives, the consuming tier accepts from them exactly the records of the
    -- batch, in their normal form and each with the digest of its natural key.
    pub write_messages-read :
        (topic : Topic) (rs : List FlowRecord) (s : topic.State)
        → All IsComplete rs
        → (write_messages codec string_of topic.produce rs s).0 ≡ true
        → (ms : List (Produced codec string_of)) × (topic.log
              (write_messages codec string_of topic.produce rs s).1
            ≡ topic.log s ++ ms)
          × (map read ms ≡ map accepted rs)
          × (map (λ m. m.key) ms ≡ map (λ r. string_of r.exporter_addr) rs)
    unfolding write_messages
    write_messages-read topic [] s h e = ([], sym (append-nil (topic.log s)), refl, refl)
    write_messages-read topic (r ∷ rs) s h e = sent (messages_of codec string_of (r ∷ rs)) refl e
      where
        sent :
            (o : Option (List (Produced codec string_of)))
            → messages_of codec string_of (r ∷ rs) ≡ o
            → (send_all codec string_of topic.produce o s).0 ≡ true
            → (ms : List (Produced codec string_of)) × (topic.log
                  (send_all codec string_of topic.produce o s).1
                ≡ topic.log s ++ ms)
              × (map read ms ≡ map accepted (r ∷ rs))
              × (map (λ m. m.key) ms ≡ map (λ x. string_of x.exporter_addr) (r ∷ rs))
        sent none made done = unfold send_all in absurd (ground (arith, done))
        sent (some ms) made done =
            let (reads, keys) = messages_of-read (r ∷ rs) h made in
            (ms, (unfold send_all in topic.appends ms s done), reads, keys)
