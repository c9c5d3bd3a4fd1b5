-- ===== src/Examples/Tiers.antt =====
-- An edge that writes two records to a topic that keeps them.
use netflow_collector.Base.{◌≡◌, refl, true, List, [], ◌∷◌, ◌++◌, map, Text}
use netflow_collector.Flow.Time.{zero_time}
use netflow_collector.Flow.Addr.{Addr, invalid}
use netflow_collector.Wire.{encode}
use netflow_collector.Sink.Kafka.{Produced, messages_of, send_all, write_messages}
use netflow_collector.Sink.Kafka.Tier.{Topic, read, accepted, write_messages-read}
use netflow_collector.Examples.Messages.{plain, sample, sample-IsComplete}

abbrev text_of : Addr → Text
text_of invalid = []
text_of (Addr.v4 n) = n ∷ []
text_of (Addr.v6 n zone) = n ∷ n ∷ []

abbrev memory : Topic plain text_of
memory = record {
  State = List (Produced plain text_of);
  produce = λ ms s. (true, s ++ ms);
  log = λ s. s;
  appends = λ ms s e. refl;
}

edge_wrote : (write_messages plain text_of memory.produce (sample ∷ sample ∷ []) []).0 ≡ true
unfolding write_messages send_all messages_of encode
edge_wrote = refl

write_messages-read_example :
    (ms : List (Produced plain text_of)) × ((write_messages plain text_of memory.produce
        (sample ∷ sample ∷ [])
        []).1
      ≡ ms)
    × (map (read plain text_of (λ bs. bs) (λ m. zero_time)) ms
        ≡ map (accepted plain text_of (λ bs. bs) (λ m. zero_time)) (sample ∷ sample ∷ []))
    × (map (λ m. m.key) ms ≡ map (λ r. text_of r.exporter_addr) (sample ∷ sample ∷ []))
write_messages-read_example =
    write_messages-read plain text_of (λ bs. bs) (λ m. zero_time) memory (sample ∷ sample ∷ []) []
      (sample-IsComplete, (sample-IsComplete, tt)) edge_wrote
