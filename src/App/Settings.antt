-- ===== src/App/Settings.antt =====
-- internal/config/config.go: the variables that the rules of `parse` read. The binding of the variables
-- and the validator's tags are a parameter.
use Prim.Native.String.{String}
use text.Mathlib.Text.{◌==◌ as str_eq}
use netflow_collector.Base.{
  ◌≡◌, ap, subst, Bool, true, false, not, ◌&&◌, ◌||◌, Option, none, some, List, [], ◌∷◌,
  if◌then◌else◌, arith, Bool-cases, inl, inr,
}
use netflow_collector.Base.Int.{ℤ}

pub record Config : Type 0 where
  pub sources : List String
  pub sinks : List String
  pub kafka_topic : String
  pub kafka_template_topic : String
  pub pipeline_buffer : ℤ
  pub batch_size : ℤ
  pub batch_interval : ℤ
  pub workers : ℤ
  pub postgres_enabled : Bool
  pub maria_db_enabled : Bool
  pub click_house_enabled : Bool
  pub kafka_source_enabled : Bool
  pub kafka_sink_enabled : Bool
  pub kafka_enabled : Bool
  pub net_flow_enabled : Bool

-- `slices.Contains`
unfoldable pub contains : List String → String → Bool
contains [] x = false
contains (y ∷ ys) x = let rest = contains ys x in str_eq y x || rest

-- The fields that are derived from the sources and sinks.
unfoldable pub derive : Config → Config
derive c = record c {
  postgres_enabled = contains c.sinks "postgres";
  maria_db_enabled = contains c.sinks "mariadb";
  click_house_enabled = contains c.sinks "clickhouse";
  kafka_source_enabled = contains c.sources "kafka";
  kafka_sink_enabled = contains c.sinks "kafka";
  kafka_enabled =
      contains c.sources "kafka"
      || contains c.sinks "kafka"
      || not (str_eq c.kafka_template_topic "");
  net_flow_enabled = contains c.sources "netflow";
}

pub data Parsed : Type 0 where
  ok : Config → Parsed
  unbound : Parsed
  invalid : Parsed
  same_topic : Parsed
  kafka_loop : Parsed

unfoldable pub cross_checks : Config → Parsed
cross_checks c =
    if not (str_eq c.kafka_template_topic "") && str_eq c.kafka_template_topic c.kafka_topic
    then same_topic
    else if c.kafka_source_enabled && c.kafka_sink_enabled
    then kafka_loop
    else ok c

module _ (validates : Config → Bool) where
  unfoldable pub check_bound : Config → Parsed
  check_bound c = if validates c then cross_checks c else invalid

  -- `parse`, of what binding the variables gave.
  unfoldable pub parse : Option Config → Parsed
  parse none = unbound
  parse (some c) = check_bound (derive c)

config_of : Config → Parsed → Config
config_of d (ok c) = c
config_of d unbound = d
config_of d invalid = d
config_of d same_topic = d
config_of d kafka_loop = d

-- What a configuration that `parse` returns satisfies.
pub record IsSound (validates : Config → Bool) (c : Config) : Type 0 where
  pub passed : validates c ≡ true
  pub no_loop : (contains c.sources "kafka" && contains c.sinks "kafka") ≡ false
  pub two_topics :
      (not (str_eq c.kafka_template_topic "") && str_eq c.kafka_template_topic c.kafka_topic)
      ≡ false

derived-IsSound :
    (validates : Config → Bool) (b c : Config)
    → check_bound validates (derive b) ≡ ok c
    → IsSound validates c
unfolding check_bound cross_checks derive config_of
derived-IsSound validates b c h = elim (Bool-cases (validates (derive b))) [
  | inl valid ↦
      elim (Bool-cases
        (not (str_eq b.kafka_template_topic "") && str_eq b.kafka_template_topic b.kafka_topic)) [
          | inl same ↦ absurd (ground (arith, valid, same))
          | inr apart ↦ elim (Bool-cases (contains b.sources "kafka" && contains b.sinks "kafka")) [
            | inl loop ↦ absurd (ground (arith, valid, apart, loop))
            | inr free ↦
                let made : ok (derive b) ≡ ok c = ground (arith, valid, apart, free) in
                subst (IsSound validates) (ap (config_of b) made)
                  (record { passed = valid; no_loop = free; two_topics = apart })
          ]
        ]
  | inr bad ↦ absurd (ground (arith, bad))
]

-- A configuration that `parse` returns has passed the validator with its derived fields, never consumes
-- and produces the one Kafka topic at once, and keeps templates, if it shares them, in another topic.
pub parse-IsSound :
    (validates : Config → Bool) (bound : Option Config) (c : Config)
    → parse validates bound ≡ ok c
    → IsSound validates c
unfolding parse
parse-IsSound validates none c h = absurd (ground arith)
parse-IsSound validates (some b) c h = derived-IsSound validates b c h
