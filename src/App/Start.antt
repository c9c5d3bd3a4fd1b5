-- ===== src/App/Start.antt =====
-- internal/app/run.go: `CheckNames`, and the steps of `New`. Constructors of sinks, of the template store
-- and of sources are parameters; what matters of them is whether they fail.
use Prim.Native.String.{String}
use text.Mathlib.Text.{◌==◌ as str_eq}
use netflow_collector.Base.{
  ℕ, ◌<◌, ◌≡◌, ◌≢◌, refl, Bool, true, false, not, ◌&&◌, ◌||◌, List, [], ◌∷◌, length, lt→ltb,
  if◌then◌else◌, arith,
}
use netflow_collector.Base.Int.{pos, below}
use netflow_collector.Pipeline.Buffer.{Options, Pipeline, Made, ok, err, new}
use netflow_collector.App.Settings.{Config}

pub data StartError : Type 0 where
  bad_config : StartError  -- ErrConfig
  migration : StartError  -- ErrMigration

unfoldable pub sink_known : String → Bool
sink_known s =
    str_eq s "postgres" || str_eq s "mariadb" || str_eq s "clickhouse" || str_eq s "kafka"

unfoldable pub source_known : String → Bool
source_known s = str_eq s "netflow" || str_eq s "kafka"

unfoldable pub all_known : (String → Bool) → List String → Bool
all_known known [] = true
all_known known (s ∷ ss) = let rest = all_known known ss in known s && rest

-- `CheckNames`, given whether the API's own check passes.
unfoldable pub check_names : Bool → Config → Bool
check_names api_ok c = api_ok && all_known sink_known c.sinks && all_known source_known c.sources

abbrev pub options_of : Config → Options
options_of c = record {
  buffer_size = c.pipeline_buffer;
  batch_size = c.batch_size;
  batch_interval = c.batch_interval;
  workers = c.workers;
  write_timeout = pos 0;
}

pub data Built (R : Type 0) : Type 0 where
  built : Pipeline R → Built R
  failed : StartError → Built R

unfoldable pub from_pipeline : {R : Type 0} → Made R → Built R
from_pipeline (ok p) = built p
from_pipeline (err e) = failed bad_config

-- A list without its repetitions: the sinks are kept in a map.
unfoldable pub distinct : List String → List String → List String
distinct seen [] = []
distinct seen (s ∷ ss) =
    let fresh = distinct (s ∷ seen) ss in
    let old = distinct seen ss in if all_known (λ t. not (str_eq t s)) seen then s ∷ fresh else old

module _ {R : Type 0} (new_sink new_source : String → Bool) (new_store : Bool) where
  unfoldable pub build : Config → Built R
  build c = from_pipeline (new (options_of c) (length (distinct [] c.sinks)))

  -- Sinks first, then the template store, then sources, then the pipeline.
  unfoldable pub construct : Config → Built R
  construct c =
      if not (all_known new_sink c.sinks)
      then failed migration
      else if not (str_eq c.kafka_template_topic "") && c.net_flow_enabled && not new_store
      then failed migration
      else if not (all_known new_source c.sources)
      then failed bad_config
      else build c

  unfoldable pub new_app : Bool → Config → Built R
  new_app api_ok c = if check_names api_ok c then construct c else failed bad_config

-- What the validator's tags promise of the numbers.
pub record HasNumbers (c : Config) : Type 0 where
  pub buffer : below c.pipeline_buffer 1 ≡ false
  pub batch : below c.batch_size 1 ≡ false
  pub interval : below c.batch_interval 1 ≡ false
  pub workers : below c.workers 1 ≡ false

distinct-nonempty : (ss : List String) → ss ≢ [] → 0 < length (distinct [] ss)
unfolding distinct all_known
distinct-nonempty [] h = absurd (h refl)
distinct-nonempty (s ∷ ss) h = omega arith

new-builds :
    {R : Type 0} (c : Config) (n : ℕ)
    → HasNumbers c
    → 0 < n
    → (p : Pipeline R) × (from_pipeline (new {R = R} (options_of c) n) ≡ built p)
unfolding new from_pipeline
new-builds {R} c n h pos_ =
    rw (h.buffer, h.batch, h.interval, h.workers) (rw (lt→ltb 0 n pos_) (_, refl))

module _ {R : Type 0} (new_sink new_source : String → Bool) (new_store : Bool) where
  -- If the numbers are those that the validator lets pass, there is a sink, and nothing external fails, then
  -- `New` builds the collector: no configuration that passes `CheckNames` is rejected later, by the pipeline.
  pub new_app_builds :
      (c : Config)
      → HasNumbers c
      → c.sinks ≢ []
      → check_names true c ≡ true
      → all_known new_sink c.sinks ≡ true
      → all_known new_source c.sources ≡ true
      → new_store ≡ true
      → (p : Pipeline R) × (new_app {R = R} new_sink new_source new_store true c ≡ built p)
  unfolding new_app construct build
  new_app_builds c h some_sink names sinks sources store =
      let (p, made) =
        new-builds {R = R} c (length (distinct [] c.sinks)) h
          (distinct-nonempty c.sinks some_sink) in
      (p, ground (arith, names, sinks, sources, store, made))
