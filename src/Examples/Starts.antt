-- ===== src/Examples/Starts.antt =====
-- A configuration of an edge instance.
use netflow_collector.Base.{◌≡◌, refl, true, false, some, [], ◌∷◌}
use netflow_collector.Base.Int.{pos}
use netflow_collector.App.Settings.{
  Config, contains, derive, parse, cross_checks, check_bound, ok, IsSound, parse-IsSound,
}
use netflow_collector.App.Start.{all_known, sink_known, source_known, check_names, HasNumbers}

abbrev edge : Config
edge = record {
  sources = "netflow" ∷ [];
  sinks = "kafka" ∷ "kafka" ∷ [];
  kafka_topic = "flows";
  kafka_template_topic = "templates";
  pipeline_buffer = pos 65_536;
  batch_size = pos 2_000;
  batch_interval = pos 1_000_000_000;
  workers = pos 4;
  postgres_enabled = false;
  maria_db_enabled = false;
  click_house_enabled = false;
  kafka_source_enabled = false;
  kafka_sink_enabled = true;
  kafka_enabled = true;
  net_flow_enabled = true;
}

edge_parses : parse (λ c. true) (some edge) ≡ ok edge
unfolding parse check_bound cross_checks derive contains
edge_parses = refl

parse-IsSound_example : IsSound (λ c. true) edge
parse-IsSound_example = parse-IsSound (λ c. true) (some edge) edge edge_parses

edge-HasNumbers : HasNumbers edge
edge-HasNumbers = record { buffer = refl; batch = refl; interval = refl; workers = refl }

edge_names : check_names true edge ≡ true
unfolding check_names all_known sink_known source_known
edge_names = refl

all_built : all_known (λ s. true) ("netflow" ∷ []) ≡ true
unfolding all_known
all_built = refl

all_connected : all_known (λ s. true) ("kafka" ∷ "kafka" ∷ []) ≡ true
unfolding all_known
all_connected = refl
