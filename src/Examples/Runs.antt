-- ===== src/Examples/Runs.antt =====
-- Runs of a collector with one source and two sinks.
use netflow_collector.Base.{ℕ, ◌≡◌, refl, ap, true, false, none, some, [], ◌∷◌, length, arith, here}
use netflow_collector.Base.Int.{pos}
use netflow_collector.App.Settings.{Config, ok}
use netflow_collector.App.Start.{distinct, all_known, check_names, sink_known, source_known}
use netflow_collector.App.Run.{
  Runner, bound, unbound, World, waiting, migrate_all, run, runner_of, storage_of,
}
use netflow_collector.App.Run.Phases.{closings}
use netflow_collector.App.Run.Unbound.{unbound_waits}
use netflow_collector.App.Command.{Outside, flags, check_config_only, main_run}
use netflow_collector.App.Command.Boot.{no_flags, validated_boots}

abbrev two_sinks : Runner
two_sinks = record {
  sinks = "postgres" ∷ "kafka" ∷ [];
  backends = "postgres" ∷ [];
  sources = "netflow" ∷ [];
  templates = false;
  http = true;
}

abbrev calm : World
calm = record {
  migrates = λ b. true;
  listens = true;
  fate = λ s. bound;
  ended = true;
  died = false;
  drains = true;
}

-- The port of the source is taken.
abbrev taken : World
taken = record calm { fate = λ s. unbound; ended = false }

unbound_waits_example :
    ((run two_sinks taken).1 ≡ waiting) × (closings (run two_sinks taken).0 ≡ [])
unbound_waits_example =
    unbound_waits two_sinks taken "netflow" (unfold migrate_all in refl) refl refl (here refl) refl

abbrev settings : Config
settings = record {
  sources = "netflow" ∷ [];
  sinks = "postgres" ∷ [];
  kafka_topic = "flows";
  kafka_template_topic = "";
  pipeline_buffer = pos 65_536;
  batch_size = pos 2_000;
  batch_interval = pos 1_000_000_000;
  workers = pos 4;
  postgres_enabled = true;
  maria_db_enabled = false;
  click_house_enabled = false;
  kafka_source_enabled = false;
  kafka_sink_enabled = false;
  kafka_enabled = false;
  net_flow_enabled = true;
}

abbrev outside : Outside
outside = record {
  loaded = ok settings;
  api_ok = true;
  http = true;
  metrics = true;
  new_sink = λ s. true;
  new_source = λ s. true;
  new_store = true;
  world = calm;
}

validated_boots_example : main_run ℕ outside true 0 (flags no_flags) ≡ some 0
unfolding runner_of storage_of distinct all_known
validated_boots_example =
    validated_boots ℕ outside settings true 0 refl
      (unfold main_run check_config_only check_names all_known sink_known source_known in refl)
      (record { buffer = refl; batch = refl; interval = refl; workers = refl })
      (λ e. absurd (omega (arith, ap length e))) refl (unfold all_known in refl)
      (unfold all_known in refl) refl (record { migrates = served; listens = refl; ended = refl })
  where
    served : (migrate_all (λ b. true) ("postgres" ∷ [])).1 ≡ none
    served = unfold migrate_all in refl
