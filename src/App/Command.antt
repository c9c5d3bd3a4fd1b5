-- ===== src/App/Command.antt =====
-- cmd/collector/main.go, and `Run` of internal/app/run.go: the exit codes. Parsing the flags, writing
-- to the standard output and the HTTP client are parameters.
use Prim.Native.String.{String}
use text.Mathlib.Text.{◌==◌ as str_eq}
use netflow_collector.Base.{
  ℕ, ◌≡◌, ◌≢◌, refl, ap, ◌∙◌, Bool, true, false, not, ◌&&◌, Option, none, some, List, [], ◌∷◌,
  if◌then◌else◌, ◌==◌, arith,
}
use netflow_collector.App.Settings.{Config, Parsed, ok, unbound, invalid, same_topic, kafka_loop}
use netflow_collector.App.Start.{
  StartError, bad_config, migration, Built, built, failed, check_names, new_app,
}
use netflow_collector.App.Run.{
  Runner, World, RunError, not_migrated, not_listening, source_failed, Outcome, returned, waiting,
  run, runner_of,
}
pub mod Boot

-- What the flags ask for.
pub record Flags : Type 0 where
  pub show_version : Bool
  pub validate_config : Bool
  pub dump_open_api : Bool
  pub healthcheck : Bool

pub data Arguments : Type 0 where
  help : Arguments
  bad_flags : Arguments
  flags : Flags → Arguments

-- The classes of error that main tells apart.
pub data ExitError : Type 0 where
  config_error : ExitError
  migration_error : ExitError
  other_error : ExitError

unfoldable pub exit_code : Option ExitError → ℕ
exit_code none = 0
exit_code (some config_error) = 2
exit_code (some migration_error) = 3
exit_code (some other_error) = 1

unfoldable pub class_of : RunError → ExitError
class_of (not_migrated b) = migration_error
class_of not_listening = config_error
class_of source_failed = other_error

abbrev class_of_start : StartError → ExitError
class_of_start bad_config = config_error
class_of_start migration = migration_error

abbrev pub result_of : Outcome → Option (Option ExitError)
result_of (returned none) = some none
result_of (returned (some e)) = some (some (class_of e))
result_of waiting = none

-- The environment: what the variables parse to, whether the API's own check of them passes and an
-- address is set, whether the metrics are set up, what the constructors answer, and `World`.
pub record Outside : Type 0 where
  pub loaded : Parsed
  pub api_ok : Bool
  pub http : Bool
  pub metrics : Bool
  pub new_sink : String → Bool
  pub new_source : String → Bool
  pub new_store : Bool
  pub world : World

abbrev pub after_new : {R : Type 0} → Outside → Config → Built R → Option (Option ExitError)
after_new o c (built p) = result_of (run (runner_of o.http c) o.world).1
after_new o c (failed e) = some (some (class_of_start e))

-- `-validate-config`
unfoldable pub check_config_only : Outside → Parsed → ℕ
check_config_only o (ok c) = if check_names o.api_ok c then 0 else 2
check_config_only o unbound = 2
check_config_only o invalid = 2
check_config_only o same_topic = 2
check_config_only o kafka_loop = 2

-- The port of NFC_HTTP_ADDR, where `split_port` is `net.SplitHostPort`.
unfoldable pub port_of : (String → Option String) → String → String
port_of split_port addr =
    if str_eq addr ""
    then "8080"
    else elim (split_port addr) [ none ↦ "8080" | some p ↦ if str_eq p "" then "8080" else p ]

-- `runHealthcheck`, where `get` answers the status of a GET of /healthz on a local port.
unfoldable pub run_healthcheck : (String → Option String) → (String → Option ℕ) → String → ℕ
unfolding port_of
run_healthcheck split_port get addr = elim (get (port_of split_port addr)) [
  | none ↦ 1
  | some status ↦ if status == 200 then 0 else 1
]

abbrev pub exits : Option (Option ExitError) → Option ℕ
exits none = none
exits (some e) = some (exit_code e)

module _ (R : Type 0) where
  abbrev pub loaded_run : Outside → Config → Option (Option ExitError)
  loaded_run o c =
      if o.metrics
      then after_new {R = R} o c (new_app o.new_sink o.new_source o.new_store o.api_ok c)
      else some (some other_error)

  -- `Run`: none if it never returns.
  unfoldable pub run_loaded : Outside → Parsed → Option (Option ExitError)
  run_loaded o (ok c) = loaded_run o c
  run_loaded o unbound = some (some config_error)
  run_loaded o invalid = some (some config_error)
  run_loaded o same_topic = some (some config_error)
  run_loaded o kafka_loop = some (some config_error)

  -- `run` of main: none if the process never exits by itself. `written` is whether the OpenAPI document
  -- could be written, `probe` what the health check exits with.
  unfoldable pub main_run : Outside → Bool → ℕ → Arguments → Option ℕ
  main_run o written probe help = some 0
  main_run o written probe bad_flags = some 2
  main_run o written probe (flags f) =
      if f.show_version
      then some 0
      else if f.dump_open_api
      then some (if written then 0 else 1)
      else if f.healthcheck
      then some probe
      else if f.validate_config
      then some (check_config_only o o.loaded)
      else exits (run_loaded o o.loaded)
