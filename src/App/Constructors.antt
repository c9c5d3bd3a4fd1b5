-- ===== src/App/Constructors.antt =====
-- internal/app/run.go: `newSink` and `newSource`, the two switches. What a constructor answers is a
-- parameter: a sink or a source, or an error (`none`).
use Prim.Native.String.{String}
use text.Mathlib.Text.{◌==◌ as str_eq}
use netflow_collector.Base.{◌≡◌, Bool, true, false, Option, if◌then◌else◌, arith}
use netflow_collector.App.Start.{sink_known, source_known}

-- A constructor's answer, or the switch's own error.
pub data Constructed (A : Type 0) : Type 0 where
  constructed : Option A → Constructed A
  unknown_name : Constructed A

pub record SinkEngines (Sink : Type 0) : Type 0 where
  pub postgres : Option Sink
  pub mariadb : Option Sink
  pub clickhouse : Option Sink
  pub kafka : Option Sink

unfoldable pub new_sink : {Sink : Type 0} → SinkEngines Sink → String → Constructed Sink
new_sink engines name =
    if str_eq name "postgres"
    then constructed engines.postgres
    else if str_eq name "mariadb"
    then constructed engines.mariadb
    else if str_eq name "clickhouse"
    then constructed engines.clickhouse
    else if str_eq name "kafka"
    then constructed engines.kafka
    else unknown_name

-- netflow.New is given the template store if there is one.
unfoldable pub new_source :
    {Source Store : Type 0}
    → (Option Store → Option Source)
    → Option Source
    → Option Store
    → String
    → Constructed Source
new_source netflow kafka store name =
    if str_eq name "netflow"
    then constructed (netflow store)
    else if str_eq name "kafka"
    then constructed kafka
    else unknown_name

abbrev pub is_constructed : {A : Type 0} → Constructed A → Bool
is_constructed (constructed o) = true
is_constructed unknown_name = false

-- The switches construct exactly the names that `CheckNames` lets pass.
pub switches_agree :
    {Sink Source Store : Type 0} (engines : SinkEngines Sink)
    (netflow : Option Store → Option Source) (kafka : Option Source) (store : Option Store)
    (name : String)
    → (is_constructed (new_sink engines name) ≡ sink_known name)
      × (is_constructed (new_source netflow kafka store name) ≡ source_known name)
unfolding new_sink new_source sink_known source_known
switches_agree engines netflow kafka store name = (ground arith, ground arith)
