-- ===== src/App/Run.antt =====
-- internal/app/run.go: `App.Run`, from the migrations to the close of the sinks, as the actions it takes.
-- What the sinks, the sources and the sockets answer is a parameter; a map's order is the list's.
use Prim.Native.String.{String}
use text.Mathlib.Text.{◌==◌ as str_eq}
use netflow_collector.Base.{
  Bool, true, false, not, ◌&&◌, ◌||◌, Option, none, some, List, [], ◌∷◌, ◌++◌, map, if◌then◌else◌,
}
use netflow_collector.App.Settings.{Config}
use netflow_collector.App.Start.{distinct}
pub mod Phases
pub mod Orderly
pub mod Unbound

-- What `Run` reads of an App: `backends` are the sinks that are storage.
pub record Runner : Type 0 where
  pub sinks : List String
  pub backends : List String
  pub sources : List String
  pub templates : Bool
  pub http : Bool

-- What becomes of a source's listener: it is bound, the source has none to wait for, or the source
-- ended before it was bound.
pub data Fate : Type 0 where
  bound : Fate
  silent : Fate
  unbound : Fate

-- `ended`: the context ends at some time. `died`: the select meets a source's error, not the context.
pub record World : Type 0 where
  pub migrates : String → Bool
  pub listens : Bool
  pub fate : String → Fate
  pub ended : Bool
  pub died : Bool
  pub drains : Bool

pub data Effect : Type 0 where
  migrated : String → Effect
  pipe_started : Effect
  http_listening : Effect
  source_started : String → Effect
  ready : Effect
  sources_stopped : Effect
  http_shut : Effect
  pipe_stopped : Effect
  pipe_left : Effect  -- the pipeline did not drain in time
  closed : String → Effect
  templates_closed : Effect

pub data RunError : Type 0 where
  not_migrated : String → RunError  -- ErrMigration
  not_listening : RunError  -- ErrConfig
  source_failed : RunError

pub data Outcome : Type 0 where
  returned : Option RunError → Outcome
  waiting : Outcome  -- for ever

-- `closeSinks`
unfoldable pub close_sinks : Runner → List Effect
close_sinks r = map closed r.sinks ++ (if r.templates then templates_closed ∷ [] else [])

-- The migrations up to the first that fails, and its backend.
unfoldable pub migrate_all : (String → Bool) → List String → List Effect × Option String
migrate_all migrates [] = ([], none)
migrate_all migrates (b ∷ bs) =
    let (done, failed) = migrate_all migrates bs in
    if migrates b then (migrated b ∷ done, failed) else ([], some b)

-- `awaitBound` waits for the listener or the context.
unfoldable pub stuck : World → Fate → Bool
stuck w bound = false
stuck w silent = false
stuck w unbound = not w.ended

-- Each source is started and awaited in turn; true if one is awaited for ever.
unfoldable pub start_sources : World → List String → List Effect × Bool
start_sources w [] = ([], false)
start_sources w (s ∷ ss) =
    let (later, waits) = start_sources w ss in
    if stuck w (w.fate s) then (source_started s ∷ [], true) else (source_started s ∷ later, waits)

-- The order of shutdown.
unfoldable pub shut_down : Runner → World → List Effect
unfolding close_sinks
shut_down r w =
    sources_stopped
    ∷ ((if r.http then http_shut ∷ [] else [])
        ++ ((if w.drains then pipe_stopped else pipe_left) ∷ close_sinks r))

-- The select: nothing is received if neither the context ends nor a source fails.
unfoldable pub await_end : World → Option (Option RunError)
await_end w = if w.died then some (some source_failed) else if w.ended then some none else none

unfoldable pub after_select : Runner → World → Option (Option RunError) → List Effect × Outcome
after_select r w none = (ready ∷ [], waiting)
after_select r w (some e) = (ready ∷ shut_down r w, returned e)

unfoldable pub serve_sources : Runner → World → List Effect × Outcome
serve_sources r w =
    let (started, waits) = start_sources w r.sources in
    let (rest, out) = after_select r w (await_end w) in
    if waits then (started, waiting) else (started ++ rest, out)

-- `serveHTTP`: whether there is an address, and whether it can be bound.
unfoldable pub serve_http : Runner → List Effect × Outcome → Bool → Bool → List Effect × Outcome
serve_http r (acts, out) false listens = (pipe_started ∷ acts, out)
serve_http r (acts, out) true true = (pipe_started ∷ http_listening ∷ acts, out)
serve_http r next true false =
    (pipe_started ∷ pipe_stopped ∷ close_sinks r, returned (some not_listening))

-- From the start of the pipeline.
unfoldable pub serve : Runner → World → List Effect × Outcome
unfolding serve_http
serve r w = serve_http r (serve_sources r w) r.http w.listens

unfoldable pub after_migration :
    Runner → World → List Effect × Option String → List Effect × Outcome
after_migration r w (done, none) = let (acts, out) = serve r w in (done ++ acts, out)
after_migration r w (done, some b) = (done ++ close_sinks r, returned (some (not_migrated b)))

unfoldable pub run : Runner → World → List Effect × Outcome
run r w = after_migration r w (migrate_all w.migrates r.backends)

-- The storage among the sinks.
unfoldable pub storage_of : List String → List String
storage_of [] = []
storage_of (s ∷ ss) = let rest = storage_of ss in if str_eq s "kafka" then rest else s ∷ rest

-- The App that `New` makes of a configuration, with whether NFC_HTTP_ADDR is set.
unfoldable pub runner_of : Bool → Config → Runner
runner_of http c = record {
  sinks = distinct [] c.sinks;
  backends = storage_of (distinct [] c.sinks);
  sources = distinct [] c.sources;
  templates = not (str_eq c.kafka_template_topic "") && c.net_flow_enabled;
  http = http;
}
