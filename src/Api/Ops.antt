-- ===== src/Api/Ops.antt =====
-- internal/api/ops.go: readiness, and internal/api/flows.go: the exporters handler. The sinks are given in
-- the order of their names, as the handler sorts them.
use Prim.Native.String.{String}
use netflow_collector.Base.{
  ◌≡◌, refl, ◌↔◌, Bool, true, false, Option, none, some, List, [], ◌∷◌, map, All, if◌then◌else◌,
  arith, Bool-cases, inl, inr,
}
use netflow_collector.Flow.Time.{Time}
use netflow_collector.Flow.Addr.{invalid}
use netflow_collector.Sink.Query.{FlowQuery, FlowResultPage}
use netflow_collector.Base.Int.{pos}
use netflow_collector.Base.{◌-◌}
use netflow_collector.Api.Render.{Exporter, ExporterJson}

-- A sink, by what it offers: a ping, or else a query (`none` is an error), or neither.
pub data Probe : Type 0 where
  pinger : Bool → Probe
  querier : (FlowQuery → Option FlowResultPage) → Probe
  no_probe : Probe

-- The cheapest query: one record over an empty microsecond.
abbrev pub probe_query : Time → FlowQuery
probe_query now = record {
  start = now - 1_000;
  end_ = now;
  exporter_id = 0;
  src_addr = invalid;
  dst_addr = invalid;
  protocol = none;
  limit = pos 1;
  cursor = "";
}

abbrev pub answered : Option FlowResultPage → Bool
answered none = false
answered (some p) = true

unfoldable pub ping : Time → Probe → Bool
ping now (pinger ok) = ok
ping now (querier query) = answered (query (probe_query now))
ping now no_probe = false

pub data Ready : Type 0 where
  ready : List (String × String) → Ready  -- 200 with every status
  not_ready : List String → Ready  -- 503 with the names that failed

-- The names whose ping failed.
unfoldable pub failing : Time → List (String × Probe) → List String
failing now [] = []
failing now ((name, p) ∷ sinks) =
    let rest = failing now sinks in if ping now p then rest else name ∷ rest

unfoldable pub verdict : List (String × Probe) → List String → Ready
verdict sinks [] = ready (map (λ s. (s.0, "ok")) sinks)
verdict sinks (name ∷ names) = not_ready (name ∷ names)

unfoldable pub readyz : Time → List (String × Probe) → Ready
readyz now sinks = verdict sinks (failing now sinks)

-- What a sink answers to ListExporters: it cannot list, it fails, or it lists.
pub data Listing : Type 0 where
  no_lister : Listing
  list_failed : Listing
  lists : List Exporter → Listing

-- The first sink that lists; `none` is 503.
unfoldable pub exporters :
    (Exporter → ExporterJson) → List (String × Listing) → Option (List ExporterJson)
exporters render [] = none
exporters render ((name, lists es) ∷ sinks) = some (map render es)
exporters render ((name, no_lister) ∷ sinks) = exporters render sinks
exporters render ((name, list_failed) ∷ sinks) = exporters render sinks

pub is_ready : Ready → Bool
is_ready (ready s) = true
is_ready (not_ready names) = false

failing-none :
    (now : Time) (sinks : List (String × Probe))
    → (failing now sinks ≡ []) ↔ All (λ s. ping now s.1 ≡ true) sinks
unfolding failing
failing-none now [] = (λ e. tt, λ h. refl)
failing-none now ((name, p) ∷ sinks) = elim (Bool-cases (ping now p)) [
  | inl up ↦ (
    λ e. (up, (failing-none now sinks).0 (rw up at e)),
    λ h. rw up ((failing-none now sinks).1 h.1),
  )
  | inr down ↦ (λ e. absurd (ground (arith, down, e)), λ h. absurd (ground (arith, down, h.0)))
]

verdict_iff :
    (sinks : List (String × Probe)) (names : List String)
    → (is_ready (verdict sinks names) ≡ true) ↔ (names ≡ [])
unfolding verdict is_ready
verdict_iff sinks [] = (λ e. refl, λ e. refl)
verdict_iff sinks (name ∷ names) = (λ e. absurd (ground arith), λ e. absurd (ground arith))

-- The instance reports ready exactly if every sink answered its probe; a sink without one is never ready.
pub readyz_iff :
    (now : Time) (sinks : List (String × Probe))
    → (is_ready (readyz now sinks) ≡ true) ↔ All (λ s. ping now s.1 ≡ true) sinks
unfolding readyz
readyz_iff now sinks =
    let (a, b) = verdict_iff sinks (failing now sinks) in
    let (c, d) = failing-none now sinks in (λ e. c (a e), λ h. b (d h))
