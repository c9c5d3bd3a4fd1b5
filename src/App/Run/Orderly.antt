-- ===== src/App/Run/Orderly.antt =====
-- internal/app/run.go: the order of `App.Run`.
use Prim.Native.String.{String}
use netflow_collector.Base.{◌≡◌, some, List}
use netflow_collector.App.Run.Phases.{Phase, follow, EndsWell}
use netflow_collector.App.Run.{Runner, Effect, Outcome}

-- These actions may follow this phase, and end well.
abbrev IsOrderly : Runner → Phase → List Effect × Outcome → Type 0
IsOrderly r p (acts, out) = (q : Phase) × (follow acts p ≡ some q) × EndsWell r acts out q
