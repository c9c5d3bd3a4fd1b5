-- ===== src/App/Run/Unbound.antt =====
-- internal/app/run.go: a source that ends before its listener is bound.
use Prim.Native.String.{String}
use netflow_collector.Base.{
  ◌≡◌, refl, ◌∙◌, subst, Bool, true, false, not, ◌&&◌, Option, none, some, List, [], ◌∷◌, arith,
  Bool-cases, inl, inr, In, here, there,
}
use netflow_collector.App.Run.Phases.{closings, closings-append, migrations, more_sources}
use netflow_collector.App.Run.{
  Runner, World, unbound, Effect, Outcome, waiting, migrate_all, stuck, start_sources,
  serve_sources, serve_http, serve, after_migration, run,
}

start_sources_waits :
    (w : World) (s : String) (ss : List String)
    → In s ss
    → w.fate s ≡ unbound
    → w.ended ≡ false
    → (start_sources w ss).1 ≡ true
unfolding start_sources stuck
start_sources_waits w s [] i h e = elim i [ ]
start_sources_waits w s (t ∷ ss) (here same) h e =
    let this : stuck w (w.fate t) ≡ true =
      subst (λ x. stuck w (w.fate x) ≡ true) same (rw h (rw e refl)) in
    ground (arith, this)
start_sources_waits w s (t ∷ ss) (there i) h e = elim (Bool-cases (stuck w (w.fate t))) [
  | inl this ↦ rw this refl
  | inr later ↦ rw later (start_sources_waits w s ss i h e)
]

serve_http_waits :
    (r : Runner) (next : List Effect × Outcome) (http listens : Bool)
    → (http && not listens) ≡ false
    → next.1 ≡ waiting
    → closings next.0 ≡ []
    → ((serve_http r next http listens).1 ≡ waiting)
      × (closings (serve_http r next http listens).0 ≡ [])
unfolding serve_http closings
serve_http_waits r next false listens h w c = (w, c)
serve_http_waits r next true true h w c = (w, c)
serve_http_waits r next true false h w c = absurd (ground (arith, h))

after_migration_waits :
    (r : Runner) (w : World) (m : List Effect × Option String)
    → m.1 ≡ none
    → closings m.0 ≡ []
    → (serve r w).1 ≡ waiting
    → closings (serve r w).0 ≡ []
    → ((after_migration r w m).1 ≡ waiting) × (closings (after_migration r w m).0 ≡ [])
unfolding after_migration
after_migration_waits r w (done, none) h c e f = (e, closings-append done _ ∙ rw (c, f) refl)
after_migration_waits r w (done, some b) h c e f = absurd (ground (arith, h))

-- If the migrations succeed, the API's address can be bound if there is one, and the context never
-- ends: once a source that has a listener ends before it is bound, `Run` waits for ever instead of
-- returning the source's error, whatever the other sources do, and no sink is closed.
pub unbound_waits :
    (r : Runner) (w : World) (s : String)
    → (migrate_all w.migrates r.backends).1 ≡ none
    → (r.http && not w.listens) ≡ false
    → w.ended ≡ false
    → In s r.sources
    → w.fate s ≡ unbound
    → ((run r w).1 ≡ waiting) × (closings (run r w).0 ≡ [])
unfolding run serve
unbound_waits r w s migrates http ended i fate =
    let m = migrate_all w.migrates r.backends in
    let waits = start_sources_waits w s r.sources i fate ended in
    let (out, closes) =
      serve_http_waits r (serve_sources r w) r.http w.listens http
        (unfold serve_sources in ground (arith, waits))
        (unfold serve_sources in rw waits (more_sources r.http w r.sources).1) in
    after_migration_waits r w m migrates (migrations w.migrates r.backends).1 out closes
