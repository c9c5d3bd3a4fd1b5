-- ===== src/App/Command/Boot.antt =====
-- cmd/collector/main.go: what a configuration that `-validate-config` accepts promises.
use Prim.Native.String.{String}
use mathlib.Core.Option.{some-injective}
use netflow_collector.Base.{
  ℕ, ◌≡◌, ◌≢◌, refl, ap, sym, ◌∙◌, Bool, true, false, not, ◌&&◌, Option, none, some, List, [], ◌∷◌,
  if◌then◌else◌, arith, Bool-cases, inl, inr,
}
use netflow_collector.Pipeline.Buffer.{Pipeline}
use netflow_collector.App.Settings.{Config, ok}
use netflow_collector.App.Start.{built, check_names, all_known, new_app, HasNumbers, new_app_builds}
use netflow_collector.App.Run.{
  Runner, Fate, bound, silent, unbound, World, Effect, RunError, source_failed, Outcome, returned,
  migrate_all, stuck, start_sources, await_end, after_select, serve_sources, serve_http, serve,
  after_migration, run, runner_of,
}
use netflow_collector.App.Command.{
  Flags, flags, Outside, exit_code, class_of, result_of, after_new, run_loaded, check_config_only,
  main_run, exits, other_error,
}

start_sources_ended :
    (w : World) (ss : List String) → w.ended ≡ true → (start_sources w ss).1 ≡ false
unfolding start_sources
start_sources_ended w [] e = refl
start_sources_ended w (s ∷ ss) e =
    ground (arith, stuck_ended (w.fate s), start_sources_ended w ss e)
  where
    stuck_ended : (f : Fate) → stuck w f ≡ false
    stuck_ended bound = unfold stuck in refl
    stuck_ended silent = unfold stuck in refl
    stuck_ended unbound = unfold stuck in rw e refl

abbrev verdict_of : Bool → Option RunError
verdict_of died = if died then some source_failed else none

serve_sources_ended :
    (r : Runner) (w : World) → w.ended ≡ true → (serve_sources r w).1 ≡ returned (verdict_of w.died)
unfolding serve_sources
serve_sources_ended r w e = ground (arith, start_sources_ended w r.sources e, selected)
  where
    selected : (after_select r w (await_end w)).1 ≡ returned (verdict_of w.died)
    selected =
        unfold after_select await_end in
        elim (Bool-cases w.died) [ inl died ↦ rw died refl | inr lives ↦ rw (lives, e) refl ]

serve_http_out :
    (r : Runner) (next : List Effect × Outcome) (http listens : Bool)
    → (http && not listens) ≡ false
    → (serve_http r next http listens).1 ≡ next.1
unfolding serve_http
serve_http_out r next false listens h = refl
serve_http_out r next true true h = refl
serve_http_out r next true false h = absurd (ground (arith, h))

after_migration_out :
    (r : Runner) (w : World) (m : List Effect × Option String)
    → m.1 ≡ none
    → (after_migration r w m).1 ≡ (serve r w).1
unfolding after_migration
after_migration_out r w (done, none) h = refl
after_migration_out r w (done, some b) h = absurd (ground (arith, h))

-- Storage that migrates, an address that can be bound if there is one, and a context that ends.
pub record IsServed (r : Runner) (w : World) : Type 0 where
  pub migrates : (migrate_all w.migrates r.backends).1 ≡ none
  pub listens : (r.http && not w.listens) ≡ false
  pub ended : w.ended ≡ true

run_served : (r : Runner) (w : World) → IsServed r w → (run r w).1 ≡ returned (verdict_of w.died)
unfolding run serve
run_served r w h =
    after_migration_out r w (migrate_all w.migrates r.backends) h.migrates
    ∙ serve_http_out r (serve_sources r w) r.http w.listens h.listens
    ∙ serve_sources_ended r w h.ended

abbrev pub only_validate : Flags
only_validate = record {
  show_version = false;
  validate_config = true;
  dump_open_api = false;
  healthcheck = false;
}

abbrev pub no_flags : Flags
no_flags = record {
  show_version = false;
  validate_config = false;
  dump_open_api = false;
  healthcheck = false;
}

names_of_validate :
    (o : Outside) (c : Config) → check_config_only o (ok c) ≡ 0 → check_names o.api_ok c ≡ true
unfolding check_config_only
names_of_validate o c h = ground (arith, h)

api_of_names : (b : Bool) (c : Config) → check_names b c ≡ true → b ≡ true
unfolding check_names
api_of_names true c h = refl
api_of_names false c h = absurd (ground (arith, h))

module _ (R : Type 0) where
  booted :
      (o : Outside) (c : Config) {p : Pipeline R}
      → o.metrics ≡ true
      → new_app {R = R} o.new_sink o.new_source o.new_store o.api_ok c ≡ built p
      → IsServed (runner_of o.http c) o.world
      → exits (run_loaded R o (ok c)) ≡ some (if o.world.died then 1 else 0)
  unfolding run_loaded exit_code class_of
  booted o c {p} metrics made served =
      let made_of = new_app {R = R} o.new_sink o.new_source o.new_store o.api_ok c in
      ap (λ b. exits (if b then after_new {R = R} o c made_of else some (some other_error))) metrics
      ∙ ap (λ b. exits (after_new {R = R} o c b)) made
      ∙ ap (λ e. exits (result_of e)) (run_served (runner_of o.http c) o.world served)
      ∙ by_verdict o.world.died
    where
      by_verdict :
          (b : Bool) → exits (result_of (returned (verdict_of b))) ≡ some (if b then 1 else 0)
      by_verdict true = refl
      by_verdict false = refl

  -- A configuration has the numbers that the validator lets pass and a sink, and `-validate-config`
  -- exits with 0. If then nothing external fails until the context ends, the collector started with it
  -- exits with 0, or with 1 if it was a source's error that ended it.
  pub validated_boots :
      (o : Outside) (c : Config) (written : Bool) (probe : ℕ)
      → o.loaded ≡ ok c
      → main_run R o written probe (flags only_validate) ≡ some 0
      → HasNumbers c
      → c.sinks ≢ []
      → o.metrics ≡ true
      → all_known o.new_sink c.sinks ≡ true
      → all_known o.new_source c.sources ≡ true
      → o.new_store ≡ true
      → IsServed (runner_of o.http c) o.world
      → main_run R o written probe (flags no_flags) ≡ some (if o.world.died then 1 else 0)
  unfolding main_run
  validated_boots o c written probe loaded valid numbers sinks metrics new_sinks new_sources store
        served =
      let names : check_names o.api_ok c ≡ true =
        names_of_validate o c
          (some-injective _ _ (ap (λ l. some (check_config_only o l)) (sym loaded) ∙ valid)) in
      let api = api_of_names o.api_ok c names in
      let (p, made) =
        new_app_builds {R = R} o.new_sink o.new_source o.new_store c numbers sinks
          (ap (λ b. check_names b c) (sym api) ∙ names) new_sinks new_sources store in
      ap (λ l. exits (run_loaded R o l)) loaded
      ∙ booted o c metrics
          (ap (λ b. new_app {R = R} o.new_sink o.new_source o.new_store b c) api ∙ made) served
