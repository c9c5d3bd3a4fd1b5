-- ===== src/App/Run/Phases.antt =====
-- internal/app/run.go: the phases of a collector's life, and what each part of `App.Run` may follow.
use Prim.Native.String.{String}
use netflow_collector.Base.{
  ◌≡◌, refl, ap, ◌∙◌, Bool, true, false, Option, none, some, List, [], ◌∷◌, ◌++◌, map,
  if◌then◌else◌, arith, append-nil, Option-cases, Bool-cases, inl, inr,
}
use netflow_collector.App.Run.{
  Runner, World, Effect, migrated, pipe_started, http_listening, source_started, ready,
  sources_stopped, http_shut, pipe_stopped, pipe_left, closed, templates_closed, Outcome, returned,
  waiting, close_sinks, migrate_all, stuck, start_sources, shut_down,
}

-- The phases of a collector's life.
pub data Phase : Type 0 where
  booting : Phase  -- nothing runs
  piping : Bool → Phase  -- the pipeline runs, no source does; whether the API is served
  sourcing : Bool → Phase  -- sources run
  stopped : Bool → Phase  -- the sources have stopped
  draining : Phase  -- the pipeline has stopped too, and the API is not served
  closing : Phase

-- What may happen in each phase.
abbrev pub allow : Phase → Effect → Option Phase
allow booting (migrated b) = some booting
allow booting pipe_started = some (piping false)
allow booting (closed s) = some closing
allow booting templates_closed = some closing
allow (piping false) http_listening = some (piping true)
allow (piping api) (source_started s) = some (sourcing api)
allow (piping api) ready = some (sourcing api)
allow (piping false) pipe_stopped = some draining
allow (sourcing api) (source_started s) = some (sourcing api)
allow (sourcing api) ready = some (sourcing api)
allow (sourcing api) sources_stopped = some (stopped api)
allow (stopped true) http_shut = some (stopped false)
allow (stopped false) pipe_stopped = some draining
allow draining (closed s) = some closing
allow draining templates_closed = some closing
allow closing (closed s) = some closing
allow closing templates_closed = some closing
allow _ _ = none

abbrev pub and_then : Option Phase → (Phase → Option Phase) → Option Phase
and_then none f = none
and_then (some p) f = f p

-- Where these actions lead from a phase, if each is allowed.
unfoldable pub follow : List Effect → Phase → Option Phase
follow [] p = some p
follow (a ∷ acts) p = and_then (allow p a) (follow acts)

-- Nothing runs any more.
abbrev pub at_rest : Phase → Bool
at_rest booting = true
at_rest draining = true
at_rest closing = true
at_rest _ = false

-- The sinks that are closed, in order.
unfoldable pub closings : List Effect → List String
closings [] = []
closings (closed s ∷ acts) = s ∷ closings acts
closings (_ ∷ acts) = closings acts

-- If the collector returns, nothing is left running, and each sink was closed once.
abbrev pub EndsWell : Runner → List Effect → Outcome → Phase → Type 0
EndsWell r acts (returned e) p = (at_rest p ≡ true) × (closings acts ≡ r.sinks)
EndsWell r acts waiting p = Unit

pub follow-append :
    (xs ys : List Effect) (p : Phase) → follow (xs ++ ys) p ≡ and_then (follow xs p) (follow ys)
unfolding follow
follow-append [] ys p = refl
follow-append (x ∷ xs) ys p = elim (Option-cases (allow p x)) [
  | inl e ↦ rw e refl
  | inr (q, e) ↦ rw e (follow-append xs ys q)
]

pub closings-append : (xs ys : List Effect) → closings (xs ++ ys) ≡ closings xs ++ closings ys
unfolding closings
closings-append [] ys = refl
closings-append (closed s ∷ xs) ys = ap (s ∷◌) (closings-append xs ys)
closings-append (migrated b ∷ xs) ys = closings-append xs ys
closings-append (pipe_started ∷ xs) ys = closings-append xs ys
closings-append (http_listening ∷ xs) ys = closings-append xs ys
closings-append (source_started s ∷ xs) ys = closings-append xs ys
closings-append (ready ∷ xs) ys = closings-append xs ys
closings-append (sources_stopped ∷ xs) ys = closings-append xs ys
closings-append (http_shut ∷ xs) ys = closings-append xs ys
closings-append (pipe_stopped ∷ xs) ys = closings-append xs ys
closings-append (pipe_left ∷ xs) ys = closings-append xs ys
closings-append (templates_closed ∷ xs) ys = closings-append xs ys

pub migrations :
    (m : String → Bool) (bs : List String)
    → (follow (migrate_all m bs).0 booting ≡ some booting) × (closings (migrate_all m bs).0 ≡ [])
unfolding follow migrate_all closings
migrations m [] = (refl, refl)
migrations m (b ∷ bs) = let (f, c) = migrations m bs in (ground (arith, f), ground (arith, c))

pub more_sources :
    (api : Bool) (w : World) (ss : List String)
    → (follow (start_sources w ss).0 (sourcing api) ≡ some (sourcing api))
      × (closings (start_sources w ss).0 ≡ [])
unfolding follow start_sources closings
more_sources api w [] = (refl, refl)
more_sources api w (s ∷ ss) =
    let (f, c) = more_sources api w ss in
    elim (Bool-cases (stuck w (w.fate s))) [
      | inl waits ↦ rw waits (refl, refl)
      | inr goes_on ↦ rw goes_on (f, c)
    ]

first_source :
    (api : Bool) (s : String) (f : Phase → Option Phase)
    → and_then (allow (piping api) (source_started s)) f ≡ f (sourcing api)
first_source true s f = refl
first_source false s f = refl

-- Starting sources ends where the collector may become ready.
pub sources :
    (api : Bool) (w : World) (ss : List String)
    → (q : Phase) × (follow (start_sources w ss).0 (piping api) ≡ some q)
      × (allow q ready ≡ some (sourcing api))
sources true w [] = (piping true, (unfold follow start_sources in refl), refl)
sources false w [] = (piping false, (unfold follow start_sources in refl), refl)
sources api w (s ∷ ss) = (sourcing api, first, refl)
  where
    first : follow (start_sources w (s ∷ ss)).0 (piping api) ≡ some (sourcing api)
    first =
        unfold follow start_sources in
        elim (Bool-cases (stuck w (w.fate s))) [
          | inl waits ↦ rw waits (first_source api s (λ p. some p))
          | inr goes_on ↦
              rw goes_on
                (first_source api s (follow (start_sources w ss).0) ∙ (more_sources api w ss).0)
        ]

all_closed :
    (ss : List String) (p : Phase)
    → at_rest p ≡ true
    → (q : Phase) × (follow (map closed ss) p ≡ some q) × (at_rest q ≡ true)
unfolding follow
all_closed [] p h = (p, refl, h)
all_closed (s ∷ ss) booting h = all_closed ss closing refl
all_closed (s ∷ ss) draining h = all_closed ss closing refl
all_closed (s ∷ ss) closing h = all_closed ss closing refl
all_closed (s ∷ ss) (piping api) h = absurd (ground arith)
all_closed (s ∷ ss) (sourcing api) h = absurd (ground arith)
all_closed (s ∷ ss) (stopped api) h = absurd (ground arith)

closings-map : (ss : List String) → closings (map closed ss) ≡ ss
unfolding closings
closings-map [] = refl
closings-map (s ∷ ss) = ap (s ∷◌) (closings-map ss)

-- `closeSinks` may follow whenever nothing runs, and closes every sink.
pub close_all :
    (r : Runner) (p : Phase)
    → at_rest p ≡ true
    → (q : Phase) × (follow (close_sinks r) p ≡ some q)
      × (at_rest q ≡ true)
      × (closings (close_sinks r) ≡ r.sinks)
unfolding close_sinks
close_all r p h =
    let (q, e, rest) = all_closed r.sinks p h in
    let (t, f, quiet) = last q rest r.templates in
    (
      t,
      follow-append (map closed r.sinks) _ p ∙ rw e f,
      quiet,
      closings-append (map closed r.sinks) _ ∙ rw closings-map (ends r.templates),
    )
  where
    last :
        (q : Phase)
        → at_rest q ≡ true
        → (b : Bool)
        → (t : Phase) × (follow (if b then templates_closed ∷ [] else []) q ≡ some t)
          × (at_rest t ≡ true)
    last q h false = (q, (unfold follow in refl), h)
    last booting h true = (closing, (unfold follow in refl), refl)
    last draining h true = (closing, (unfold follow in refl), refl)
    last closing h true = (closing, (unfold follow in refl), refl)
    last (piping api) h true = absurd (ground arith)
    last (sourcing api) h true = absurd (ground arith)
    last (stopped api) h true = absurd (ground arith)

    ends : (b : Bool) → r.sinks ++ closings (if b then templates_closed ∷ [] else []) ≡ r.sinks
    ends true = unfold closings in append-nil r.sinks
    ends false = unfold closings in append-nil r.sinks

pub shut :
    (r : Runner) (w : World)
    → w.drains ≡ true
    → (q : Phase) × (follow (shut_down r w) (sourcing r.http) ≡ some q)
      × (at_rest q ≡ true)
      × (closings (shut_down r w) ≡ r.sinks)
unfolding shut_down
shut r w drains =
    let (q, e, rest, c) = close_all r draining refl in
    elim (Bool-cases r.http) [
      | inl api ↦ (
        q,
        rw (drains, api) (unfold follow in ground (arith, e)),
        rest,
        rw (drains, api) (unfold closings in ground (arith, c)),
      )
      | inr none_ ↦ (
        q,
        rw (drains, none_) (unfold follow in ground (arith, e)),
        rest,
        rw (drains, none_) (unfold closings in ground (arith, c)),
      )
    ]
