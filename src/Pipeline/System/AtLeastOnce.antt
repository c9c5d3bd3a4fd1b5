-- ===== src/Pipeline/System/AtLeastOnce.antt =====
-- pipeline.go and watermark.go: what `Written` promises a pull source.
use mathlib.Core.Option.{some-injective}
use netflow_collector.Base.{
  ℕ, zero, suc, ◌+◌, ◌-◌, ◌≤◌, ◌<◌, ◌≡◌, sym, ap, ◌∙◌, subst, ◌⊎◌, inl, inr, Bool, some, List, [],
  ◌∷◌, ◌++◌, length, All, Any, here, there, In, All-map, All-In, Any-map, Any-All, get_elem?,
  get_elem?-append_right, arith,
}
use netflow_collector.Pipeline.Watermark.{Span, empty, poll, durable}
use netflow_collector.Pipeline.Watermark.Coverage.{completed, seq_limit}
use netflow_collector.Pipeline.Watermark.Failures.{Settled, reported}
use netflow_collector.Pipeline.Watermark.Await.{CoveredBy, await_durable}
use netflow_collector.Pipeline.Buffer.{Pipeline, Options, ok, new}
use netflow_collector.Pipeline.Batcher.{Batch}
use netflow_collector.Pipeline.System.{System, Action, steps, start}
use netflow_collector.Pipeline.System.Links.{IsSlice, Kept, link, IsLinked}
use netflow_collector.Pipeline.System.Durable.{steps-IsLinked}

-- Position `m` lies in one of the ranges.
abbrev pub InRanges : ℕ → List Span → Type 0
InRanges m = Any λ f. (f.first ≤ m) × (m ≤ f.last)

pub InRanges-of_In :
    (m : ℕ) (f : Span) {fs : List Span} → f.first ≤ m → m ≤ f.last → In f fs → InRanges m fs
InRanges-of_In m f p q i =
    Any-map (λ g e. (subst (λ (h : Span). h.first ≤ m) e p, subst (λ (h : Span). m ≤ h.last) e q)) i

module _ {R : Type 0} where
  In-prefix :
      (xs ys : List R) (i : ℕ) {r : R} → i < length xs → get_elem? (xs ++ ys) i ≡ some r → In r xs
  In-prefix [] ys i h e = absurd (omega arith)
  In-prefix (x ∷ xs) ys zero h e = here (sym (some-injective _ _ e))
  In-prefix (x ∷ xs) ys (suc i) h e = there (In-prefix xs ys i (omega arith) e)

  -- The record at a position that a batch's range names is in the batch.
  pub In-IsSlice :
      (xs : List R) (b : Batch R) (m : ℕ) {r : R}
      → IsSlice xs b
      → b.range.first ≤ m
      → m ≤ b.range.last
      → get_elem? xs (m - 1) ≡ some r
      → In r b.records
  In-IsSlice xs b m {r} v lo hi e =
      In-prefix b.records v.after (m - b.range.first) (omega (arith, v.first, v.last)) (
        sym (get_elem?-append_right v.before (b.records ++ v.after) (m - b.range.first))
        ∙ ap (get_elem? (v.before ++ (b.records ++ v.after))) at
        ∙ ap (λ l. get_elem? l (m - 1)) (sym v.cut)
        ∙ e)
    where
      at : length v.before + (m - b.range.first) ≡ m - 1
      at = omega (arith, v.first)

  pub Holds-In :
      (records : List R) (logs : List (List R)) {r : R}
      → In r records
      → All (λ log. All (λ x. In x log) records) logs
      → All (λ log. In r log) logs
  Holds-In records logs i h = All-map (λ log k. All-In (λ x. In x log) records k i) logs h

  pub stored_or_failed :
      (s : System R) (m : ℕ) (r : R) (c : Span × Bool)
      → get_elem? s.taken_in (m - 1) ≡ some r
      → (c.0.first ≤ m) × (m ≤ c.0.last) × Settled s.pipe.wm (reported [] empty s.history) c
      → Kept s.taken_in s.stored c
      → All (λ log. In r log) s.stored
        ⊎ InRanges m s.pipe.wm.failed
        ⊎ InRanges m (reported [] empty s.history)
  stored_or_failed s m r c e (lo, hi, inl good) k = inl (
      Holds-In (k.records good) s.stored
        (In-IsSlice s.taken_in (record { records = k.records good; range = c.0 }) m (k.slice good)
          lo hi e)
        (k.holds good))
  stored_or_failed s m r c e (lo, hi, inr (inl pending)) k =
      inr (inl (InRanges-of_In m c.0 lo hi pending))
  stored_or_failed s m r c e (lo, hi, inr (inr told)) k =
      inr (inr (InRanges-of_In m c.0 lo hi told))

  -- Under every interleaving of sources, batcher, workers and waiters, with fewer than 2^64 - 1
  -- records accepted: if a wait for `seq` says that it is durable, then the record at each position
  -- up to `seq` is stored in every sink, or lies in a failed range that is still pending, or in one
  -- that some waiter was told of.
  pub durable_stored :
      (opts : Options) (sinks : ℕ) (acts : List (Action R)) (seq m : ℕ) {p : Pipeline R}
      {s : System R} {r : R}
      → new opts sinks ≡ ok p
      → steps (start p) acts ≡ some s
      → length s.taken_in < seq_limit
      → (poll s.pipe.wm seq).1 ≡ durable
      → 1 ≤ m
      → m ≤ seq
      → get_elem? s.taken_in (m - 1) ≡ some r
      → All (λ log. In r log) s.stored
        ⊎ InRanges m s.pipe.wm.failed
        ⊎ InRanges m (reported [] empty s.history)
  durable_stored opts sinks acts seq m {p} {s} {r} made h few d lo hi e =
      Any-All (λ c k kept. stored_or_failed s m r c e k kept) (completed [] s.history) covered
        v.kept
    where
      v : IsLinked (link s)
      v = steps-IsLinked opts sinks acts made h few

      covered :
          CoveredBy (Settled s.pipe.wm (reported [] empty s.history)) m (completed [] s.history)
      covered =
          subst
            (λ w. CoveredBy (Settled w (reported [] empty s.history)) m (completed [] s.history))
            (sym v.replayed)
            (await_durable s.history seq m v.ended_apart
              (subst (λ w. (poll w seq).1 ≡ durable) v.replayed d) lo hi)
