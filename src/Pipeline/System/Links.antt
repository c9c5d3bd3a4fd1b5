-- ===== src/Pipeline/System/Links.antt =====
-- pipeline.go and watermark.go together: the batches in flight and the completed ones, as slices of
-- the accepted records.
use netflow_collector.Base.{
  ℕ, zero, suc, ◌+◌, ◌<◌, ◌≡◌, refl, ap, ◌∙◌, subst, inl, inr, Bool, true, some, List, [], ◌∷◌,
  ◌++◌, length, All, All-map, All-append, append_assoc, arith,
}
use mathlib.Core.Option.{some-injective}
use netflow_collector.Pipeline.Watermark.{
  Span, Watermark, empty, Change, completes, closes, polls, change, run,
}
use netflow_collector.Pipeline.Watermark.Coverage.{completed, Apart, AreApart}
use netflow_collector.Pipeline.Buffer.{new}
use netflow_collector.Pipeline.Batcher.{Batch}
use netflow_collector.Pipeline.System.{System, SinkResult, store, batch_at, remove_at}
use netflow_collector.Pipeline.System.Storage.{Holds, Holds-store_old}

-- The history of the watermark grows by one call.
pub run-append :
    (w : Watermark) (cs : List Change) (c : Change) → run w (cs ++ c ∷ []) ≡ change (run w cs) c
unfolding run
run-append w [] c = refl
run-append w (d ∷ cs) c = run-append (change w d) cs c

pub completed-append :
    (past : List (Span × Bool)) (cs : List Change) (c : Change)
    → completed past (cs ++ c ∷ []) ≡ completed (completed past cs) (c ∷ [])
completed-append past [] c = refl
completed-append past (completes s b ∷ cs) c = completed-append ((s, b) ∷ past) cs c
completed-append past (closes ∷ cs) c = completed-append past cs c
completed-append past (polls seq ∷ cs) c = completed-append past cs c

Apart-sym : (c e : Span × Bool) → Apart c e → Apart e c
Apart-sym c e (inl h) = inr h
Apart-sym c e (inr h) = inl h

-- The part of the state that the watermark, the workers and the sinks share.
pub record Link (R : Type 0) : Type 0 where
  pub wm : Watermark
  pub history : List Change
  pub taken_in : List R
  pub inflight : List (Batch R)
  pub first : ℕ
  pub stored : List (List R)
  pub sinks : ℕ

module _ {R : Type 0} where
  -- The records of a batch are those of the accepted records that its range names.
  pub record IsSlice (xs : List R) (b : Batch R) : Type 0 where
    pub before : List R
    pub after : List R
    pub cut : xs ≡ before ++ (b.records ++ after)
    pub first : b.range.first ≡ length before + 1
    pub last : b.range.last ≡ length before + length b.records
    pub some_record : 0 < length b.records

  pub IsSlice-grow : (xs : List R) (r : R) (b : Batch R) → IsSlice xs b → IsSlice (xs ++ r ∷ []) b
  IsSlice-grow xs r b v = record {
    before = v.before;
    after = v.after ++ r ∷ [];
    cut =
        ap (λ l. l ++ r ∷ []) v.cut
        ∙ append_assoc v.before (b.records ++ v.after) (r ∷ [])
        ∙ ap (λ l. v.before ++ l) (append_assoc b.records v.after (r ∷ []));
    first = v.first;
    last = v.last;
    some_record = v.some_record;
  }

  -- A batch that every sink wrote: its records, as its range names them, are in every sink.
  pub record Kept (xs : List R) (logs : List (List R)) (c : Span × Bool) : Type 0 where
    pub records : c.1 ≡ true → List R
    pub slice : (w : c.1 ≡ true) → IsSlice xs (record { records = records w; range = c.0 })
    pub holds : (w : c.1 ≡ true) → Holds (records w) logs

  abbrev pub tag : Batch R → Span × Bool
  tag b = (b.range, true)

  abbrev pub AllApart : List (Batch R) → Type 0
  AllApart [] = Unit
  AllApart (b ∷ bs) = All (λ d. Apart (tag b) (tag d)) bs × AllApart bs

  abbrev pub link : System R → Link R
  link s = record {
    wm = s.pipe.wm;
    history = s.history;
    taken_in = s.taken_in;
    inflight = s.inflight;
    first = s.batcher.first;
    stored = s.stored;
    sinks = s.pipe.sinks;
  }

  pub record IsLinked (l : Link R) : Type 0 where
    pub replayed : l.wm ≡ run empty l.history
    pub slices : All (IsSlice l.taken_in) l.inflight
    pub below : All (λ b. b.range.last < l.first) l.inflight
    pub ended_below : All (λ c. c.0.last < l.first) (completed [] l.history)
    pub flying_apart : AllApart l.inflight
    pub ended_apart : AreApart (completed [] l.history)
    pub crossing : All (λ b. All (Apart (tag b)) (completed [] l.history)) l.inflight
    pub kept : All (Kept l.taken_in l.stored) (completed [] l.history)
    pub logs : length l.stored ≡ l.sinks

  pub Kept-grow :
      (xs : List R) (r : R) (logs : List (List R)) (c : Span × Bool)
      → Kept xs logs c
      → Kept (xs ++ r ∷ []) logs c
  Kept-grow xs r logs c k = record {
    records = k.records;
    slice = λ w. IsSlice-grow xs r (record { records = k.records w; range = c.0 }) (k.slice w);
    holds = k.holds;
  }

  pub Kept-store :
      (xs : List R) (results : List (SinkResult R)) (new : List R) (logs : List (List R))
      (c : Span × Bool)
      → Kept xs logs c
      → Kept xs (store results new logs) c
  Kept-store xs results new logs c k = record {
    records = k.records;
    slice = k.slice;
    holds = λ w. Holds-store_old results new (k.records w) logs (k.holds w);
  }

  -- The batch that a worker finishes is apart from the rest.
  pub All-batch_at :
      (P : Batch R → Type 0) (i : ℕ) (bs : List (Batch R)) {b : Batch R}
      → batch_at i bs ≡ some b
      → All P bs
      → P b
  unfolding batch_at
  All-batch_at P i [] e a = absurd (ground (arith, e))
  All-batch_at P zero (x ∷ bs) e a = subst P (some-injective _ _ e) a.0
  All-batch_at P (suc i) (x ∷ bs) e a = All-batch_at P i bs e a.1

  pub All-remove_at :
      (P : Batch R → Type 0) (i : ℕ) (bs : List (Batch R)) → All P bs → All P (remove_at i bs)
  unfolding remove_at
  All-remove_at P i [] a = tt
  All-remove_at P zero (x ∷ bs) a = a.1
  All-remove_at P (suc i) (x ∷ bs) a = (a.0, All-remove_at P i bs a.1)

  pub remove_at-Apart :
      (i : ℕ) (bs : List (Batch R)) {b : Batch R}
      → batch_at i bs ≡ some b
      → AllApart bs
      → AllApart (remove_at i bs) × All (λ d. Apart (tag d) (tag b)) (remove_at i bs)
  unfolding batch_at remove_at
  remove_at-Apart i [] e a = absurd (ground (arith, e))
  remove_at-Apart zero (x ∷ bs) {b} e a = (
    a.1,
    All-map
        (λ d h.
          Apart-sym (tag b) (tag d) (subst (λ y. Apart (tag y) (tag d)) (some-injective _ _ e) h))
        bs a.0,
  )
  remove_at-Apart (suc i) (x ∷ bs) {b} e a =
      let rest = remove_at-Apart i bs e a.1 in
      (
        (All-remove_at (λ d. Apart (tag x) (tag d)) i bs a.0, rest.0),
        (All-batch_at (λ d. Apart (tag x) (tag d)) i bs e a.0, rest.1),
      )

  pub AllApart-append :
      (bs : List (Batch R)) (b : Batch R)
      → AllApart bs
      → All (λ d. d.range.last < b.range.first) bs
      → AllApart (bs ++ b ∷ [])
  AllApart-append [] b a h = (tt, tt)
  AllApart-append (x ∷ bs) b a h = (
    All-append (λ d. Apart (tag x) (tag d)) bs (b ∷ []) a.0 (inl h.0, tt),
    AllApart-append bs b a.1 h.1,
  )
