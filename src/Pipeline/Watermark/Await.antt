-- ===== src/Pipeline/Watermark/Await.antt =====
-- watermark.go, `await`: when a waiter is told that its records are written.
use netflow_collector.Base.{
  ℕ, ◌+◌, ◌≤◌, ◌<◌, ◌≡◌, ◌≢◌, refl, sym, ◌⊎◌, inl, inr, Bool, true, false, List, [], ◌∷◌, ◌++◌,
  arith, All, Any, here, there, In, Any-map, All-In, All-append, All-map, ltb, Bool-cases, subst,
}
use netflow_collector.Pipeline.Watermark.{
  Span, Watermark, empty, complete, close, leads_failed, keep_above, write_failed, durable, poll,
  Change, completes, closes, polls, change, run,
}
use netflow_collector.Pipeline.Watermark.Coverage.{completed, AreApart, Covers, seq_limit}
use netflow_collector.Pipeline.Watermark.Prefix.{written_iff}
use netflow_collector.Pipeline.Watermark.Failures.{
  Settled, reported, run-Settled, In-under, leads_failed-poll, not-leads_failed-poll,
}

-- Position `m` lies in a completed batch of which `P` holds.
abbrev pub CoveredBy : (Span × Bool → Type 0) → ℕ → List (Span × Bool) → Type 0
CoveredBy P m = Any λ c. (c.0.first ≤ m) × (m ≤ c.0.last) × P c

Covers-Settled :
    (P : Span × Bool → Type 0) (m : ℕ) (cs : List (Span × Bool))
    → Covers m cs
    → All P cs
    → CoveredBy P m cs
Covers-Settled P m cs h a = refine cs h a
  where
    refine : (xs : List (Span × Bool)) → Covers m xs → All P xs → CoveredBy P m xs
    refine [] c b = elim c [ ]
    refine (x ∷ xs) (here p) b = here (p.0, p.1, b.0)
    refine (x ∷ xs) (there c) b = there (refine xs c b.1)

poll-durable :
    (w : Watermark) (seq : ℕ)
    → (poll w seq).1 ≡ durable
    → (seq ≤ w.written) × (leads_failed seq w.failed ≡ false)
unfolding poll
poll-durable w seq h = ground arith

-- If `await` says that `seq` is durable, each position up to `seq` lies in a completed batch that
-- every sink wrote, or that is still among `failed`, or whose failure some waiter was told.
pub await_durable :
    (cs : List Change) (seq m : ℕ)
    → AreApart (completed [] cs)
    → (poll (run empty cs) seq).1 ≡ durable
    → 1 ≤ m
    → m ≤ seq
    → CoveredBy (Settled (run empty cs) (reported [] empty cs)) m (completed [] cs)
await_durable cs seq m a h p q =
    Covers-Settled _ m (completed [] cs)
      ((written_iff cs seq a).0 (poll-durable (run empty cs) seq h).0 m p q)
      (run-Settled empty [] [] cs tt)

-- Batches complete in the order of their ranges, as with one worker.
abbrev pub InOrder : ℕ → List Change → Type 0
InOrder n [] = Unit
InOrder n (completes s ok ∷ cs) = (n ≤ s.first) × InOrder (s.first + 1) cs
InOrder n (closes ∷ cs) = InOrder n cs
InOrder n (polls seq ∷ cs) = InOrder n cs

abbrev IsAscending : List Span → Type 0
IsAscending [] = Unit
IsAscending (s ∷ xs) = All (λ t. s.first ≤ t.first) xs × IsAscending xs

-- Failed ranges stand in order, below `n`.
abbrev Ordered : ℕ → List Span → Type 0
Ordered n xs = IsAscending xs × All (λ s. s.first < n) xs

Ordered-append :
    (n : ℕ) (xs : List Span) (s : Span)
    → Ordered n xs
    → n ≤ s.first
    → Ordered (s.first + 1) (xs ++ s ∷ [])
Ordered-append n [] s h p = ((tt, tt), (omega arith, tt))
Ordered-append n (x ∷ xs) s h p =
    let rest = Ordered-append n xs s (h.0.1, h.1.1) p in
    (
      (All-append (λ (t : Span). x.first ≤ t.first) xs (s ∷ []) h.0.0 (omega arith, tt), rest.0),
      (omega (arith, h.1.0), rest.1),
    )

All-keep : (P : Span → Type 0) (seq : ℕ) (xs : List Span) → All P xs → All P (keep_above seq xs)
unfolding keep_above
All-keep P seq [] h = tt
All-keep P seq (x ∷ xs) h = elim (Bool-cases (ltb seq x.first)) [
  | inl e ↦ rw e (h.0, All-keep P seq xs h.1)
  | inr e ↦ rw e (All-keep P seq xs h.1)
]

keep-IsAscending : (seq : ℕ) (xs : List Span) → IsAscending xs → IsAscending (keep_above seq xs)
unfolding keep_above
keep-IsAscending seq [] h = tt
keep-IsAscending seq (x ∷ xs) h = elim (Bool-cases (ltb seq x.first)) [
  | inl e ↦ rw e (All-keep (λ t. x.first ≤ t.first) seq xs h.0, keep-IsAscending seq xs h.1)
  | inr e ↦ rw e (keep-IsAscending seq xs h.1)
]

poll-Ordered :
    (n : ℕ) (w : Watermark) (seq : ℕ) → Ordered n w.failed → Ordered n (poll w seq).0.failed
poll-Ordered n w seq h = elim (Bool-cases (leads_failed seq w.failed)) [
  | inl e ↦
      subst (Ordered n) (sym (leads_failed-poll w seq e))
        (keep-IsAscending seq w.failed h.0, All-keep (λ s. s.first < n) seq w.failed h.1)
  | inr e ↦ subst (Ordered n) (sym (not-leads_failed-poll w seq e)) h
]

complete-Ordered :
    (n : ℕ) (w : Watermark) (s : Span) (ok : Bool)
    → Ordered n w.failed
    → n ≤ s.first
    → Ordered (s.first + 1) (complete w s ok).failed
unfolding complete
complete-Ordered n w s true h p = (h.0, All-map (λ t lt. omega arith) w.failed h.1)
complete-Ordered n w s false h p = Ordered-append n w.failed s h p

run-IsAscending :
    (n : ℕ) (w : Watermark) (cs : List Change)
    → InOrder n cs
    → Ordered n w.failed
    → IsAscending (run w cs).failed
unfolding run change
run-IsAscending n w [] o h = h.0
run-IsAscending n w (completes s ok ∷ cs) o h =
    run-IsAscending (s.first + 1) (complete w s ok) cs o.1 (complete-Ordered n w s ok h o.0)
run-IsAscending n w (closes ∷ cs) o h = run-IsAscending n (close w) cs o (unfold close in h)
run-IsAscending n w (polls seq ∷ cs) o h =
    run-IsAscending n (poll w seq).0 cs o (poll-Ordered n w seq h)

-- In an ascending list that does not lead at or below `seq`, no range does.
none_at_or_below :
    (seq : ℕ) (xs : List Span) (s : Span)
    → IsAscending xs
    → leads_failed seq xs ≡ false
    → In s xs
    → seq < s.first
unfolding leads_failed
none_at_or_below seq [] s a e i = elim i [ ]
none_at_or_below seq (x ∷ xs) s a e (here p) = ground (arith, p)
none_at_or_below seq (x ∷ xs) s a e (there i) =
    ground (arith, All-In (λ t. x.first ≤ t.first) xs a.0 i)

-- With one worker, batches complete in order. Then if `await` says that `seq` is durable, each
-- position up to `seq` lies in a completed batch that every sink wrote, or whose failure some
-- waiter was told.
pub await_durable-InOrder :
    (cs : List Change) (seq m : ℕ)
    → AreApart (completed [] cs)
    → InOrder 0 cs
    → (poll (run empty cs) seq).1 ≡ durable
    → 1 ≤ m
    → m ≤ seq
    → CoveredBy (λ c. (c.1 ≡ true) ⊎ In c.0 (reported [] empty cs)) m (completed [] cs)
await_durable-InOrder cs seq m a o h p q =
    Any-map (λ c k. (k.0, k.1, decide c k.0 k.2)) (await_durable cs seq m a h p q)
  where
    decide :
        (c : Span × Bool)
        → c.0.first ≤ m
        → Settled (run empty cs) (reported [] empty cs) c
        → (c.1 ≡ true) ⊎ In c.0 (reported [] empty cs)
    decide c le (inl ok) = inl ok
    decide c le (inr (inr told)) = inr told
    decide c le (inr (inl pending)) = absurd (
        omega (
          arith,
          none_at_or_below seq (run empty cs).failed c.0 (run-IsAscending 0 empty cs o (tt, tt))
              (poll-durable (run empty cs) seq h).1 pending,
        ))

-- Two batches, `1` to `a` and `a + 1` to `b`: the second fails, and then the first fails.
abbrev pub failing_behind : ℕ → ℕ → List Change
failing_behind a b =
    completes (record { first = a + 1; last = b }) false
    ∷ completes (record { first = 1; last = a }) false
    ∷ []

-- With more workers a failure can be missed: if the batch behind fails first, then the batch in
-- front, `await` tells a waiter for the front batch that its records are durable.
pub failure_missed :
    (a b seq : ℕ)
    → 1 ≤ seq
    → seq ≤ a
    → a < b
    → b < seq_limit
    → (poll (run empty (failing_behind a b)) seq).1 ≡ durable
unfolding run change complete poll
failure_missed a b seq p q r l = ground (arith, reached)
  where
    reached : seq ≤ (run empty (failing_behind a b)).written
    reached =
        (written_iff (failing_behind a b) seq
            ((omega arith, (inl (omega arith), tt), (omega arith, tt, tt)))).1
          (λ m lo hi. here (omega arith, omega arith))

poll-write_failed :
    (w : Watermark) (seq : ℕ) → (poll w seq).1 ≡ write_failed → leads_failed seq w.failed ≡ true
unfolding poll
poll-write_failed w seq h = ground arith

not-write_failed :
    (w : Watermark) (seq : ℕ) → leads_failed seq w.failed ≡ false → (poll w seq).1 ≢ write_failed
unfolding poll
not-write_failed w seq h = ground arith

leads_failed-keep : (seq : ℕ) (xs : List Span) → leads_failed seq (keep_above seq xs) ≡ false
unfolding leads_failed keep_above
leads_failed-keep seq [] = refl
leads_failed-keep seq (x ∷ xs) = ground (arith, leads_failed-keep seq xs)

In-keep : (seq : ℕ) (xs : List Span) (s : Span) → In s xs → seq < s.first → In s (keep_above seq xs)
unfolding keep_above
In-keep seq [] s i above = elim i [ ]
In-keep seq (x ∷ xs) s (here e) above = rw (above_test) (here e)
  where
    above_test : ltb seq x.first ≡ true
    above_test = ground (arith, e)
In-keep seq (x ∷ xs) s (there i) above = In-under x (ltb seq x.first) (In-keep seq xs s i above)

-- A failure is reported once: the same wait, made again at once, does not report it again, and the
-- ranges above `seq` are kept for later waits.
pub write_failed_once :
    (w : Watermark) (seq : ℕ)
    → (poll w seq).1 ≡ write_failed
    → ((poll (poll w seq).0 seq).1 ≢ write_failed)
      × ((s : Span) → In s w.failed → seq < s.first → In s (poll w seq).0.failed)
write_failed_once w seq h = (
  (λ again. absurd (
      not-write_failed (poll w seq).0 seq
        (subst (λ xs. leads_failed seq xs ≡ false) (sym (leads_failed-poll w seq leads))
          (leads_failed-keep seq w.failed))
        again)),
  (λ s i above.
      subst (In s) (sym (leads_failed-poll w seq leads)) (In-keep seq w.failed s i above)),
)
  where
    leads : leads_failed seq w.failed ≡ true
    leads = poll-write_failed w seq h
