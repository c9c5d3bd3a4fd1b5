-- ===== src/Pipeline/Watermark/Prefix.antt =====
-- watermark.go: `written` is the end of the run of completed positions that starts at 1.
use netflow_collector.Base.{
  ℕ, ◌+◌, ◌≤◌, ◌<◌, ◌≡◌, refl, ◌⊎◌, inl, inr, ◌↔◌, Bool, none, List, [], ◌∷◌, arith, here, there,
  In, Any-map, Any-witness, All, All-In, subst, sym,
}
use native.Mathlib.Nat.{le_refl}
use native.Mathlib.Decide.{dec_lt}
use netflow_collector.Base.Assoc.{lookup, put}
use netflow_collector.Pipeline.Watermark.{
  u64, Span, Watermark, empty, complete, close, poll, Change, completes, closes, polls, change, run,
}
use netflow_collector.Pipeline.Watermark.Coverage.{
  completed, IsRange, AreApart-ranges, Apart, AreApart, Covers, Tracked, Inv, advance_ends,
  complete-Inv,
}

record Ready (w : Watermark) (cs : List (Span × Bool)) : Type 0 where
  inv : Inv w.written w.done cs
  stopped : lookup (u64 (w.written + 1)) w.done ≡ none

Apart-same :
    (c : Span × Bool) (cs : List (Span × Bool)) {e : Span × Bool} (n : ℕ)
    → All (Apart c) cs
    → In e cs
    → c.0.first ≤ n
    → n ≤ c.0.last
    → e.0.first ≤ n
    → e.0.last < n
Apart-same c cs n a i p q r =
    let h = All-In (Apart c) cs a i in elim h [ inl lt ↦ omega arith | inr lt ↦ omega arith ]

-- Completed batches that share a position are one batch.
AreApart-same :
    (cs : List (Span × Bool)) {c e : Span × Bool} (n : ℕ)
    → AreApart cs
    → In c cs
    → In e cs
    → (c.0.first ≤ n) × (n ≤ c.0.last)
    → (e.0.first ≤ n) × (n ≤ e.0.last)
    → c.0.last ≡ e.0.last
AreApart-same [] n a i j p q = elim i [ ]
AreApart-same (x ∷ cs) n a (here i) (here j) p q = ground (arith, i, j)
AreApart-same (x ∷ cs) {c} {e} n a (here i) (there j) p q = absurd (
    omega
      (arith, Apart-same c cs {e = e} n (subst (λ y. All (Apart y) cs) (sym i) a.1) j p.0 p.1 q.0))
AreApart-same (x ∷ cs) {c} {e} n a (there i) (here j) p q = absurd (
    omega
      (arith, Apart-same e cs {e = c} n (subst (λ y. All (Apart y) cs) (sym j) a.1) i q.0 q.1 p.0))
AreApart-same (x ∷ cs) n a (there i) (there j) p q = AreApart-same cs n a.2 i j p q

-- Nothing that is complete covers the position after `written`.
not-Covers-next :
    (w : Watermark) (cs : List (Span × Bool))
    → AreApart cs
    → Ready w cs
    → ¬ Covers (w.written + 1) cs
not-Covers-next w cs a r h =
    let (c, p, i) = Any-witness cs h in
    let ranged : IsRange c = All-In IsRange cs (AreApart-ranges cs a) i in
    elim (All-In (Tracked w.written w.done) cs r.inv.tracked i) [
      | inr passed ↦ absurd (omega arith)
      | inl e ↦ elim (split c.0.first p.0) [
        | inl old ↦
            let (b, q, j) = Any-witness cs (r.inv.covered c.0.first ranged.0 old) in
            absurd
              (omega (arith, AreApart-same cs c.0.first a i j (le_refl _, ranged.1) (q.0, q.1)))
        | inr next ↦ ground (arith, e, next, r.stopped)
      ]
    ]
  where
    split : (n : ℕ) → n ≤ w.written + 1 → (n ≤ w.written) ⊎ (n ≡ u64 (w.written + 1))
    split n q = grind (arith, r.inv.bounded)

poll-written : (w : Watermark) (seq : ℕ) → (poll w seq).0.written ≡ w.written
unfolding poll
poll-written w seq = ground arith

poll-done : (w : Watermark) (seq : ℕ) → (poll w seq).0.done ≡ w.done
unfolding poll
poll-done w seq = ground arith

change-Ready :
    (w : Watermark) (c : Change) (past : List (Span × Bool))
    → AreApart (completed past (c ∷ []))
    → Ready w past
    → Ready (change w c) (completed past (c ∷ []))
unfolding change complete close
change-Ready w (completes s ok) past a r = record {
  inv = complete-Inv w s ok past a r.inv;
  stopped = advance_ends _ w.written (put s.first s.last w.done) (le_refl _);
}
change-Ready w closes past a r = record { inv = r.inv; stopped = r.stopped }
change-Ready w (polls seq) past a r = record {
  inv = rw (poll-written, poll-done) r.inv;
  stopped = rw (poll-written, poll-done) r.stopped;
}

AreApart-past :
    (past : List (Span × Bool)) (cs : List Change) → AreApart (completed past cs) → AreApart past
AreApart-past past [] a = a
AreApart-past past (completes s ok ∷ cs) a = (AreApart-past ((s, ok) ∷ past) cs a).2
AreApart-past past (closes ∷ cs) a = AreApart-past past cs a
AreApart-past past (polls seq ∷ cs) a = AreApart-past past cs a

run-Ready :
    (w : Watermark) (past : List (Span × Bool)) (cs : List Change)
    → AreApart (completed past cs)
    → Ready w past
    → Ready (run w cs) (completed past cs)
unfolding run
run-Ready w past [] a r = r
run-Ready w past (completes s ok ∷ cs) a r =
    run-Ready (change w (completes s ok)) ((s, ok) ∷ past) cs a
      (change-Ready w (completes s ok) past (AreApart-past _ cs a) r)
run-Ready w past (closes ∷ cs) a r =
    run-Ready (change w closes) past cs a (change-Ready w closes past (AreApart-past past cs a) r)
run-Ready w past (polls seq ∷ cs) a r =
    run-Ready (change w (polls seq)) past cs a
      (change-Ready w (polls seq) past (AreApart-past past cs a) r)

Ready-empty : Ready empty []
Ready-empty = record {
  inv = record {
    bounded = omega arith;
    covered = λ n p q. absurd (omega arith);
    stored = tt;
    tracked = tt;
  };
  stopped = unfold lookup in refl;
}

-- After any history of completions of separate batches, in any order and with any results, mixed
-- with waits and closing, `written` has reached position `n` exactly when every position from 1
-- to `n` lies in a completed batch.
pub written_iff :
    (cs : List Change) (n : ℕ)
    → AreApart (completed [] cs)
    → (n ≤ (run empty cs).written) ↔ ((m : ℕ) → 1 ≤ m → m ≤ n → Covers m (completed [] cs))
written_iff cs n a = (reached, covered)
  where
    w : Watermark
    w = run empty cs

    ready : Ready w (completed [] cs)
    ready = run-Ready empty [] cs a Ready-empty

    reached : n ≤ w.written → (m : ℕ) → 1 ≤ m → m ≤ n → Covers m (completed [] cs)
    reached h m p q = Any-map (λ c k. (k.0, k.1)) (ready.inv.covered m p (omega arith))

    covered : ((m : ℕ) → 1 ≤ m → m ≤ n → Covers m (completed [] cs)) → n ≤ w.written
    covered h = elim (dec_lt w.written n) [
      | yes short ↦
          absurd (not-Covers-next w _ a ready (h (w.written + 1) (omega arith) (omega arith)))
      | no enough ↦ omega arith
    ]
