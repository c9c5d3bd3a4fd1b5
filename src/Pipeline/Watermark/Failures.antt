-- ===== src/Pipeline/Watermark/Failures.antt =====
-- watermark.go, `await`: what its result says of the batches that a sink rejected.
use netflow_collector.Base.{
  ℕ, ◌≡◌, refl, sym, ◌⊎◌, inl, inr, Bool, true, false, List, [], ◌∷◌, ◌++◌, arith, All, here, there,
  In, All-map, subst, if◌then◌else◌, leb, ltb, Bool-cases,
}
use netflow_collector.Pipeline.Watermark.{
  Span, Watermark, complete, close, leads_failed, keep_above, poll, Change, completes, closes,
  polls, change, run,
}
use netflow_collector.Pipeline.Watermark.Coverage.{completed}

-- The failed ranges that a poll forgets, because it reports them.
abbrev pub at_or_below : ℕ → List Span → List Span
at_or_below seq [] = []
at_or_below seq (s ∷ rest) =
    let found = at_or_below seq rest in if leb s.first seq then s ∷ found else found

abbrev pub told : Watermark → Change → List Span
told w (completes s ok) = []
told w closes = []
told w (polls seq) = if leads_failed seq w.failed then at_or_below seq w.failed else []

-- All that was reported to a waiter in a history, after `old`.
abbrev pub reported : List Span → Watermark → List Change → List Span
reported old w [] = old
reported old w (c ∷ cs) = reported (old ++ told w c) (change w c) cs

-- The fate of a completed batch: written by every sink, pending in `failed`, or reported.
abbrev pub Settled : Watermark → List Span → Span × Bool → Type 0
Settled w old c = (c.1 ≡ true) ⊎ In c.0 w.failed ⊎ In c.0 old

In-append_left : {s : Span} (xs ys : List Span) → In s xs → In s (xs ++ ys)
In-append_left (x ∷ xs) ys (here e) = here e
In-append_left (x ∷ xs) ys (there i) = there (In-append_left xs ys i)
In-append_left [] ys i = elim i [ ]

In-append_right : {s : Span} (xs ys : List Span) → In s ys → In s (xs ++ ys)
In-append_right [] ys i = i
In-append_right (x ∷ xs) ys i = there (In-append_right xs ys i)

pub In-under :
    {s : Span} (x : Span) {xs : List Span} (b : Bool) → In s xs → In s (if b then x ∷ xs else xs)
In-under x true i = there i
In-under x false i = i

pub In-split :
    {s : Span} (seq : ℕ) (xs : List Span)
    → In s xs
    → In s (keep_above seq xs) ⊎ In s (at_or_below seq xs)
unfolding keep_above
In-split seq [] i = elim i [ ]
In-split {s} seq (x ∷ xs) (here e) = elim (Bool-cases (leb x.first seq)) [
  | inl below ↦ inr (rw below (here e))
  | inr above ↦ inl (rw (above_test x.first above) (here e))
]
  where
    above_test : (n : ℕ) → leb n seq ≡ false → ltb seq n ≡ true
    above_test n h = ground arith
In-split {s} seq (x ∷ xs) (there i) = elim (In-split seq xs i) [
  | inl k ↦ inl (In-under x (ltb seq x.first) k)
  | inr f ↦ inr (In-under x (leb x.first seq) f)
]

pub leads_failed-poll :
    (w : Watermark) (seq : ℕ)
    → leads_failed seq w.failed ≡ true
    → (poll w seq).0.failed ≡ keep_above seq w.failed
unfolding poll
leads_failed-poll w seq h = ground arith

pub not-leads_failed-poll :
    (w : Watermark) (seq : ℕ) → leads_failed seq w.failed ≡ false → (poll w seq).0.failed ≡ w.failed
unfolding poll
not-leads_failed-poll w seq h = ground arith

-- Every change leaves the batches settled.
change-Settled :
    (w : Watermark) (c : Change) (old : List Span) (e : Span × Bool)
    → Settled w old e
    → Settled (change w c) (old ++ told w c) e
unfolding change complete close
change-Settled w c old e (inl ok) = inl ok
change-Settled w c old e (inr (inr i)) = inr (inr (In-append_left old (told w c) i))
change-Settled w (completes s true) old e (inr (inl i)) = inr (inl i)
change-Settled w (completes s false) old e (inr (inl i)) =
    inr (inl (In-append_left w.failed (s ∷ []) i))
change-Settled w closes old e (inr (inl i)) = inr (inl i)
change-Settled w (polls seq) old e (inr (inl i)) = elim (Bool-cases (leads_failed seq w.failed)) [
  | inl told_now ↦ rw told_now (elim (In-split seq w.failed i) [
    | inl k ↦ inr (inl (subst (In e.0) (sym (leads_failed-poll w seq told_now)) k))
    | inr f ↦ inr (inr (In-append_right old _ f))
  ])
  | inr later ↦ inr (inl (subst (In e.0) (sym (not-leads_failed-poll w seq later)) i))
]

new-Settled :
    (w : Watermark) (s : Span) (ok : Bool) (old : List Span) → Settled (complete w s ok) old (s, ok)
unfolding complete
new-Settled w s true old = inl refl
new-Settled w s false old = inr (inl (In-append_right w.failed (s ∷ []) (here refl)))

pub run-Settled :
    (w : Watermark) (past : List (Span × Bool)) (old : List Span) (cs : List Change)
    → All (Settled w old) past
    → All (Settled (run w cs) (reported old w cs)) (completed past cs)
unfolding run
run-Settled w past old [] h = h
run-Settled w past old (completes s ok ∷ cs) h =
    run-Settled (change w (completes s ok)) ((s, ok) ∷ past) (old ++ []) cs (
      unfold change in new-Settled w s ok (old ++ []),
      All-map (change-Settled w (completes s ok) old) past h,
    )
run-Settled w past old (closes ∷ cs) h =
    run-Settled (change w closes) past (old ++ []) cs (All-map (change-Settled w closes old) past h)
run-Settled w past old (polls seq ∷ cs) h =
    run-Settled (change w (polls seq)) past (old ++ told w (polls seq)) cs
      (All-map (change-Settled w (polls seq) old) past h)
