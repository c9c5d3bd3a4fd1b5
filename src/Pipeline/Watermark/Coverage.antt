-- ===== src/Pipeline/Watermark/Coverage.antt =====
-- watermark.go, `written`: which positions it says are complete.
use netflow_collector.Base.{
  ℕ, zero, suc, ◌+◌, ◌-◌, ◌^◌, ◌≤◌, ◌<◌, ◌≡◌, refl, ◌⊎◌, inl, inr, Bool, none, some, List, [], ◌∷◌,
  arith, All, Any, here, there, All-map, All-zip, Any-map, Any-All, Option-cases, length,
}
use netflow_collector.Base.Assoc.{
  lookup, delete, put, lookup-delete, lookup-put, length-delete-lt, All-delete, All-lookup,
}
use netflow_collector.Pipeline.Watermark.{
  u64, Span, Watermark, advance, complete, Change, completes, closes, polls,
}

-- The batches that have been completed, newest first, after those of `past`.
abbrev pub completed : List (Span × Bool) → List Change → List (Span × Bool)
completed past [] = past
completed past (completes s ok ∷ cs) = completed ((s, ok) ∷ past) cs
completed past (closes ∷ cs) = completed past cs
completed past (polls seq ∷ cs) = completed past cs

-- The greatest sequence number after which `written + 1` does not wrap.
abbrev pub seq_limit : ℕ
seq_limit = 2 ^ 64 - 1

abbrev pub IsRange : Span × Bool → Type 0
IsRange c = (1 ≤ c.0.first) × (c.0.first ≤ c.0.last) × (c.0.last < seq_limit)

abbrev pub Apart : Span × Bool → Span × Bool → Type 0
Apart c e = (c.0.last < e.0.first) ⊎ (e.0.last < c.0.first)

-- Ranges of positive sequence numbers that do not overlap, which is what the batcher hands out.
abbrev pub AreApart : List (Span × Bool) → Type 0
AreApart [] = Unit
AreApart (c ∷ cs) = IsRange c × All (Apart c) cs × AreApart cs

-- Position `n` lies in a completed batch.
abbrev pub Covers : ℕ → List (Span × Bool) → Type 0
Covers n = Any λ c. (c.0.first ≤ n) × (n ≤ c.0.last)

abbrev pub Stored : List (Span × Bool) → ℕ × ℕ → Type 0
Stored cs e = Any (λ c. (c.0.first ≡ e.0) × (c.0.last ≡ e.1)) cs

abbrev pub Tracked : ℕ → List (ℕ × ℕ) → Span × Bool → Type 0
Tracked w d c = (lookup c.0.first d ≡ some c.0.last) ⊎ (c.0.last ≤ w)

pub record Inv (w : ℕ) (d : List (ℕ × ℕ)) (cs : List (Span × Bool)) : Type 0 where
  pub bounded : w < seq_limit
  pub covered :
      (n : ℕ) → 1 ≤ n → n ≤ w → Any (λ c. (c.0.first ≤ n) × (n ≤ c.0.last) × (c.0.last ≤ w)) cs
  pub stored : All (Stored cs) d
  pub tracked : All (Tracked w d) cs

pub AreApart-ranges : (cs : List (Span × Bool)) → AreApart cs → All IsRange cs
AreApart-ranges [] h = tt
AreApart-ranges (c ∷ cs) h = (h.0, AreApart-ranges cs h.2)

-- One round of the loop.
round-Inv :
    (w k l : ℕ) (d : List (ℕ × ℕ)) (cs : List (Span × Bool))
    → AreApart cs
    → k ≡ w + 1
    → lookup k d ≡ some l
    → Inv w d cs
    → Inv l (delete k d) cs
round-Inv w k l d cs a i e v = record {
  bounded = found.2;
  covered = λ n p q. elim (split n q) [
    | inl old ↦ Any-map (λ c h. (h.0, h.1, omega (arith, found.1))) (v.covered n p old)
    | inr new ↦ Any-map (λ c h. (omega arith, omega arith, omega arith)) at
  ];
  stored = All-delete (Stored cs) k d v.stored;
  tracked = All-map (λ c h. ground (arith, found.1, lookup-delete k c.0.first d)) cs v.tracked;
}
  where
    at : Stored cs (k, l)
    at = All-lookup (Stored cs) k d e v.stored

    found : (1 ≤ w + 1) × (w + 1 ≤ l) × (l < seq_limit)
    found = Any-All (λ c h k. (omega arith, omega arith, omega arith)) cs at (AreApart-ranges cs a)

    split : (n : ℕ) → n ≤ l → (n ≤ w) ⊎ (w + 1 ≤ n)
    split n q = grind arith

advance-Inv :
    (fuel w : ℕ) (d : List (ℕ × ℕ)) (cs : List (Span × Bool))
    → AreApart cs
    → Inv w d cs
    → Inv (advance fuel w d).0 (advance fuel w d).1 cs
unfolding advance
advance-Inv zero w d cs a v = v
advance-Inv (suc fuel) w d cs a v = elim (Option-cases (lookup (u64 (w + 1)) d)) [
  | inl e ↦ rw (e, advance) v
  | inr (l, e) ↦
      rw (e, advance)
        (advance-Inv fuel l (delete (u64 (w + 1)) d) cs a
          (round-Inv w (u64 (w + 1)) l d cs a (omega (arith, v.bounded)) e v))
]

-- The fuel is enough: the loop ends because nothing starts at `written + 1`.
pub advance_ends :
    (fuel w : ℕ) (d : List (ℕ × ℕ))
    → length d ≤ fuel
    → lookup (u64 ((advance fuel w d).0 + 1)) (advance fuel w d).1 ≡ none
unfolding advance
advance_ends zero w [] h = unfold lookup in refl
advance_ends zero w (e ∷ d) h = elim h [ ]
advance_ends (suc fuel) w d h = elim (Option-cases (lookup (u64 (w + 1)) d)) [
  | inl e ↦ rw (e, advance) e
  | inr (l, e) ↦
      rw (e, advance)
        (advance_ends fuel l (delete (u64 (w + 1)) d)
          (omega (arith, length-delete-lt (u64 (w + 1)) d e)))
]

put-Inv :
    (w : ℕ) (d : List (ℕ × ℕ)) (s : Span) (ok : Bool) (cs : List (Span × Bool))
    → AreApart ((s, ok) ∷ cs)
    → Inv w d cs
    → Inv w (put s.first s.last d) ((s, ok) ∷ cs)
put-Inv w d s ok cs a v = record {
  bounded = v.bounded;
  covered = λ n p q. there (v.covered n p q);
  stored =
      unfold put in
      (
        here (refl, refl),
        All-delete (Stored ((s, ok) ∷ cs)) s.first d (All-map (λ e h. there h) d v.stored),
      );
  tracked = (
    inl (ground (arith, lookup-put s.first s.first s.last d)),
    All-zip {Q = λ c. Apart (s, ok) c × IsRange c}
        (λ c t h. ground (arith, a.0, lookup-put s.first c.0.first s.last d)) cs v.tracked
        (All-zip (λ c h k. (h, k)) cs a.1 (AreApart-ranges cs a.2)),
  );
}

pub complete-Inv :
    (w : Watermark) (s : Span) (ok : Bool) (cs : List (Span × Bool))
    → AreApart ((s, ok) ∷ cs)
    → Inv w.written w.done cs
    → Inv (complete w s ok).written (complete w s ok).done ((s, ok) ∷ cs)
unfolding complete
complete-Inv w s ok cs a v = advance-Inv _ _ _ _ a (put-Inv w.written w.done s ok cs a v)
