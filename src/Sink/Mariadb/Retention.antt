-- ===== src/Sink/Mariadb/Retention.antt =====
-- internal/sink/mariadb/mariadb.go: what retention deletes.
use netflow_collector.Base.{
  ℕ, zero, suc, ◌+◌, ◌-◌, ◌*◌, ◌≤◌, ◌<◌, ◌≡◌, refl, ◌∙◌, Option, none, some, List, [], ◌∷◌, All,
  All-map, length, min, ltb, ltb→lt, if◌then◌else◌, arith, Bool-cases, inl, inr,
}
use netflow_collector.Flow.Time.{Time}
use netflow_collector.Sink.Mariadb.{
  retention_chunk, back, cutoff, Retained, finished, after_delete, retain, apply_retention,
}

-- How many of the rows were received before an instant, and how many were not.
abbrev pub old : Time → List Time → ℕ
old limit [] = 0
old limit (t ∷ ts) = (if ltb t limit then 1 else 0) + old limit ts

abbrev pub young : Time → List Time → ℕ
young limit [] = 0
young limit (t ∷ ts) = (if ltb t limit then 0 else 1) + young limit ts

old_le : (limit : Time) (ts : List Time) → old limit ts ≤ length ts
old_le limit [] = omega arith
old_le limit (t ∷ ts) = ground (arith, old_le limit ts)

none_young : (limit : Time) (ts : List Time) → All (λ t. t < limit) ts → young limit ts ≡ 0
none_young limit [] h = refl
none_young limit (t ∷ ts) h = ground (arith, none_young limit ts h.1, h.0)

all_gone : (limit : Time) (ts : List Time) → old limit ts ≡ 0 → young limit ts ≡ 0 → ts ≡ []
all_gone limit [] h k = refl
all_gone limit (t ∷ ts) h k = absurd (ground (arith, h, k))

cutoff_exact :
    (now : Time) (days : ℕ)
    → days ≤ 106_751
    → days * 86_400_000_000_000 ≤ now
    → cutoff now days ≡ now - days * 86_400_000_000_000
unfolding cutoff back
cutoff_exact now days h k = ground (arith, h, k)

cutoff_future : (now : Time) (days : ℕ) → 106_752 ≤ days → days ≤ 213_503 → now < cutoff now days
unfolding cutoff back
cutoff_future now days h k = ground (arith, h, k)

-- A table whose DELETE with a LIMIT does what its clauses say, and never fails.
pub record Table : Type 1 where
  pub State : Type 0
  pub delete_old : Time → ℕ → State → Option ℕ × State
  pub rows : State → List Time
  pub deletes :
      (limit : Time) (n : ℕ) (s : State)
      → (delete_old limit n s).0 ≡ some (min n (old limit (rows s)))
  pub leaves :
      (limit : Time) (n : ℕ) (s : State)
      → old limit (rows (delete_old limit n s).1) ≡ old limit (rows s) - n
  pub keeps :
      (limit : Time) (n : ℕ) (s : State)
      → young limit (rows (delete_old limit n s).1) ≡ young limit (rows s)

module _ (table : Table) where
  open table use {State, delete_old, rows, deletes, leaves, keeps}

  after_delete_lem :
      (x : Option ℕ × State) (n : ℕ) (more : State → Retained × State)
      → x.0 ≡ some n
      → after_delete delete_old x more
        ≡ (if ltb n retention_chunk then (finished, x.1) else more x.1)
  unfolding after_delete
  after_delete_lem (none, s) n more h = absurd (ground (arith, h))
  after_delete_lem (some m, s) n more h = ground (arith, h)

  retain_step :
      (rounds : ℕ) (limit : Time) (s : State)
      → retain delete_old (suc rounds) limit s ≡ (
          if ltb (min retention_chunk (old limit (rows s))) retention_chunk
          then (finished, (delete_old limit retention_chunk s).1)
          else retain delete_old rounds limit (delete_old limit retention_chunk s).1)
  unfolding retain
  retain_step rounds limit s =
      after_delete_lem (delete_old limit retention_chunk s) _ _ (deletes limit retention_chunk s)

  retain_ends :
      (rounds : ℕ) (limit : Time) (s : State)
      → old limit (rows s) < rounds * retention_chunk
      → ((retain delete_old rounds limit s).0 ≡ finished)
        × (old limit (rows (retain delete_old rounds limit s).1) ≡ 0)
        × (young limit (rows (retain delete_old rounds limit s).1) ≡ young limit (rows s))
  retain_ends zero limit s h = absurd (omega (arith, h))
  retain_ends (suc rounds) limit s h =
      let after = (delete_old limit retention_chunk s).1 in
      let gone = leaves limit retention_chunk s in
      elim (Bool-cases (ltb (min retention_chunk (old limit (rows s))) retention_chunk)) [
        | inl last ↦
            rw (retain_step rounds limit s)
              (rw last (refl, omega (arith, gone, ltb→lt _ _ last), keeps limit retention_chunk s))
        | inr more ↦
            let (done, none_old, same) =
              retain_ends rounds limit after (ground (arith, gone, h, more)) in
            rw (retain_step rounds limit s)
              (rw more (done, none_old, same ∙ keeps limit retention_chunk s))
      ]

  -- Over a table whose DELETE with a LIMIT never fails and deletes as its clauses say, asked for at most
  -- 106751 days, which do not reach before the earliest time: with as many rounds as chunks of expired
  -- rows, and one more, retention comes to an end, no row is left that was received more than that many
  -- days before now, and as many as were received later are left.
  pub retention_ends :
      (rounds : ℕ) (now : Time) (days : ℕ) (s : State)
      → days ≤ 106_751
      → days * 86_400_000_000_000 ≤ now
      → old (now - days * 86_400_000_000_000) (rows s) < rounds * retention_chunk
      → ((apply_retention delete_old rounds now days s).0 ≡ finished)
        × (old
              (now - days * 86_400_000_000_000)
              (rows (apply_retention delete_old rounds now days s).1)
            ≡ 0)
        × (young
              (now - days * 86_400_000_000_000)
              (rows (apply_retention delete_old rounds now days s).1)
            ≡ young (now - days * 86_400_000_000_000) (rows s))
  unfolding apply_retention
  retention_ends rounds now days s few past h =
      let same = cutoff_exact now days few past in
      rw same (retain_ends rounds (now - days * 86_400_000_000_000) s h)

  -- Over a table whose DELETE with a LIMIT never fails and deletes as its clauses say, asked for 106752 to
  -- 213503 days: if every row was received by now, and the rounds are enough for all rows, retention
  -- comes to an end with every row deleted.
  pub retention_wipes :
      (rounds : ℕ) (now : Time) (days : ℕ) (s : State)
      → 106_752 ≤ days
      → days ≤ 213_503
      → All (λ t. t ≤ now) (rows s)
      → length (rows s) < rounds * retention_chunk
      → ((apply_retention delete_old rounds now days s).0 ≡ finished)
        × (rows (apply_retention delete_old rounds now days s).1 ≡ [])
  unfolding apply_retention
  retention_wipes rounds now days s many few past h =
      let limit = cutoff now days in
      let later = cutoff_future now days many few in
      let (done, none_old, same) =
        retain_ends rounds limit s (omega (arith, h, old_le limit (rows s))) in
      (
        done,
        all_gone limit _ none_old (
            same
            ∙ none_young limit (rows s) (All-map (λ t e. omega (arith, e, later)) (rows s) past)),
      )
