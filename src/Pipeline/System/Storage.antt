-- ===== src/Pipeline/System/Storage.antt =====
-- pipeline.go, `write`: what the sinks hold after a batch.
use netflow_collector.Base.{
  ◌≤◌, ◌<◌, ◌≡◌, ◌↔◌, refl, Bool, true, false, List, [], ◌∷◌, ◌++◌, length, map, All, here, there,
  In, All-map, arith,
}
use netflow_collector.Pipeline.Batcher.{succeeded, write}
use netflow_collector.Pipeline.System.{SinkResult, wrote, rejected, is_ok, stored_by, store}

succeeded-le : (xs : List Bool) → succeeded xs ≤ length xs
unfolding succeeded
succeeded-le [] = omega arith
succeeded-le (true ∷ xs) = omega (arith, succeeded-le xs)
succeeded-le (false ∷ xs) = omega (arith, succeeded-le xs)

succeeded_all : (xs : List Bool) → succeeded xs ≡ length xs → All (λ b. b ≡ true) xs
unfolding succeeded
succeeded_all [] h = tt
succeeded_all (true ∷ xs) h = (refl, succeeded_all xs (omega arith))
succeeded_all (false ∷ xs) h = absurd (omega (arith, succeeded-le xs))

all_succeeded : (xs : List Bool) → All (λ b. b ≡ true) xs → succeeded xs ≡ length xs
unfolding succeeded
all_succeeded [] h = refl
all_succeeded (true ∷ xs) h = omega (arith, all_succeeded xs h.1)
all_succeeded (false ∷ xs) h = absurd (ground (arith, h.0))

-- `write` reports success exactly when there is a sink and every sink succeeded.
pub write_iff :
    (results : List Bool)
    → ((write results).all_succeeded ≡ true) ↔ ((0 < length results) × All (λ b. b ≡ true) results)
unfolding write
write_iff results = (
  (λ h. (ground (arith, succeeded-le results), succeeded_all results (ground arith))),
  (λ h. ground (arith, h.0, all_succeeded results h.1)),
)

-- Each sink holds each record.
abbrev pub Holds : {R : Type 0} → List R → List (List R) → Type 0
Holds records logs = All (λ log. All (λ r. In r log) records) logs

module _ {R : Type 0} where
  In-left : {r : R} (xs ys : List R) → In r xs → In r (xs ++ ys)
  In-left [] ys i = elim i [ ]
  In-left (x ∷ xs) ys (here e) = here e
  In-left (x ∷ xs) ys (there i) = there (In-left xs ys i)

  All-In_right : (xs records : List R) → All (λ r. In r (xs ++ records)) records
  All-In_right xs records = shift records (own records)
    where
      right : (r : R) (zs : List R) → In r records → In r (zs ++ records)
      right r [] i = i
      right r (z ∷ zs) i = there (right r zs i)

      own : (zs : List R) → All (λ r. In r zs) zs
      own [] = tt
      own (z ∷ zs) = (here refl, All-map (λ r i. there i) zs (own zs))

      shift : (zs : List R) → All (λ r. In r records) zs → All (λ r. In r (xs ++ records)) zs
      shift zs h = All-map (λ r i. right r xs i) zs h

  pub Holds-store_old :
      (results : List (SinkResult R)) (new old : List R) (logs : List (List R))
      → Holds old logs
      → Holds old (store results new logs)
  unfolding store
  Holds-store_old [] new old logs h = h
  Holds-store_old (x ∷ xs) new old [] h = tt
  Holds-store_old (x ∷ xs) new old (log ∷ logs) h = (
    All-map (λ r i. In-left log (stored_by x new) i) old h.0,
    Holds-store_old xs new old logs h.1,
  )

  pub Holds-store_new :
      (results : List (SinkResult R)) (new : List R) (logs : List (List R))
      → length results ≡ length logs
      → All (λ b. b ≡ true) (map is_ok results)
      → Holds new (store results new logs)
  unfolding store
  Holds-store_new [] new [] e h = tt
  Holds-store_new [] new (log ∷ logs) e h = absurd (omega arith)
  Holds-store_new (x ∷ xs) new [] e h = tt
  Holds-store_new (wrote ∷ xs) new (log ∷ logs) e h =
      (All-In_right log new, Holds-store_new xs new logs (omega arith) h.1)
  Holds-store_new (rejected kept ∷ xs) new (log ∷ logs) e h = absurd (ground (arith, h.0))

  pub length-store :
      (results : List (SinkResult R)) (new : List R) (logs : List (List R))
      → length (store results new logs) ≡ length logs
  unfolding store
  length-store [] new logs = refl
  length-store (x ∷ xs) new [] = refl
  length-store (x ∷ xs) new (log ∷ logs) = omega (arith, length-store xs new logs)
