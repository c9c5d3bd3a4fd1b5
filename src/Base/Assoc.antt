-- ===== src/Base/Assoc.antt =====
-- A Go map with integer keys, as an association list in which the last write wins.
use Prim.Native.Nat.{ℕ, suc, ◌≤◌, ◌<◌}
use mathlib.Core.Path.{◌≡◌, subst}
use mathlib.Core.Logic.{inl, inr}
use mathlib.Core.Bool.{Bool, true}
use mathlib.Core.Option.{Option, none, some}
use mathlib.Core.List.{List, [], ◌∷◌}
use native.Mathlib.Omega.{arith}
use netflow_collector.Base.Tests.{◌==◌, if◌then◌else◌, Bool-cases, ==_iff}
use netflow_collector.Base.Lists.{length}
use netflow_collector.Base.Preds.{All}

module _ {ℓ} {V : Type ℓ} where
  unfoldable pub lookup : ℕ → List (ℕ × V) → Option V
  lookup k [] = none
  lookup k ((j, v) ∷ m) = if j == k then some v else lookup k m

  unfoldable pub delete : ℕ → List (ℕ × V) → List (ℕ × V)
  delete k [] = []
  delete k ((j, v) ∷ m) = let rest = delete k m in if j == k then rest else (j, v) ∷ rest

  unfoldable pub put : ℕ → V → List (ℕ × V) → List (ℕ × V)
  unfolding delete
  put k v m = (k, v) ∷ delete k m

  pub lookup-delete :
      (k j : ℕ) (m : List (ℕ × V)) → lookup j (delete k m) ≡ (if k == j then none else lookup j m)
  unfolding lookup delete
  lookup-delete k j [] = ground arith
  lookup-delete k j ((i, v) ∷ m) = ground (arith, lookup-delete k j m)

  pub lookup-put :
      (k j : ℕ) (v : V) (m : List (ℕ × V))
      → lookup j (put k v m) ≡ (if k == j then some v else lookup j m)
  unfolding put lookup
  lookup-put k j v m = ground (arith, lookup-delete k j m)

  length-delete-le : (k : ℕ) (m : List (ℕ × V)) → length (delete k m) ≤ length m
  unfolding delete
  length-delete-le k [] = omega arith
  length-delete-le k ((j, v) ∷ m) = ground (arith, length-delete-le k m)

  pub length-delete-lt :
      (k : ℕ) (m : List (ℕ × V)) {v : V} → lookup k m ≡ some v → length (delete k m) < length m
  unfolding delete lookup
  length-delete-lt k [] h = ground arith
  length-delete-lt k ((j, w) ∷ m) {v} h =
      ground (arith, length-delete-le k m, length-delete-lt k m {v = v})

  pub length-put-le : (k : ℕ) (v : V) (m : List (ℕ × V)) → length (put k v m) ≤ suc (length m)
  unfolding put
  length-put-le k v m = omega (arith, length-delete-le k m)

some_of_test {ℓ} :
    {V : Type ℓ} (b : Bool) (o : Option V) {w v : V}
    → b ≡ true
    → (if b then some w else o) ≡ some v
    → w ≡ v
some_of_test b o e h = ground arith

module _ {ℓ κ} {V : Type ℓ} (P : ℕ × V → Type κ) where
  pub All-delete : (k : ℕ) (m : List (ℕ × V)) → All P m → All P (delete k m)
  unfolding delete
  All-delete k [] h = tt
  All-delete k ((j, v) ∷ m) h = elim (Bool-cases (j == k)) [
    | inl e ↦ rw e (All-delete k m h.1)
    | inr e ↦ rw e (h.0, All-delete k m h.1)
  ]

  pub All-lookup : (k : ℕ) (m : List (ℕ × V)) {v : V} → lookup k m ≡ some v → All P m → P (k, v)
  unfolding lookup
  All-lookup k [] h a = absurd (ground arith)
  All-lookup k ((j, w) ∷ m) {v} h a = elim (Bool-cases (j == k)) [
    | inl e ↦
        subst (λ i. P (i, v)) ((==_iff j k).0 e)
          (subst (λ u. P (j, u)) (some_of_test (j == k) (lookup k m) e h) a.0)
    | inr e ↦ All-lookup k m (rw e at h) a.1
  ]
