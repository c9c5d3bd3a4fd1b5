-- ===== src/Base/Preds.antt =====
-- Predicates on lists by recursion, which the tactics read and build.
use mathlib.Core.Path.{◌≡◌, refl, sym, subst}
use mathlib.Core.List.{List, [], ◌∷◌, ◌++◌}

module _ {ℓ κ} {A : Type ℓ} where
  abbrev pub All : (A → Type κ) → List A → Type κ
  All P [] = Unit
  All P (x ∷ xs) = P x × All P xs

  -- Some element satisfies `P`; the element is kept.
  pub data Any (P : A → Type κ) : List A → Type (ℓ ⊔ κ) where
    here : {x : A} {xs : List A} → P x → Any P (x ∷ xs)
    there : {x : A} {xs : List A} → Any P xs → Any P (x ∷ xs)

  pub All-append : (P : A → Type κ) (xs ys : List A) → All P xs → All P ys → All P (xs ++ ys)
  All-append P [] ys hx hy = hy
  All-append P (x ∷ xs) ys hx hy = (hx.0, All-append P xs ys hx.1 hy)

module _ {ℓ κ μ} {A : Type ℓ} {P : A → Type κ} {Q : A → Type μ} where
  pub All-map : ((a : A) → P a → Q a) → (xs : List A) → All P xs → All Q xs
  All-map f [] h = tt
  All-map f (x ∷ xs) h = (f x h.0, All-map f xs h.1)

  pub Any-map : ((a : A) → P a → Q a) → {xs : List A} → Any P xs → Any Q xs
  Any-map f (here {x = x} p) = here (f x p)
  Any-map f (there h) = there (Any-map f h)

module _ {ℓ κ μ ν} {A : Type ℓ} {P : A → Type κ} {Q : A → Type μ} where
  pub All-zip :
      {R : A → Type ν}
      → ((a : A) → P a → Q a → R a)
      → (xs : List A) → All P xs
      → All Q xs
      → All R xs
  All-zip f [] h k = tt
  All-zip f (x ∷ xs) h k = (f x h.0 k.0, All-zip f xs h.1 k.1)

  pub Any-All : {R : Type ν} → ((a : A) → P a → Q a → R) → (xs : List A) → Any P xs → All Q xs → R
  Any-All f [] h k = elim h [ ]
  Any-All f (x ∷ xs) (here p) k = f x p k.0
  Any-All f (x ∷ xs) (there h) k = Any-All f xs h k.1

-- Membership that keeps the position.
abbrev pub In {ℓ} : {A : Type ℓ} → A → List A → Type ℓ
In a = Any λ x. a ≡ x

module _ {ℓ κ} {A : Type ℓ} {P : A → Type κ} where
  pub Any-witness : (xs : List A) → Any P xs → (x : A) × P x × In x xs
  Any-witness [] h = elim h [ ]
  Any-witness (x ∷ xs) (here p) = (x, p, here refl)
  Any-witness (x ∷ xs) (there h) = let (y, p, i) = Any-witness xs h in (y, p, there i)

module _ {ℓ κ} {A : Type ℓ} (P : A → Type κ) where
  pub All-In : {x : A} (xs : List A) → All P xs → In x xs → P x
  All-In [] h i = elim i [ ]
  All-In (y ∷ ys) h (here e) = subst P (sym e) h.0
  All-In (y ∷ ys) h (there i) = All-In ys h.1 i
