-- ===== src/Flow/AddrMap.antt =====
-- Go maps with netip.Addr keys, as association lists in which a key stands once.
use text.Mathlib.Text.{◌==◌ as str_eq}
use text.Mathlib.TextEquality.{eq_iff}
use netflow_collector.Base.{
  Bool, true, false, ◌&&◌, ◌≡◌, refl, ap, sym, subst, Option, none, some, List, [], ◌∷◌, ◌==◌,
  ==_iff, if◌then◌else◌, arith, Bool-cases, inl, inr,
}
use netflow_collector.Flow.Addr.{Addr, invalid}

-- `==` on addresses
unfoldable pub addr_eq : Addr → Addr → Bool
addr_eq invalid invalid = true
addr_eq (Addr.v4 a) (Addr.v4 b) = a == b
addr_eq (Addr.v6 a y) (Addr.v6 b z) = (a == b) && str_eq y z
addr_eq invalid (Addr.v4 b) = false
addr_eq invalid (Addr.v6 b z) = false
addr_eq (Addr.v4 a) invalid = false
addr_eq (Addr.v4 a) (Addr.v6 b z) = false
addr_eq (Addr.v6 a y) invalid = false
addr_eq (Addr.v6 a y) (Addr.v4 b) = false

pub addr_eq_sound : (a b : Addr) → addr_eq a b ≡ true → a ≡ b
unfolding addr_eq
addr_eq_sound invalid invalid e = refl
addr_eq_sound (Addr.v4 a) (Addr.v4 b) e = ap Addr.v4 ((==_iff a b).0 e)
addr_eq_sound (Addr.v6 a y) (Addr.v6 b z) e = elim (Bool-cases (a == b)) [
  | inl same ↦
      let zones : str_eq y z ≡ true = ground (arith, same) in
      subst (λ n. Addr.v6 a y ≡ Addr.v6 n z) ((==_iff a b).0 same)
        (ap (Addr.v6 a) ((eq_iff y z).0 zones))
  | inr differs ↦ absurd (ground (arith, differs))
]
addr_eq_sound invalid (Addr.v4 b) e = absurd (ground arith)
addr_eq_sound invalid (Addr.v6 b z) e = absurd (ground arith)
addr_eq_sound (Addr.v4 a) invalid e = absurd (ground arith)
addr_eq_sound (Addr.v4 a) (Addr.v6 b z) e = absurd (ground arith)
addr_eq_sound (Addr.v6 a y) invalid e = absurd (ground arith)
addr_eq_sound (Addr.v6 a y) (Addr.v4 b) e = absurd (ground arith)

pub addr_eq_refl : (a : Addr) → addr_eq a a ≡ true
unfolding addr_eq
addr_eq_refl invalid = refl
addr_eq_refl (Addr.v4 a) = (==_iff a a).1 refl
addr_eq_refl (Addr.v6 a y) = rw ((==_iff a a).1 refl, (eq_iff y y).1 refl) refl

pub differs_sym : (a b : Addr) → addr_eq a b ≡ false → addr_eq b a ≡ false
differs_sym a b e = elim (Bool-cases (addr_eq b a)) [
  | inl same ↦
      absurd (
        ground
          (arith, subst (λ c. addr_eq c b ≡ true) (addr_eq_sound b a same) (addr_eq_refl b), e))
  | inr differs ↦ differs
]

module _ {ℓ} {V : Type ℓ} where
  -- A Go map with addresses as keys.
  unfoldable pub find : Addr → List (Addr × V) → Option V
  find a [] = none
  find a ((b, v) ∷ m) = if addr_eq b a then some v else find a m

  unfoldable pub set : Addr → V → List (Addr × V) → List (Addr × V)
  set a v [] = (a, v) ∷ []
  set a v ((b, w) ∷ m) = let rest = set a v m in if addr_eq b a then (b, v) ∷ m else (b, w) ∷ rest

  pub find-set :
      (a c : Addr) (s : V) (m : List (Addr × V))
      → find a (set c s m) ≡ (if addr_eq c a then some s else find a m)
  unfolding find set
  find-set a c s [] = refl
  find-set a c s ((b, t) ∷ m) = elim (Bool-cases (addr_eq b c)) [
    | inl same ↦ rw (same, addr_eq_sound b c same) (ground arith)
    | inr differs ↦ elim (Bool-cases (addr_eq b a)) [
      | inl here ↦
          let apart : addr_eq c a ≡ false =
            rw (sym (addr_eq_sound b a here)) (differs_sym b c differs) in
          rw (differs, here, apart) refl
      | inr there ↦ rw (differs, there) (find-set a c s m)
    ]
  ]
