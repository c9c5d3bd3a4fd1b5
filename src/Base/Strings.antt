-- ===== src/Base/Strings.antt =====
-- Text as a list of codes where the program takes it apart: Go's strings.Split, strconv and fmt's `%d`.
use Prim.Native.Char.{code}
use Prim.Native.Nat.{ℕ, zero, suc, ◌+◌, ◌-◌, ◌*◌, ◌/◌, ◌%◌, ◌^◌, ◌<◌, ◌≤◌}
use Prim.Native.String.{String}
use mathlib.Core.Path.{◌≡◌, refl, ◌∙◌}
use mathlib.Core.Bool.{Bool, true, false, ◌||◌}
use mathlib.Core.Option.{Option, none, some}
use mathlib.Core.List.{List, [], ◌∷◌, ◌++◌}
use mathlib.Core.Logic.{◌≢◌}
use native.Mathlib.Omega.{arith}
use netflow_collector.Base.Tests.{ltb, ◌==◌, if◌then◌else◌}
use netflow_collector.Base.Preds.{All, All-map}

abbrev pub Text : Type 0
Text = List ℕ

-- The code points of a text: its bytes, if it is ASCII.
abbrev pub codes : String → Text
codes String.[] = []
codes (String.◌∷◌ c s) = code c ∷ codes s

abbrev pub equal : Text → Text → Bool
equal [] [] = true
equal [] (d ∷ t) = false
equal (c ∷ s) [] = false
equal (c ∷ s) (d ∷ t) = let rest = equal s t in if c == d then rest else false

abbrev put_first : ℕ → List Text → List Text
put_first c [] = (c ∷ []) ∷ []
put_first c (s ∷ ss) = (c ∷ s) ∷ ss

-- `strings.Split` by one character
unfoldable pub split : ℕ → Text → List Text
split sep [] = [] ∷ []
split sep (c ∷ s) = let rest = split sep s in if c == sep then [] ∷ rest else put_first c rest

abbrev pub Lacks : ℕ → Text → Type 0
Lacks sep = All λ c. (c == sep) ≡ false

pub split-Lacks : (sep : ℕ) (s : Text) → Lacks sep s → split sep s ≡ s ∷ []
unfolding split
split-Lacks sep [] h = refl
split-Lacks sep (c ∷ s) h = rw (h.0, split-Lacks sep s h.1) refl

pub split-append :
    (sep : ℕ) (s t : Text) → Lacks sep s → split sep (s ++ (sep ∷ t)) ≡ s ∷ split sep t
unfolding split
split-append sep [] t h = ground arith
split-append sep (c ∷ s) t h = rw (h.0, split-append sep s t h.1) refl

-- The number that digits spell behind `n`.
unfoldable pub scan : Text → ℕ → Option ℕ
scan [] n = some n
scan (c ∷ s) n =
    let rest = scan s (n * 10 + (c - b'0')) in if ltb c b'0' || ltb b'9' c then none else rest

abbrev within : ℕ → Option ℕ → Option ℕ
within bound none = none
within bound (some n) = if ltb n bound then some n else none

-- `strconv.ParseUint(s, 10, width)`
unfoldable pub parse_uint : ℕ → Text → Option ℕ
unfolding scan
parse_uint width [] = none
parse_uint width (c ∷ s) = within (2 ^ width) (scan (c ∷ s) 0)

-- The digits of a number below 10^rounds, before `out`.
unfoldable pub emit : ℕ → ℕ → Text → Text
emit zero n out = out
emit (suc rounds) n out =
    let more = emit rounds (n / 10) ((b'0' + n % 10) ∷ out) in
    if ltb n 10 then (b'0' + n) ∷ out else more

-- `%d` of a number of at most 64 bits
unfoldable pub decimal : ℕ → Text
unfolding emit
decimal n = emit 20 n []

scan-emit :
    (rounds n : ℕ) (out : Text)
    → n < 10 ^ suc rounds
    → scan (emit (suc rounds) n out) 0 ≡ scan out n
unfolding scan emit
scan-emit zero n out h = ground arith
scan-emit (suc rounds) n out h = ground (arith, scan-emit rounds (n / 10) ((b'0' + n % 10) ∷ out))

abbrev IsDigits : Text → Type 0
IsDigits = All λ c. (b'0' ≤ c) × (c ≤ b'9')

emit-IsDigits : (rounds n : ℕ) (out : Text) → IsDigits out → IsDigits (emit rounds n out)
unfolding emit
emit-IsDigits zero n out h = h
emit-IsDigits (suc rounds) n out h =
    ground (arith, emit-IsDigits rounds (n / 10) ((b'0' + n % 10) ∷ out))

emit-ne-nil : (rounds n : ℕ) (out : Text) → emit (suc rounds) n out ≢ []
unfolding emit
emit-ne-nil zero n out = ground arith
emit-ne-nil (suc rounds) n out = ground (arith, emit-ne-nil rounds (n / 10) ((b'0' + n % 10) ∷ out))

parse_uint_lem :
    (width : ℕ) (s : Text) → s ≢ [] → parse_uint width s ≡ within (2 ^ width) (scan s 0)
unfolding parse_uint
parse_uint_lem width [] h = absurd (h refl)
parse_uint_lem width (c ∷ s) h = refl

-- The print of a number of at most 64 bits is read back, in any width that it fits.
pub parse_uint-decimal :
    (width n : ℕ) → n < 2 ^ 64 → n < 2 ^ width → parse_uint width (decimal n) ≡ some n
unfolding decimal
parse_uint-decimal width n small fits =
    let read : scan (emit 20 n []) 0 ≡ some n =
      scan-emit 19 n [] (omega arith) ∙ (unfold scan in refl) in
    parse_uint_lem width (emit 20 n []) (emit-ne-nil 19 n []) ∙ rw read (ground arith)

-- A separator that is no digit is not in a print.
pub decimal-Lacks : (sep n : ℕ) → sep < b'0' → Lacks sep (decimal n)
unfolding decimal
decimal-Lacks sep n h = All-map (λ c d. ground arith) (emit 20 n []) (emit-IsDigits 20 n [] tt)
