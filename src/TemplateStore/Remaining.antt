-- ===== src/TemplateStore/Remaining.antt =====
-- internal/templatestore/kafka.go: what `remaining` holds after some records.
use netflow_collector.Base.{
  ℕ, zero, suc, ◌+◌, ◌≡◌, refl, sym, ap, ◌∙◌, Bool, true, false, ◌&&◌, Option, none, some, List, [],
  ◌∷◌, ◌++◌, append-nil, append_assoc, leb, ◌==◌, All, if◌then◌else◌, arith, Bool-cases, inl, inr,
  subst, ==_iff, Text, map,
}
use netflow_collector.Base.Int.{ℤ, pos, negsuc}
use netflow_collector.Base.Assoc.{lookup, delete, lookup-delete}
use netflow_collector.TemplateStore.{
  StoredRecord, Fetches, all_canceled, Watching, none_left, sync_if, finish, reach, take_stored,
  take_all, poll_fetches,
}

-- Some record of the partition lies at the end or behind it.
unfoldable pub reached : ℕ → ℕ → List StoredRecord → Bool
reached p n [] = false
reached p n (r ∷ rs) =
    let rest = reached p n rs in
    if r.partition == p then if leb n (r.offset + 1) then true else rest else rest

-- The partition has nothing to replay, or its end was reached.
abbrev pub settled : ℕ → ℤ → List StoredRecord → Bool
settled p (pos zero) rs = true
settled p (pos (suc n)) rs = reached p (suc n) rs
settled p (negsuc n) rs = true

unfoldable pub all_settled : List (ℕ × ℤ) → List StoredRecord → Bool
all_settled [] rs = true
all_settled ((p, z) ∷ ends) rs = settled p z rs && all_settled ends rs

-- The records that the polls deliver before the watch ends.
unfoldable pub delivered : List Fetches → List StoredRecord
delivered [] = []
delivered (p ∷ ps) =
    let rest = p.records ++ delivered ps in
    if p.ended then [] else if all_canceled p.canceled then rest else []

-- No partition is listed twice.
abbrev pub IsDistinct : List (ℕ × ℤ) → Type 0
IsDistinct [] = Unit
IsDistinct ((p, z) ∷ ends) = All (λ e. (e.0 == p) ≡ false) ends × IsDistinct ends

-- What is left of an end offset after some records.
abbrev pub left : ℕ → List StoredRecord → Option ℕ → Option ℕ
left p rs none = none
left p rs (some n) = if reached p n rs then none else some n

abbrev pub IsCounted : Watching → Type 0
IsCounted w = w.synced ≡ (if none_left w.remaining then 1 else 0)

pub sync_if_remaining : (b : Bool) (w : Watching) → (sync_if b w).remaining ≡ w.remaining
unfolding sync_if
sync_if_remaining true w = refl
sync_if_remaining false w = refl

pub sync_if_applied : (b : Bool) (w : Watching) → (sync_if b w).applied ≡ w.applied
unfolding sync_if
sync_if_applied true w = refl
sync_if_applied false w = refl

pub sync_if_synced :
    (b : Bool) (w : Watching) → w.synced ≡ 0 → (sync_if b w).synced ≡ (if b then 1 else 0)
unfolding sync_if
sync_if_synced true w h = ap suc h
sync_if_synced false w h = h

finish_remaining : (p : ℕ) (w : Watching) → (finish p w).remaining ≡ delete p w.remaining
unfolding finish
finish_remaining p w = sync_if_remaining _ _

lookup-finish :
    (p j : ℕ) (w : Watching)
    → lookup j (finish p w).remaining ≡ (if p == j then none else lookup j w.remaining)
lookup-finish p j w = rw finish_remaining (lookup-delete p j w.remaining)

reach_own :
    (r : StoredRecord) (w : Watching) (o : Option ℕ)
    → lookup r.partition w.remaining ≡ o
    → lookup r.partition (reach r w o).remaining ≡ left r.partition (r ∷ []) o
unfolding reached
reach_own r w none h = h
reach_own r w (some n) h = ground (arith, lookup-finish r.partition r.partition w)

reach_other :
    (p : ℕ) (r : StoredRecord) (w : Watching) (o : Option ℕ)
    → (r.partition == p) ≡ false
    → lookup p (reach r w o).remaining ≡ lookup p w.remaining
reach_other p r w none h = refl
reach_other p r w (some n) h = ground (arith, lookup-finish r.partition p w)

left_other :
    (p : ℕ) (r : StoredRecord) (o : Option ℕ) → (r.partition == p) ≡ false → left p (r ∷ []) o ≡ o
unfolding reached
left_other p r none h = refl
left_other p r (some n) h = ground arith

lookup-take :
    (p : ℕ) (r : StoredRecord) (w : Watching)
    → lookup p (take_stored w r).remaining ≡ left p (r ∷ []) (lookup p w.remaining)
unfolding take_stored
lookup-take p r w =
    let v = record w { applied = w.applied ++ ((r.key, r.value) ∷ []) } in
    elim (Bool-cases (r.partition == p)) [
      | inl same ↦
          subst
            (λ j.
              lookup j (reach r v (lookup r.partition w.remaining)).remaining
              ≡ left j (r ∷ []) (lookup j w.remaining))
            ((==_iff r.partition p).0 same) (reach_own r v (lookup r.partition w.remaining) refl)
      | inr apart ↦
          reach_other p r v (lookup r.partition w.remaining) apart
          ∙ sym (left_other p r (lookup p w.remaining) apart)
    ]

left_cons :
    (p : ℕ) (r : StoredRecord) (rs : List StoredRecord) (o : Option ℕ)
    → left p rs (left p (r ∷ []) o) ≡ left p (r ∷ rs) o
unfolding reached
left_cons p r rs none = refl
left_cons p r rs (some n) = ground arith

left_nil : (p : ℕ) (o : Option ℕ) → left p [] o ≡ o
unfolding reached
left_nil p none = refl
left_nil p (some n) = refl

pub lookup-take_all :
    (p : ℕ) (rs : List StoredRecord) (w : Watching)
    → lookup p (take_all w rs).remaining ≡ left p rs (lookup p w.remaining)
unfolding take_all
lookup-take_all p [] w = sym (left_nil p (lookup p w.remaining))
lookup-take_all p (r ∷ rs) w =
    lookup-take_all p rs (take_stored w r)
    ∙ ap (left p rs) (lookup-take p r w)
    ∙ left_cons p r rs (lookup p w.remaining)

no_lookup : (p : ℕ) (m : List (ℕ × ℕ)) {n : ℕ} → lookup p m ≡ some n → none_left m ≡ false
unfolding lookup
no_lookup p [] h = absurd (ground arith)
no_lookup p (x ∷ m) h = refl

finish-IsCounted :
    (p n : ℕ) (w : Watching) → lookup p w.remaining ≡ some n → IsCounted w → IsCounted (finish p w)
unfolding finish
finish-IsCounted p n w h k =
    let m = delete p w.remaining in
    sync_if_synced (none_left m) (record w { remaining = m })
      (k ∙ rw (no_lookup p w.remaining h) refl)
    ∙ rw sync_if_remaining refl

reach-IsCounted :
    (r : StoredRecord) (w : Watching) (o : Option ℕ)
    → lookup r.partition w.remaining ≡ o
    → IsCounted w
    → IsCounted (reach r w o)
reach-IsCounted r w none h k = k
reach-IsCounted r w (some n) h k = elim (Bool-cases (leb n (r.offset + 1))) [
  | inl e ↦ rw e (finish-IsCounted r.partition n w h k)
  | inr e ↦ rw e k
]

pub take_all-IsCounted :
    (rs : List StoredRecord) (w : Watching) → IsCounted w → IsCounted (take_all w rs)
unfolding take_all take_stored
take_all-IsCounted [] w h = h
take_all-IsCounted (r ∷ rs) w h =
    take_all-IsCounted rs _ (reach-IsCounted r _ (lookup r.partition w.remaining) refl h)

reach_applied : (r : StoredRecord) (w : Watching) (o : Option ℕ) → (reach r w o).applied ≡ w.applied
unfolding finish
reach_applied r w none = refl
reach_applied r w (some n) = ground (
  arith,
  sync_if_applied (none_left (delete r.partition w.remaining))
      (record w { remaining = delete r.partition w.remaining }),
)

abbrev pub entry_of : StoredRecord → Text × Text
entry_of r = (r.key, r.value)

pub take_all_applied :
    (rs : List StoredRecord) (w : Watching) → (take_all w rs).applied ≡ w.applied ++ map entry_of rs
unfolding take_all take_stored
take_all_applied [] w = sym (append-nil w.applied)
take_all_applied (r ∷ rs) w =
    take_all_applied rs _
    ∙ rw reach_applied (append_assoc w.applied (entry_of r ∷ []) (map entry_of rs))

take_all-append :
    (rs ss : List StoredRecord) (w : Watching) → take_all w (rs ++ ss) ≡ take_all (take_all w rs) ss
unfolding take_all
take_all-append [] ss w = refl
take_all-append (r ∷ rs) ss w = take_all-append rs ss (take_stored w r)

-- Polling is taking the records that are delivered.
pub poll_fetches-delivered :
    (ps : List Fetches) (w : Watching) → (poll_fetches ps w).1 ≡ take_all w (delivered ps)
unfolding poll_fetches delivered
poll_fetches-delivered [] w = unfold take_all in refl
poll_fetches-delivered (p ∷ ps) w =
    let nothing : take_all w [] ≡ w = unfold take_all in refl in
    ground (
      arith,
      nothing,
      poll_fetches-delivered ps (take_all w p.records),
      take_all-append p.records (delivered ps) w,
    )
