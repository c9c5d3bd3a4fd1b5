-- ===== src/TemplateStore/Synced.antt =====
-- internal/templatestore/kafka.go: when the replay is over.
use netflow_collector.Base.{
  ℕ, zero, suc, ◌≡◌, refl, sym, ap, ◌∙◌, true, false, Option, none, some, List, [], ◌∷◌, ◌==◌,
  ==_iff, All, if◌then◌else◌, arith, Bool-cases, inl, inr, subst, map,
}
use netflow_collector.Base.Int.{ℤ, pos, negsuc}
use netflow_collector.Base.Assoc.{lookup, lookup-put}
use netflow_collector.TemplateStore.Remaining.{
  settled, all_settled, delivered, IsDistinct, left, IsCounted, lookup-take_all, take_all-IsCounted,
  sync_if_synced, sync_if_remaining, sync_if_applied, entry_of, take_all_applied,
  poll_fetches-delivered,
}
use netflow_collector.TemplateStore.{
  StoredRecord, Fetches, Watching, none_left, remember_end, remaining_of, begin, take_all, watch,
}

-- A positive end replaces what is known.
abbrev or_end : ℤ → Option ℕ → Option ℕ
or_end (pos zero) o = o
or_end (pos (suc n)) o = some (suc n)
or_end (negsuc n) o = o

-- The last positive end that is listed for a partition, or `o`.
abbrev end_of : ℕ → List (ℕ × ℤ) → Option ℕ → Option ℕ
end_of p [] o = o
end_of p ((q, z) ∷ ends) o = end_of p ends (if q == p then or_end z o else o)

lookup-remember_end :
    (p q : ℕ) (z : ℤ) (m : List (ℕ × ℕ))
    → lookup p (remember_end q z m) ≡ (if q == p then or_end z (lookup p m) else lookup p m)
unfolding remember_end
lookup-remember_end p q (pos zero) m = ground arith
lookup-remember_end p q (pos (suc n)) m = lookup-put q p (suc n) m
lookup-remember_end p q (negsuc n) m = ground arith

lookup-remaining_of :
    (p : ℕ) (ends : List (ℕ × ℤ)) (m : List (ℕ × ℕ))
    → lookup p (remaining_of ends m) ≡ end_of p ends (lookup p m)
unfolding remaining_of
lookup-remaining_of p [] m = refl
lookup-remaining_of p ((q, z) ∷ ends) m =
    lookup-remaining_of p ends (remember_end q z m)
    ∙ ap (end_of p ends) (lookup-remember_end p q z m)

end_of_absent :
    (p : ℕ) (ends : List (ℕ × ℤ)) (o : Option ℕ)
    → All (λ e. (e.0 == p) ≡ false) ends
    → end_of p ends o ≡ o
end_of_absent p [] o h = refl
end_of_absent p ((q, z) ∷ ends) o h = rw h.0 (end_of_absent p ends o h.1)

left-or_end :
    (p : ℕ) (z : ℤ) (rs : List StoredRecord) (o : Option ℕ)
    → settled p z rs ≡ true
    → left p rs o ≡ none
    → left p rs (or_end z o) ≡ none
left-or_end p (pos zero) rs o h k = k
left-or_end p (pos (suc n)) rs o h k = rw h refl
left-or_end p (negsuc n) rs o h k = k

-- If all is settled, nothing is left of any partition.
left-all_settled :
    (p : ℕ) (ends : List (ℕ × ℤ)) (rs : List StoredRecord) (o : Option ℕ)
    → all_settled ends rs ≡ true
    → left p rs o ≡ none
    → left p rs (end_of p ends o) ≡ none
unfolding all_settled
left-all_settled p [] rs o h k = k
left-all_settled p ((q, z) ∷ ends) rs o h k = elim (Bool-cases (q == p)) [
  | inl same ↦
      let head : settled p z rs ≡ true =
        subst (λ j. settled j z rs ≡ true) ((==_iff q p).0 same) (ground (arith, h)) in
      rw same
        (left-all_settled p ends rs (or_end z o) (ground (arith, h)) (left-or_end p z rs o head k))
  | inr apart ↦ rw apart (left-all_settled p ends rs o (ground (arith, h)) k)
]

settled_left :
    (p : ℕ) (z : ℤ) (rs : List StoredRecord)
    → left p rs (or_end z none) ≡ none
    → settled p z rs ≡ true
settled_left p (pos zero) rs h = refl
settled_left p (pos (suc n)) rs h = ground (arith, h)
settled_left p (negsuc n) rs h = refl

-- If nothing is left of any partition, all is settled.
all_settled-left :
    (ends : List (ℕ × ℤ)) (rs : List StoredRecord)
    → IsDistinct ends
    → ((p : ℕ) → left p rs (end_of p ends none) ≡ none)
    → all_settled ends rs ≡ true
unfolding all_settled
all_settled-left [] rs h k = refl
all_settled-left ((q, z) ∷ ends) rs h k =
    let head : settled q z rs ≡ true = settled_left q z rs (head_left (k q)) in
    rw (head, all_settled-left ends rs h.1 rest) refl
  where
    head_left : left q rs (end_of q ((q, z) ∷ ends) none) ≡ none → left q rs (or_end z none) ≡ none
    head_left e =
        let self : (q == q) ≡ true = (==_iff q q).1 refl in
        sym (rw self (ap (left q rs) (end_of_absent q ends (or_end z none) h.0))) ∙ e

    rest : (p : ℕ) → left p rs (end_of p ends none) ≡ none
    rest p = elim (Bool-cases (q == p)) [
      | inl same ↦
          subst (λ j. left j rs (end_of j ends none) ≡ none) ((==_iff q p).0 same)
            (rw (end_of_absent q ends none h.0) refl)
      | inr apart ↦ rw apart at (k p)
    ]

none_left-all_settled :
    (m : List (ℕ × ℕ)) (ends : List (ℕ × ℤ)) (rs : List StoredRecord)
    → IsDistinct ends
    → ((p : ℕ) → lookup p m ≡ left p rs (end_of p ends none))
    → none_left m ≡ all_settled ends rs
none_left-all_settled [] ends rs h k =
    sym (all_settled-left ends rs h λ p. sym (k p) ∙ (unfold lookup in refl))
none_left-all_settled ((p, n) ∷ m) ends rs h k = elim (Bool-cases (all_settled ends rs)) [
  | inl all ↦
      let gone : lookup p ((p, n) ∷ m) ≡ none = k p ∙ left-all_settled p ends rs none all refl in
      let self : (p == p) ≡ true = (==_iff p p).1 refl in
      absurd (unfold lookup in ground (arith, gone, self))
  | inr some_left ↦ sym some_left
]

begin_lem :
    (ends : List (ℕ × ℤ))
    → ((begin ends).applied ≡ [])
      × ((begin ends).remaining ≡ remaining_of ends [])
      × IsCounted (begin ends)
unfolding begin
begin_lem ends =
    let m = remaining_of ends [] in
    let w : Watching = record { remaining = m; applied = []; synced = 0 } in
    (
      sync_if_applied (none_left m) w,
      sync_if_remaining (none_left m) w,
      sync_if_synced (none_left m) w refl ∙ rw sync_if_remaining refl,
    )

-- If the end offsets could be listed, and no partition twice, then whatever is polled: each record
-- that is delivered before the watch ends is applied once and in order, and `synced` has been called
-- exactly once if every partition with a positive end has delivered a record at its end or behind
-- it, and not at all before.
pub watch_synced :
    (ends : List (ℕ × ℤ)) (ps : List Fetches)
    → IsDistinct ends
    → ((watch true (some ends) ps).1.applied ≡ map entry_of (delivered ps))
      × ((watch true (some ends) ps).1.synced ≡ (if all_settled ends (delivered ps) then 1 else 0))
unfolding watch lookup
watch_synced ends ps h =
    let (applied, remaining, counted) = begin_lem ends in
    let rs = delivered ps in
    let left_over : (p : ℕ)
        → lookup p (take_all (begin ends) rs).remaining ≡ left p rs (end_of p ends none) =
      λ p.
        lookup-take_all p rs (begin ends)
        ∙ ap (left p rs) (rw remaining (lookup-remaining_of p ends [])) in
    rw (poll_fetches-delivered ps (begin ends)) (
      take_all_applied rs (begin ends) ∙ rw applied refl,
      take_all-IsCounted rs (begin ends) counted
          ∙ rw (none_left-all_settled (take_all (begin ends) rs).remaining ends rs h left_over)
              refl,
    )
