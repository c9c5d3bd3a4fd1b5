-- ===== src/Kafka/Commits.antt =====
-- internal/source/kafka/kafka.go: what a session may commit.
use netflow_collector.Base.{ℕ, ◌≤◌, ◌≡◌, refl, ap, false, List, [], ◌∷◌, All, arith}
use netflow_collector.Kafka.Session.{poison, offered, refused, Fetched, each_record}

module _ {Message : Type 0} where
  -- Sequence numbers grow within a poll, from `last` on, as `Offer` gives them out.
  pub data Ascending : ℕ → List (Fetched Message) → Type 0 where
    none_left : {last : ℕ} → Ascending last []
    skips :
        {last : ℕ} {m : Message} {fs : List (Fetched Message)}
        → Ascending last fs
        → Ascending last ((m, poison) ∷ fs)
    grows :
        {last seq : ℕ} {m : Message} {fs : List (Fetched Message)}
        → last ≤ seq
        → Ascending seq fs
        → Ascending last ((m, offered seq) ∷ fs)
    stops :
        {last : ℕ} {m : Message} {fs : List (Fetched Message)} → Ascending last ((m, refused) ∷ fs)

  -- A message that `Offer` took lies at a position up to `n`; none was refused.
  pub data UpTo (n : ℕ) : Fetched Message → Type 0 where
    dropped : {m : Message} → UpTo n (m, poison)
    within : {m : Message} {seq : ℕ} → seq ≤ n → UpTo n (m, offered seq)

  -- The position that acknowledges a poll is not before any of its records.
  pub each_record-UpTo :
      (last : ℕ) (fs : List (Fetched Message))
      → Ascending last fs
      → (each_record last fs).stop ≡ false
      → (last ≤ (each_record last fs).last)
        × All (UpTo (each_record last fs).last) (each_record last fs).records
  unfolding each_record
  each_record-UpTo last [] a e = (omega arith, tt)
  each_record-UpTo last ((m, poison) ∷ fs) (skips a) e =
      let (h, k) = each_record-UpTo last fs a e in (h, (dropped, k))
  each_record-UpTo last ((m, offered seq) ∷ fs) (grows le a) e =
      let (h, k) = each_record-UpTo seq fs a e in (omega arith, (within h, k))
  each_record-UpTo last ((m, refused) ∷ fs) a e = ground arith

  -- Nothing is skipped: the records of a poll that did not stop are all its messages.
  pub each_record-records :
      (last : ℕ) (fs : List (Fetched Message))
      → (each_record last fs).stop ≡ false
      → (each_record last fs).records ≡ fs
  unfolding each_record
  each_record-records last [] e = refl
  each_record-records last ((m, poison) ∷ fs) e =
      ap (λ l. (m, poison) ∷ l) (each_record-records last fs e)
  each_record-records last ((m, offered seq) ∷ fs) e =
      ap (λ l. (m, offered seq) ∷ l) (each_record-records seq fs e)
  each_record-records last ((m, refused) ∷ fs) e = ground arith
