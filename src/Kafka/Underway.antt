-- ===== src/Kafka/Underway.antt =====
-- internal/source/kafka/kafka.go: the messages between a poll and its commit.
use netflow_collector.Base.{
  ℕ, ◌≡◌, refl, ap, sym, ◌∙◌, false, Option, none, some, List, [], ◌∷◌, ◌++◌, All, append-nil,
  append_assoc,
}
use netflow_collector.Kafka.Session.{
  Fetched, PollAck, Session, Event, polls, hands_over, gives_up, takes, answered, ends, cancels,
  ack_of,
}
use netflow_collector.Kafka.Commits.{Ascending, UpTo}

module _ {Message : Type 0} where
  unfoldable pub records_of : Option (PollAck Message) → List (Fetched Message)
  records_of none = []
  records_of (some ack) = ack.records

  unfoldable pub queued : List (PollAck Message) → List (Fetched Message)
  queued [] = []
  queued (ack ∷ acks) = ack.records ++ queued acks

  pub queued-append :
      (xs : List (PollAck Message)) (ack : PollAck Message)
      → queued (xs ++ (ack ∷ [])) ≡ queued xs ++ ack.records
  unfolding queued
  queued-append [] ack = append-nil ack.records
  queued-append (x ∷ xs) ack =
      rw (queued-append xs ack, append_assoc x.records (queued xs) ack.records) refl

  -- The messages on their way from the poll to the commit, oldest first.
  unfoldable pub underway : Session Message → List (Fetched Message)
  unfolding records_of queued
  underway s = records_of s.awaiting ++ (queued s.acks ++ records_of s.handing)

  unfoldable pub IsGood : PollAck Message → Type 0
  IsGood ack = All (UpTo ack.seq) ack.records

  unfoldable pub Holds : Option (PollAck Message) → Type 0
  unfolding IsGood
  Holds none = Unit
  Holds (some ack) = IsGood ack

  -- A prefix of what was fetched.
  abbrev pub IsPrefix : List (Fetched Message) → List (Fetched Message) → Type 0
  IsPrefix xs ys = (rest : List (Fetched Message)) × (xs ++ rest ≡ ys)

  -- The messages that a run polled.
  unfoldable pub fetched : List (Event Message) → List (Fetched Message)
  fetched [] = []
  fetched (polls fs ∷ es) = fs ++ fetched es
  fetched (hands_over ∷ es) = fetched es
  fetched (gives_up ∷ es) = fetched es
  fetched (takes ∷ es) = fetched es
  fetched (answered ∷ es) = fetched es
  fetched (ends ∷ es) = fetched es
  fetched (cancels ∷ es) = fetched es

  -- `Offer` gives growing positions within each poll.
  unfoldable pub AllAscending : List (Event Message) → Type 0
  AllAscending [] = Unit
  AllAscending (polls fs ∷ es) = Ascending 0 fs × AllAscending es
  AllAscending (hands_over ∷ es) = AllAscending es
  AllAscending (gives_up ∷ es) = AllAscending es
  AllAscending (takes ∷ es) = AllAscending es
  AllAscending (answered ∷ es) = AllAscending es
  AllAscending (ends ∷ es) = AllAscending es
  AllAscending (cancels ∷ es) = AllAscending es

  pub ack_of-records : (last : ℕ) (rs : List (Fetched Message)) → records_of (ack_of last rs) ≡ rs
  unfolding ack_of records_of
  ack_of-records last [] = refl
  ack_of-records last (r ∷ rs) = refl

  pub ack_of-Holds :
      (last : ℕ) (rs : List (Fetched Message)) → All (UpTo last) rs → Holds (ack_of last rs)
  unfolding ack_of Holds IsGood
  ack_of-Holds last [] h = tt
  ack_of-Holds last (r ∷ rs) h = h

  pub longer :
      (xs : List (Fetched Message)) {ys : List (Fetched Message)} (zs : List (Fetched Message))
      → IsPrefix xs ys
      → IsPrefix xs (ys ++ zs)
  longer xs zs (rest, e) = (rest ++ zs, sym (append_assoc xs rest zs) ∙ ap (λ l. l ++ zs) e)

  -- How each move changes what is underway.
  pub poll_flow :
      (s : Session Message) (last : ℕ) (fs : List (Fetched Message))
      → s.handing ≡ none
      → s.committed ++ underway (record s { handing = ack_of last fs })
        ≡ (s.committed ++ underway s) ++ fs
  unfolding underway records_of
  poll_flow s last fs e = rw (e, ack_of-records last fs) (simp (append_assoc, append-nil))

  pub send_flow :
      (s : Session Message) (ack : PollAck Message)
      → s.handing ≡ some ack
      → underway (record s { acks = s.acks ++ (ack ∷ []); handing = none }) ≡ underway s
  unfolding underway records_of
  send_flow s ack e = rw (e, queued-append s.acks ack) (simp (append_assoc, append-nil))

  pub drop_flow :
      (s : Session Message) (ack : PollAck Message)
      → s.handing ≡ some ack
      → (s.committed ++ underway (record s { polling = false; handing = none })) ++ ack.records
        ≡ s.committed ++ underway s
  unfolding underway records_of
  drop_flow s ack e = rw e (simp (append_assoc, append-nil))

  pub take_flow :
      (s : Session Message) (ack : PollAck Message) (acks : List (PollAck Message))
      → s.acks ≡ ack ∷ acks
      → s.awaiting ≡ none
      → underway (record s { awaiting = some ack; acks = acks }) ≡ underway s
  unfolding underway records_of queued
  take_flow s ack acks e n = rw (e, n) (simp append_assoc)

  pub commit_flow :
      (s : Session Message) (ack : PollAck Message)
      → s.awaiting ≡ some ack
      → (s.committed ++ ack.records)
          ++ underway (record s { awaiting = none; committed = s.committed ++ ack.records })
        ≡ s.committed ++ underway s
  unfolding underway records_of
  commit_flow s ack e = rw e (simp append_assoc)

  pub cut :
      (xs ys : List (Fetched Message)) {f : List (Fetched Message)}
      → IsPrefix (xs ++ ys) f
      → IsPrefix xs f
  cut xs ys (rest, e) = (ys ++ rest, sym (append_assoc xs ys rest) ∙ e)

  pub all_of : {xs f : List (Fetched Message)} → xs ≡ f → IsPrefix xs f
  all_of {xs} e = ([], append-nil xs ∙ e)
