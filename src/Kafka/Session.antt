-- ===== src/Kafka/Session.antt =====
-- internal/source/kafka/kafka.go: one consumer session of `StartPull`, `consumeUntilFailure`. The
-- poll loop and the committer are interleaved one event at a time. What `Intake.Offer` answered to
-- a message stands beside the message; what `Intake.Written` answers for a position, as long as the
-- session runs, is a parameter.
use netflow_collector.Base.{
  ℕ, suc, Bool, true, false, not, ◌&&◌, ◌||◌, Option, none, some, List, [], ◌∷◌, ◌++◌, length, ltb,
  if◌then◌else◌,
}

-- A message did not decode, or `Offer` returned a sequence number or an error.
pub data Outcome : Type 0 where
  poison : Outcome
  offered : ℕ → Outcome
  refused : Outcome

-- nil, ErrWriteFailed, or the end of the context
pub data Answer : Type 0 where
  durable write_failed interrupted : Answer

abbrev pub ack_backlog : ℕ
ack_backlog = 64

module _ (Message : Type 0) where
  abbrev pub Fetched : Type 0
  Fetched = Message × Outcome

  pub record PollAck : Type 0 where
    pub seq : ℕ
    pub records : List Fetched

  -- What the loop over one poll's records leaves: an acknowledgement, unless `stop`.
  pub record Polled : Type 0 where
    pub last : ℕ
    pub records : List Fetched
    pub stop : Bool

  pub record Session : Type 0 where
    pub cancelled : Bool  -- sessionCtx
    pub polling : Bool  -- the poll loop has not been left
    pub handing : Option PollAck  -- the loop is blocked in its send
    pub acks : List PollAck  -- the channel
    pub awaiting : Option PollAck  -- the committer is in `Written`
    pub committing : Bool  -- the committer has not returned
    pub failed : Bool
    pub committed : List Fetched  -- handed to CommitRecords, in order

  pub data Event : Type 0 where
    polls : List Fetched → Event
    hands_over : Event
    gives_up : Event
    takes : Event
    answered : Event
    ends : Event
    cancels : Event

module _ {Message : Type 0} where
  -- `fetches.EachRecord`: a record refused by the pipeline stops the loop.
  unfoldable pub each_record : ℕ → List (Fetched Message) → Polled Message
  each_record last [] = record { last = last; records = []; stop = false }
  each_record last ((m, poison) ∷ fs) =
      let rest = each_record last fs in record rest { records = (m, poison) ∷ rest.records }
  each_record last ((m, offered seq) ∷ fs) =
      let rest = each_record seq fs in record rest { records = (m, offered seq) ∷ rest.records }
  each_record last ((m, refused) ∷ fs) = record {
    last = last;
    records = (m, refused) ∷ [];
    stop = true;
  }

  -- `if len(records) == 0 { continue }`, or the acknowledgement to send
  unfoldable pub ack_of : ℕ → List (Fetched Message) → Option (PollAck Message)
  ack_of last [] = none
  ack_of last (r ∷ rs) = some (record { seq = last; records = r ∷ rs })

  -- One turn of the poll loop, up to the send.
  unfoldable pub poll_turn : List (Fetched Message) → Session Message → Session Message
  poll_turn fetches s =
      let polled = each_record 0 fetches in
      if s.cancelled || polled.stop
      then record s { polling = false }
      else record s { handing = ack_of polled.last polled.records }

  -- The select between the send, which needs room in the channel, and the end of the context: where
  -- both are ready, Go chooses either.
  unfoldable pub hand_over : PollAck Message → Session Message → Option (Session Message)
  hand_over ack s =
      if ltb (length s.acks) ack_backlog
      then some (record s { acks = s.acks ++ (ack ∷ []); handing = none })
      else none

  unfoldable pub give_up : Session Message → Option (Session Message)
  give_up s = if s.cancelled then some (record s { polling = false; handing = none }) else none

  -- What the committer does with the answer. A commit that fails is only logged.
  unfoldable pub conclude : Answer → PollAck Message → Session Message → Session Message
  conclude durable ack s = record s { awaiting = none; committed = s.committed ++ ack.records }
  conclude write_failed ack s = record s {
    awaiting = none;
    committing = false;
    failed = true;
    cancelled = true;
  }
  conclude interrupted ack s = record s { awaiting = none; committing = false; cancelled = true }

  unfoldable pub take_ack : List (PollAck Message) → Session Message → Option (Session Message)
  take_ack [] s = none
  take_ack (ack ∷ acks) s = some (record s { awaiting = some ack; acks = acks })

  -- The loop over the channel ends once it is closed and empty.
  unfoldable pub end_of : List (PollAck Message) → Session Message → Option (Session Message)
  end_of [] s = if s.polling then none else some (record s { committing = false })
  end_of (ack ∷ acks) s = none

  unfoldable pub initial : Session Message
  initial = record {
    cancelled = false;
    polling = true;
    handing = none;
    acks = [];
    awaiting = none;
    committing = true;
    failed = false;
    committed = [];
  }

  module _ (written : ℕ → Answer) where
    -- One event of a session; `none` where the event cannot happen.
    unfoldable pub step : Session Message → Event Message → Option (Session Message)
    step s (polls fetches) = elim s.handing [
      | some ack ↦ none
      | none ↦ if s.polling then some (poll_turn fetches s) else none
    ]
    step s hands_over = elim s.handing [ some ack ↦ hand_over ack s | none ↦ none ]
    step s gives_up = elim s.handing [ some ack ↦ give_up s | none ↦ none ]
    step s takes = elim s.awaiting [
      | some ack ↦ none
      | none ↦ if s.committing then take_ack s.acks s else none
    ]
    step s answered = elim s.awaiting [
      | some ack ↦ some (conclude (written ack.seq) ack s)
      | none ↦ none
    ]
    step s ends = elim s.awaiting [ some ack ↦ none | none ↦ end_of s.acks s ]
    step s cancels = some (record s { cancelled = true })

    unfoldable pub steps : Session Message → List (Event Message) → Option (Session Message)
    steps s [] = some s
    steps s (e ∷ es) = elim (step s e) [ none ↦ none | some t ↦ steps t es ]

  -- What the session returns once both loops have ended: whether `StartPull` starts another one.
  -- `ended` is whether the outer context has ended.
  unfoldable pub rewind : Bool → Session Message → Bool
  rewind ended s = s.failed && not ended

-- `StartPull`, by what each session returned: how many sessions run. One that asks for no rewind is
-- the last.
unfoldable pub start_pull : List Bool → ℕ
start_pull [] = 0
start_pull (true ∷ rewinds) = suc (start_pull rewinds)
start_pull (false ∷ rewinds) = 1
