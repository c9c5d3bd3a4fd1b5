-- ===== src/Pipeline/System.antt =====
-- internal/pipeline/pipeline.go: `Run`, its workers, the sources that offer and the waiters, as
-- steps that interleave in any order. An action names the goroutine that moves; `none` says that
-- it cannot move there. `taken_in`, `handed_off` and `history` only record what happened: the records
-- that entered the buffer and the batches that went to workers, in order, and the calls of the
-- watermark's methods.
pub mod Move
pub mod Bounds
pub mod Order
pub mod Storage
pub mod Links
pub mod Durable
pub mod AtLeastOnce
pub mod OneWorker
use netflow_collector.Base.{
  ℕ, zero, suc, ◌+◌, Bool, true, false, ◌&&◌, not, ◌||◌, Option, none, some, List, [], ◌∷◌, ◌++◌,
  map, length, leb, ltb, ◌==◌, if◌then◌else◌,
}
use netflow_collector.Pipeline.Watermark.{Span, Watermark, Change, completes, closes, polls, change}
use netflow_collector.Pipeline.Buffer.{
  Pipeline, IntakeResult, accepted, refused_closing, context_ended, must_wait, offer, intake_turn,
}
use netflow_collector.Pipeline.Batcher.{Batch, Batcher, idle, take_record, receive, flush, write}

pub data Phase : Type 0 where
  running draining finishing stopped : Phase

pub record System (R : Type 0) : Type 0 where
  pub pipe : Pipeline R
  pub batcher : Batcher R
  pub phase : Phase
  pub inflight : List (Batch R)
  pub stored : List (List R)
  pub taken_in : List R
  pub handed_off : List (Batch R)
  pub history : List Change

-- What one sink did with a batch. A sink that fails may have stored some records all the same.
pub data SinkResult (R : Type 0) : Type 0 where
  wrote : SinkResult R
  rejected : List R → SinkResult R

pub data Action (R : Type 0) : Type 0 where
  offers : R → Action R
  pulls : R → Action R
  takes : Action R
  flushes : Action R
  ticks : Action R
  cancels : Action R
  drains : Action R
  finishes : ℕ → List (SinkResult R) → Action R
  awaits : ℕ → Action R
  stops : Action R

abbrev pub is_running : Phase → Bool
is_running running = true
is_running _ = false

abbrev pub is_draining : Phase → Bool
is_draining draining = true
is_draining _ = false

abbrev pub is_finishing : Phase → Bool
is_finishing finishing = true
is_finishing _ = false

abbrev pub is_nil : {A : Type 0} → List A → Bool
is_nil [] = true
is_nil (x ∷ xs) = false

module _ {R : Type 0} where
  abbrev pub is_ok : SinkResult R → Bool
  is_ok wrote = true
  is_ok (rejected kept) = false

  abbrev pub stored_by : SinkResult R → List R → List R
  stored_by wrote records = records
  stored_by (rejected kept) records = kept

  -- What the sinks hold after a batch.
  unfoldable pub store : List (SinkResult R) → List R → List (List R) → List (List R)
  store [] records logs = logs
  store (x ∷ xs) records [] = []
  store (x ∷ xs) records (log ∷ logs) = (log ++ stored_by x records) ∷ store xs records logs

  unfoldable pub batch_at : ℕ → List (Batch R) → Option (Batch R)
  batch_at i [] = none
  batch_at zero (b ∷ bs) = some b
  batch_at (suc i) (b ∷ bs) = batch_at i bs

  unfoldable pub remove_at : ℕ → List (Batch R) → List (Batch R)
  remove_at i [] = []
  remove_at zero (b ∷ bs) = bs
  remove_at (suc i) (b ∷ bs) = b ∷ remove_at i bs

  -- The send on `batches` by `flush`, which waits until a worker receives.
  pub hand_over : System R → Phase → Batcher R × Option (Batch R) → Option (System R)
  hand_over s next (b, none) = some (record s { batcher = b; phase = next })
  hand_over s next (b, some batch) =
      if ltb (length s.inflight) s.pipe.workers
      then some (record s {
        batcher = b;
        phase = next;
        inflight = s.inflight ++ batch ∷ [];
        handed_off = s.handed_off ++ batch ∷ [];
      })
      else none

  -- A full batch is flushed before the batcher does anything else.
  abbrev pub has_room : System R → Bool
  has_room s = ltb (length s.batcher.pending) s.pipe.batch_size

  abbrev pub record_change : System R → Change → System R
  record_change s c = record s {
    pipe = record (s.pipe) { wm = change s.pipe.wm c };
    history = s.history ++ c ∷ [];
  }

  pub after_offer : System R → R → Pipeline R × Bool → System R
  after_offer s r (p, true) = record s { pipe = p; taken_in = s.taken_in ++ r ∷ [] }
  after_offer s r (p, false) = record s { pipe = p }

  pub after_pull : System R → R → Pipeline R × IntakeResult → System R
  after_pull s r (p, accepted seq) = record s { pipe = p; taken_in = s.taken_in ++ r ∷ [] }
  after_pull s r (p, refused_closing) = record s { pipe = p }
  after_pull s r (p, context_ended) = record s { pipe = p }
  after_pull s r (p, must_wait) = record s { pipe = p }

  pub take_head : System R → List R → Option (System R)
  take_head s [] = none
  take_head s (r ∷ rest) =
      some (record s { batcher = take_record s.batcher r; pipe = receive s.pipe rest })

  pub finish : System R → ℕ → List (SinkResult R) → Option (Batch R) → Option (System R)
  finish s i results none = none
  finish s i results (some b) =
      if length results == s.pipe.sinks
      then some (
          record_change
            (record s {
              inflight = remove_at i s.inflight;
              stored = store results b.records s.stored;
            })
            (completes b.range (write (map is_ok results)).all_succeeded))
      else none

  unfoldable pub step : System R → Action R → Option (System R)
  unfolding after_offer after_pull take_head hand_over finish
  step s (offers r) = some (after_offer s r (offer s.pipe r))
  step s (pulls r) = some (after_pull s r (intake_turn s.pipe r))
  step s takes =
      if (is_running s.phase || is_draining s.phase) && has_room s
      then take_head s s.pipe.buf
      else none
  step s flushes =
      if (is_running s.phase || is_draining s.phase) && not (has_room s)
      then hand_over s s.phase (flush s.batcher)
      else none
  step s ticks =
      if is_running s.phase && has_room s then hand_over s s.phase (flush s.batcher) else none
  step s cancels =
      if is_running s.phase && has_room s
      then some (record s { phase = draining; pipe = record (s.pipe) { closing = true } })
      else none
  step s drains =
      if is_draining s.phase && has_room s && is_nil s.pipe.buf
      then hand_over s finishing (flush s.batcher)
      else none
  step s (finishes i results) = finish s i results (batch_at i s.inflight)
  step s (awaits seq) = some (record_change s (polls seq))
  step s stops =
      if is_finishing s.phase && is_nil s.inflight
      then some (record_change (record s { phase = stopped }) closes)
      else none

  unfoldable pub steps : System R → List (Action R) → Option (System R)
  steps s [] = some s
  steps s (a ∷ acts) = elim (step s a) [ none ↦ none | some t ↦ steps t acts ]

  pub empty_logs : ℕ → List (List R)
  empty_logs zero = []
  empty_logs (suc n) = [] ∷ empty_logs n

  -- `Run` begins.
  unfoldable pub start : Pipeline R → System R
  unfolding empty_logs
  start p = record {
    pipe = p;
    batcher = idle;
    phase = running;
    inflight = [];
    stored = empty_logs p.sinks;
    taken_in = [];
    handed_off = [];
    history = [];
  }
