-- ===== src/Pipeline/Buffer.antt =====
-- internal/pipeline/pipeline.go: New, Offer, tryOffer and the blocking Intake. A record's type is
-- a parameter. The buffered channel `buf` is a list whose head is received next, `offerMu` makes
-- `try_offer` one step, and `space` says whether the one-element signal channel is full.
pub mod Counts
use netflow_collector.Base.{
  ℕ, suc, ◌+◌, Bool, true, false, ◌||◌, Option, none, some, List, [], ◌∷◌, ◌++◌, length, ltb,
  if◌then◌else◌,
}
use netflow_collector.Base.Int.{ℤ, below, magnitude}
use netflow_collector.Pipeline.Watermark.{u64, Watermark, empty}

pub record Options : Type 0 where
  pub buffer_size : ℤ
  pub batch_size : ℤ
  pub batch_interval : ℤ  -- nanoseconds
  pub workers : ℤ
  pub write_timeout : ℤ

-- The record counters of internal/obs that `Offer` moves.
pub record Counters : Type 0 where
  pub ingested : ℕ
  pub dropped_shutdown : ℕ
  pub dropped_buffer_full : ℕ

pub record Pipeline (R : Type 0) : Type 0 where
  pub buffer_size : ℕ
  pub batch_size : ℕ
  pub workers : ℕ
  pub write_timeout : ℕ
  pub sinks : ℕ
  pub buf : List R
  pub closing : Bool
  pub next : ℕ
  pub space : Bool
  pub wm : Watermark
  pub counters : Counters

pub data NewError : Type 0 where
  invalid_options no_sink : NewError

pub data Made (R : Type 0) : Type 0 where
  ok : Pipeline R → Made R
  err : NewError → Made R

-- 30 seconds in nanoseconds
abbrev pub default_write_timeout : ℕ
default_write_timeout = 30_000_000_000

-- `opts.WriteTimeout <= 0` means the default
abbrev pub timeout_of : ℤ → ℕ
timeout_of t = if below t 1 then default_write_timeout else magnitude t

module _ {R : Type 0} where
  -- `New`; of the sinks only their number matters here.
  unfoldable pub new : Options → ℕ → Made R
  new opts sinks =
      if below opts.buffer_size 1
        || below opts.batch_size 1
        || below opts.batch_interval 1
        || below opts.workers 1
      then err invalid_options
      else if ltb 0 sinks
      then ok (record {
        buffer_size = magnitude opts.buffer_size;
        batch_size = magnitude opts.batch_size;
        workers = magnitude opts.workers;
        write_timeout = timeout_of opts.write_timeout;
        sinks = sinks;
        buf = [];
        closing = false;
        next = 0;
        space = false;
        wm = empty;
        counters = record { ingested = 0; dropped_shutdown = 0; dropped_buffer_full = 0 };
      })
      else err no_sink

  -- `tryOffer`: the one non-blocking send.
  unfoldable pub try_offer : Pipeline R → R → Pipeline R × Option ℕ
  try_offer p r =
      if ltb (length p.buf) p.buffer_size
      then (record p { buf = p.buf ++ r ∷ []; next = u64 (p.next + 1) }, some (u64 (p.next + 1)))
      else (p, none)

  abbrev pub ingest : Pipeline R → Pipeline R
  ingest p = record p { counters = record (p.counters) { ingested = p.counters.ingested + 1 } }

  abbrev pub drop_shutdown : Pipeline R → Pipeline R
  drop_shutdown p = record p {
    counters = record (p.counters) { dropped_shutdown = p.counters.dropped_shutdown + 1 };
  }

  abbrev pub drop_full : Pipeline R → Pipeline R
  drop_full p = record p {
    counters = record (p.counters) { dropped_buffer_full = p.counters.dropped_buffer_full + 1 };
  }

  abbrev pub counted : Pipeline R × Option ℕ → Pipeline R × Bool
  counted (p, some seq) = (ingest p, true)
  counted (p, none) = (drop_full p, false)

  -- `Pipeline.Offer`, of a push source.
  unfoldable pub offer : Pipeline R → R → Pipeline R × Bool
  unfolding try_offer
  offer p r = if p.closing then (drop_shutdown p, false) else counted (try_offer p r)

pub data IntakeResult : Type 0 where
  accepted : ℕ → IntakeResult
  refused_closing : IntakeResult
  context_ended : IntakeResult
  must_wait : IntakeResult

module _ {R : Type 0} where
  abbrev pub taken_in : Pipeline R × Option ℕ → Pipeline R × IntakeResult
  taken_in (p, some seq) = (ingest p, accepted seq)
  taken_in (p, none) = (p, must_wait)

  -- One turn of the loop of `intake.Offer`, before its select.
  unfoldable pub intake_turn : Pipeline R → R → Pipeline R × IntakeResult
  unfolding try_offer
  intake_turn p r = if p.closing then (p, refused_closing) else taken_in (try_offer p r)

  abbrev after_turn :
      Pipeline R × IntakeResult → Pipeline R × IntakeResult → Pipeline R × IntakeResult
  after_turn (p, must_wait) later = later
  after_turn (p, result) later = (p, result)

  -- `intake.Offer` over the wake-ups it is given: the pipeline as the other goroutines left it when
  -- the signal on `space` was received, or `none` where the context ended.
  unfoldable pub intake_offer :
      Pipeline R → R → List (Option (Pipeline R)) → Pipeline R × IntakeResult
  unfolding intake_turn
  intake_offer p r [] = intake_turn p r
  intake_offer p r (none ∷ wakes) = after_turn (intake_turn p r) (p, context_ended)
  intake_offer p r (some q ∷ wakes) =
      after_turn (intake_turn p r) (intake_offer (record q { space = false }) r wakes)
