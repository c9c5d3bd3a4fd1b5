-- ===== src/Pipeline/Batcher.antt =====
-- internal/pipeline/pipeline.go: the batcher of `Run` (`take`, `flush`) and the worker's `write`.
use netflow_collector.Base.{
  ℕ, ◌+◌, Bool, true, false, Option, none, some, List, [], ◌∷◌, ◌++◌, length, ◌==◌, if◌then◌else◌,
}
use netflow_collector.Pipeline.Watermark.{u64, Span}
use netflow_collector.Pipeline.Buffer.{Pipeline}

pub record Batch (R : Type 0) : Type 0 where
  pub records : List R
  pub range : Span

-- The variables of `Run` that the closures `take` and `flush` share.
pub record Batcher (R : Type 0) : Type 0 where
  pub pending : List R
  pub taken : ℕ
  pub first : ℕ

module _ {R : Type 0} where
  abbrev pub idle : Batcher R
  idle = record { pending = []; taken = 0; first = 1 }

  -- The batcher's part of `take`.
  unfoldable pub take_record : Batcher R → R → Batcher R
  take_record b r = record b { taken = u64 (b.taken + 1); pending = b.pending ++ r ∷ [] }

  -- Receiving the head of the buffer, and the rest of `take`: the signal on `space`.
  unfoldable pub receive : Pipeline R → List R → Pipeline R
  receive p rest = record p { buf = rest; space = true }

  unfoldable pub flush_pending : Batcher R → List R → Batcher R × Option (Batch R)
  flush_pending b [] = (b, none)
  flush_pending b (r ∷ rest) = (
    record b { first = u64 (b.taken + 1); pending = [] },
    some (record { records = r ∷ rest; range = record { first = b.first; last = b.taken } }),
  )

  -- `flush`: the batch that goes to a worker, if any record is pending.
  unfoldable pub flush : Batcher R → Batcher R × Option (Batch R)
  unfolding flush_pending
  flush b = flush_pending b b.pending

-- What `write` reports and counts: whether every sink succeeded, how many failed, and whether the
-- visibility lag was observed.
pub record WriteReport : Type 0 where
  pub all_succeeded : Bool
  pub errors : ℕ
  pub lag_observed : Bool

-- `succeeded`, of the sinks' results (`true` is a nil error).
unfoldable pub succeeded : List Bool → ℕ
succeeded [] = 0
succeeded (true ∷ rest) = succeeded rest + 1
succeeded (false ∷ rest) = succeeded rest

unfoldable pub write_errors : List Bool → ℕ
write_errors [] = 0
write_errors (true ∷ rest) = write_errors rest
write_errors (false ∷ rest) = write_errors rest + 1

unfoldable pub write : List Bool → WriteReport
unfolding succeeded write_errors
write results =
    if succeeded results == 0
    then record { all_succeeded = false; errors = write_errors results; lag_observed = false }
    else record {
      all_succeeded = succeeded results == length results;
      errors = write_errors results;
      lag_observed = true;
    }
