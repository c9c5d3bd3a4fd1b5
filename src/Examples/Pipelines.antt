-- ===== src/Examples/Pipelines.antt =====
-- A pipeline with a buffer of two records, batches of two and two sinks.
use netflow_collector.Base.{
  ℕ, ◌+◌, ◌≤◌, ◌≡◌, refl, ◌⊎◌, true, false, some, List, [], ◌∷◌, length, All, In, arith,
}
use netflow_collector.Base.Assoc.{lookup, delete, put}
use netflow_collector.Base.Int.{pos}
use netflow_collector.Pipeline.Watermark.{
  Watermark, empty, advance, complete, close, keep_above, leads_failed, durable, poll, change, run,
}
use netflow_collector.Pipeline.Watermark.Failures.{reported}
use netflow_collector.Pipeline.Buffer.{Options, Pipeline, ok, new, offer, intake_turn}
use netflow_collector.Pipeline.Buffer.Counts.{total, offer_all, offer_all_counts}
use netflow_collector.Pipeline.Batcher.{take_record, receive, flush, write}
use netflow_collector.Pipeline.System.{
  System, Action, offers, pulls, takes, flushes, ticks, cancels, drains, finishes, awaits, stops,
  wrote, rejected, store, batch_at, remove_at, step, steps, start,
}
use netflow_collector.Pipeline.System.Bounds.{memory_bounded}
use netflow_collector.Pipeline.System.Order.{IsOrdered, steps-IsOrdered}
use netflow_collector.Pipeline.System.AtLeastOnce.{InRanges, durable_stored}
use netflow_collector.Pipeline.System.OneWorker.{one_worker_durable}

abbrev options : Options
options = record {
  buffer_size = pos 2;
  batch_size = pos 2;
  batch_interval = pos 1_000_000_000;
  workers = pos 1;
  write_timeout = pos 0;
}

abbrev fresh : Pipeline ℕ
fresh = record {
  buffer_size = 2;
  batch_size = 2;
  workers = 1;
  write_timeout = 30_000_000_000;
  sinks = 2;
  buf = [];
  closing = false;
  next = 0;
  space = false;
  wm = empty;
  counters = record { ingested = 0; dropped_shutdown = 0; dropped_buffer_full = 0 };
}

made : new options 2 ≡ ok fresh
unfolding new
made = refl

-- Two records are offered, batched and written; a third is dropped from the full buffer.
abbrev schedule : List (Action ℕ)
schedule =
    offers 7
    ∷ pulls 8
    ∷ offers 9
    ∷ takes
    ∷ takes
    ∷ flushes
    ∷ finishes 0 (wrote ∷ wrote ∷ [])
    ∷ awaits 2
    ∷ []

abbrev after : System ℕ
after = record {
  pipe = record fresh {
    next = 2;
    space = true;
    wm = record empty { written = 2; changed = 1 };
    counters = record { ingested = 2; dropped_shutdown = 0; dropped_buffer_full = 1 };
  };
  batcher = record { pending = []; taken = 2; first = 3 };
  phase = netflow_collector.Pipeline.System.Phase.running;
  inflight = [];
  stored = (7 ∷ 8 ∷ []) ∷ (7 ∷ 8 ∷ []) ∷ [];
  taken_in = 7 ∷ 8 ∷ [];
  handed_off = record { records = 7 ∷ 8 ∷ []; range = record { first = 1; last = 2 } } ∷ [];
  history =
      netflow_collector.Pipeline.Watermark.completes (record { first = 1; last = 2 }) true
      ∷ netflow_collector.Pipeline.Watermark.polls 2
      ∷ [];
}

schedule_runs : steps (start fresh) schedule ≡ some after
unfolding steps start step offer intake_turn take_record receive flush write store batch_at
    remove_at change advance put lookup delete leads_failed
schedule_runs = refl

memory_bounded_example :
    (length after.pipe.buf ≤ 2) × (length after.batcher.pending ≤ 2) × (length after.inflight ≤ 1)
memory_bounded_example = memory_bounded options 2 schedule made schedule_runs

steps-IsOrdered_example : IsOrdered after
steps-IsOrdered_example = steps-IsOrdered options 2 schedule made schedule_runs (omega arith)

durable_stored_example :
    All (λ log. In 8 log) after.stored
    ⊎ InRanges 2 after.pipe.wm.failed
    ⊎ InRanges 2 (reported [] empty after.history)
unfolding poll leads_failed
durable_stored_example =
    durable_stored options 2 schedule 2 2 made schedule_runs (omega arith) refl (omega arith)
      (omega arith) refl

one_worker_durable_example :
    All (λ log. In 8 log) after.stored ⊎ InRanges 2 (reported [] empty after.history)
unfolding poll leads_failed
one_worker_durable_example =
    one_worker_durable options 2 schedule 2 2 refl made schedule_runs (omega arith) refl
      (omega arith) (omega arith) refl

offer_all_counts_example :
    (total (offer_all fresh (7 ∷ 8 ∷ 9 ∷ [])).counters ≡ 3)
    × ((offer_all fresh (7 ∷ 8 ∷ 9 ∷ [])).counters.ingested + 0
        ≡ 0 + length (offer_all fresh (7 ∷ 8 ∷ 9 ∷ [])).buf)
offer_all_counts_example = offer_all_counts fresh (7 ∷ 8 ∷ 9 ∷ [])
