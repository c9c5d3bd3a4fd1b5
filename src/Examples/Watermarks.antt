-- ===== src/Examples/Watermarks.antt =====
-- Histories of the watermark.
use netflow_collector.Base.{
  ℕ, ◌≤◌, ◌<◌, ◌≡◌, ◌≢◌, refl, ◌⊎◌, inl, inr, true, false, List, [], ◌∷◌, map, arith, In, ◌↔◌,
}
use netflow_collector.Base.Assoc.{lookup, delete, put}
use netflow_collector.Pipeline.Watermark.{
  Span, Watermark, empty, advance, complete, keep_above, leads_failed, write_failed, durable, poll,
  Change, completes, polls, change, run, looking, selecting, look, turn, Event, others, turns,
  await,
}
use netflow_collector.Pipeline.Watermark.Coverage.{completed, Covers}
use netflow_collector.Pipeline.Watermark.Prefix.{written_iff}
use netflow_collector.Pipeline.Watermark.Failures.{Settled, reported}
use netflow_collector.Pipeline.Watermark.Wake.{IsBack, two_turns, await_returns}
use netflow_collector.Pipeline.Watermark.Await.{
  CoveredBy, await_durable, await_durable-InOrder, failing_behind, failure_missed,
  write_failed_once,
}

abbrev span : ℕ → ℕ → Span
span a b = record { first = a; last = b }

-- The second batch completes first.
abbrev out_of_order : List Change
out_of_order = completes (span 3 5) true ∷ completes (span 1 2) true ∷ []

out_of_order_written : (run empty out_of_order).written ≡ 5
unfolding run change complete advance put lookup delete
out_of_order_written = refl

gap_written : (run empty (completes (span 3 5) true ∷ [])).written ≡ 0
unfolding run change complete advance put lookup delete
gap_written = refl

written_iff_example :
    (5 ≤ (run empty out_of_order).written)
    ↔ ((m : ℕ) → 1 ≤ m → m ≤ 5 → Covers m (completed [] out_of_order))
written_iff_example =
    written_iff out_of_order 5 ((omega arith, (inl (omega arith), tt), (omega arith, tt, tt)))

await_durable_example :
    CoveredBy
      (Settled (run empty out_of_order) (reported [] empty out_of_order))
      4
      (completed [] out_of_order)
unfolding run change complete advance put lookup delete poll leads_failed
await_durable_example =
    await_durable out_of_order 5 4 ((omega arith, (inl (omega arith), tt), (omega arith, tt, tt)))
      refl (omega arith) (omega arith)

abbrev in_order : List Change
in_order = completes (span 1 2) false ∷ polls 2 ∷ completes (span 3 5) true ∷ []

await_durable-InOrder_example :
    CoveredBy (λ c. (c.1 ≡ true) ⊎ In c.0 (reported [] empty in_order)) 1 (completed [] in_order)
unfolding run change complete advance put lookup delete poll leads_failed keep_above
await_durable-InOrder_example =
    await_durable-InOrder in_order 5 1
      ((omega arith, (inr (omega arith), tt), (omega arith, tt, tt)))
      ((omega arith, (omega arith, tt))) refl (omega arith) (omega arith)

failure_missed_example : (poll (run empty (failing_behind 2 5)) 2).1 ≡ durable
failure_missed_example =
    failure_missed 2 5 2 (omega arith) (omega arith) (omega arith) (omega arith)

abbrev one_failed : Watermark
one_failed = record {
  written = 5;
  done = [];
  failed = span 1 2 ∷ span 8 9 ∷ [];
  closed = false;
  changed = 0;
}

write_failed_once_example :
    ((poll (poll one_failed 4).0 4).1 ≢ write_failed)
    × ((s : Span) → In s one_failed.failed → 4 < s.first → In s (poll one_failed 4).0.failed)
unfolding poll leads_failed
write_failed_once_example = write_failed_once one_failed 4 refl

-- A waiter for 4 goes to sleep, and another waiter takes a turn, before the batches complete.
abbrev schedule : List Event
schedule = turns ∷ others (polls 1) ∷ turns ∷ map others out_of_order

woken : (await 4 (empty, looking) schedule).1 ≡ selecting 0
unfolding await turn look poll change complete advance put lookup delete leads_failed
woken = refl

await_returns_example :
    IsBack 4 (await 4 (empty, looking) schedule).0 (two_turns 4 (await 4 (empty, looking) schedule))
unfolding await turn look poll change complete advance put lookup delete leads_failed
await_returns_example = await_returns 4 empty schedule (inl (omega arith)) refl
