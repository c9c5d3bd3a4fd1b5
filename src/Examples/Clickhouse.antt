-- ===== src/Examples/Clickhouse.antt =====
-- Rows of the clickhouse sink.
use netflow_collector.Base.{
  ℕ, ◌+◌, ◌*◌, ◌<◌, ◌≡◌, refl, true, Option, some, List, [], ◌∷◌, ◌++◌, map, take, All, Any, arith,
}
use netflow_collector.Sink.Clickhouse.{
  fnv_1a, Cells, insert_row, ExporterRow, Connection, touch_exporters, after_touch, write_cells,
}
use netflow_collector.Sink.Clickhouse.Batches.{Tables, RowOf, write_cells_complete}
use netflow_collector.Flow.Time.{second}
use netflow_collector.Flow.Addr.{is_valid}
use netflow_collector.Netflow.Numbers.{epoch}
use netflow_collector.Sink.Query.{Row}
use netflow_collector.Sink.Rows.{select_after, Descending, contents}
use netflow_collector.Sink.Follow.{follow}
use netflow_collector.Sink.Clickhouse.Query.{Filter, behind_row, where_of, query_clickhouse}
use netflow_collector.Sink.Clickhouse.Query.Paging.{
  of_micro, HasMicros, Serves, query_clickhouse_complete,
}
use netflow_collector.Examples.Pages.{tokens, table, request}
use netflow_collector.Examples.Messages.{sample}

-- The published value for the text "a".
fnv_a : fnv_1a 14_695_981_039_346_656_037 (b'a' ∷ []) ≡ 0xaf63dc4c8601ec8c
unfolding fnv_1a
fnv_a = refl

abbrev memory : Connection
memory = record {
  State = List ExporterRow × List Cells;
  send_exporters = λ es s. (true, (s.0 ++ es, s.1));
  send_records = λ cs s. (true, (s.0, s.1 ++ cs));
}

abbrev kept : Tables memory
kept = record {
  exporters = λ s. s.0;
  records = λ s. s.1;
  touched = λ es s h. (refl, refl);
  sent = λ cs s h. (refl, refl);
}

sample_written : (write_cells memory (λ m. m) (sample ∷ sample ∷ []) ([], [])).0 ≡ true
unfolding write_cells touch_exporters after_touch
sample_written = refl

sample_rows :
    ((write_cells memory (λ m. m) (sample ∷ sample ∷ []) ([], [])).1.1
      ≡ map insert_row (sample ∷ sample ∷ []))
    × All
        (λ x.
          Any
            (RowOf x.exporter_addr)
            (write_cells memory (λ m. m) (sample ∷ sample ∷ []) ([], [])).1.0)
        (sample ∷ sample ∷ [])
sample_rows =
    write_cells_complete memory kept (λ m. m) sample (sample ∷ []) ([], []) (λ a m p. p)
      sample_written

abbrev behind_of : List Filter → List Row → List Row
behind_of [] rows = rows
behind_of (behind_row c ∷ fs) rows = select_after (of_micro c.t) c.seq rows
behind_of (f ∷ fs) rows = behind_of fs rows

abbrev server : List Filter → ℕ → Option (List Row)
server fs n = some (take n (behind_of fs table))

micro : (at : ℕ) → at < 100 → HasMicros (epoch + at * second)
micro at h = record { whole = omega arith; low = omega arith; high = omega arith }

request-Serves : Serves server request table
unfolding where_of is_valid Descending
request-Serves = record {
  first = λ n. refl;
  next = λ c n. refl;
  descending = ((refl, (refl, tt)), ((refl, tt), (tt, tt)));
  micros = (micro 30 (omega arith), (micro 30 (omega arith), (micro 20 (omega arith), tt)));
}

query_clickhouse_complete_example :
    follow (λ c. query_clickhouse tokens server (record request { cursor = c })) 4 ""
    ≡ contents table
query_clickhouse_complete_example =
    query_clickhouse_complete tokens server request table request-Serves
