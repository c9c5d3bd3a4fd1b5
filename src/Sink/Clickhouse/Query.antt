-- ===== src/Sink/Clickhouse/Query.antt =====
-- internal/sink/clickhouse/clickhouse.go: `Query`, whose instants travel as whole microseconds.
use Prim.Native.String.{String}
use text.Mathlib.Text.{◌==◌ as str_eq}
use netflow_collector.Base.{
  ℕ, ◌+◌, false, Option, none, some, List, [], ◌∷◌, ◌++◌, ◌==◌, if◌then◌else◌,
}
use netflow_collector.Flow.Time.{unix_micro}
use netflow_collector.Flow.Addr.{Addr, is_valid}
use netflow_collector.Sink.Cursor.{Cursor, Tokens}
use netflow_collector.Sink.Query.{
  FlowQuery, FlowResultPage, Row, Answer, page, bad_cursor, failed, clamp, Read, read_rows, last_at,
}
pub mod Paging

-- The texts of the WHERE clause with their arguments; instants are int64s of microseconds, given by
-- their bit patterns, for fromUnixTimestamp64Micro. An address is sent as its text, for toIPv6.
pub data Filter : Type 0 where
  since : ℕ → Filter
  until : ℕ → Filter
  exporter : ℕ → Filter
  src : Addr → Filter
  dst : Addr → Filter
  protocol : ℕ → Filter
  behind_row : Cursor → Filter

abbrev pub exporter_filter : ℕ → List Filter → List Filter
exporter_filter id where_ = if id == 0 then where_ else where_ ++ (exporter id ∷ [])

abbrev pub addr_filter : (Addr → Filter) → Addr → List Filter → List Filter
addr_filter f a where_ = if is_valid a then where_ ++ (f a ∷ []) else where_

abbrev pub number_filter : Option ℕ → List Filter → List Filter
number_filter none where_ = where_
number_filter (some p) where_ = where_ ++ (protocol p ∷ [])

unfoldable pub where_of : FlowQuery → List Filter
where_of q = number_filter q.protocol (
    addr_filter dst q.dst_addr (
      addr_filter src q.src_addr (
        exporter_filter q.exporter_id
          (since (unix_micro q.start) ∷ until (unix_micro q.end_) ∷ []))))

-- The server answers the filters and the LIMIT, newest first. The limits and the loop over the rows
-- are postgres', as is the token's JSON, whose `t` counts microseconds here.
module _ (tokens : Tokens) (server : List Filter → ℕ → Option (List Row)) where
  open tokens use {encode_cursor, decode_cursor}

  unfoldable pub finish_read : Read → FlowResultPage
  finish_read p = record {
    records = p.records;
    next_cursor =
        if p.has_more
        then encode_cursor (record { t = unix_micro (last_at 0 p.records); seq = p.last_seq })
        else "";
    has_more = p.has_more;
  }

  unfoldable pub answer_rows : ℕ → Option (List Row) → Answer
  answer_rows limit none = failed
  answer_rows limit (some rows) =
      page (
        finish_read
          (read_rows limit (record { records = []; last_seq = 0; has_more = false }) rows))

  unfoldable pub run_where : FlowQuery → List Filter → Answer
  run_where q where_ = answer_rows (clamp q.limit) (server where_ (clamp q.limit + 1))

  unfoldable pub resume_where : FlowQuery → Option Cursor → Answer
  resume_where q none = bad_cursor
  resume_where q (some c) = run_where q (where_of q ++ (behind_row c ∷ []))

  unfoldable pub query_clickhouse : FlowQuery → Answer
  query_clickhouse q =
      if str_eq q.cursor ""
      then run_where q (where_of q)
      else resume_where q (decode_cursor q.cursor)
