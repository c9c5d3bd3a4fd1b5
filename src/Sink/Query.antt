-- ===== src/Sink/Query.antt =====
-- internal/sink/postgres/postgres.go: `Query`. The engine is a parameter: it answers a statement with
-- the rows that it selects, each with its `seq`, or fails.
use Prim.Native.String.{String}
use text.Mathlib.Text.{◌==◌ as str_eq}
use netflow_collector.Base.{
  ℕ, ◌+◌, Bool, true, false, Option, none, some, List, [], ◌∷◌, ◌++◌, length, ltb, ◌==◌,
  if◌then◌else◌,
}
use netflow_collector.Base.Int.{ℤ, below, magnitude}
use netflow_collector.Flow.Time.{Time}
use netflow_collector.Flow.Addr.{Addr, is_valid}
use netflow_collector.Flow.Record.{FlowRecord}
use netflow_collector.Sink.Cursor.{Cursor, Tokens, unix_nano, at_of}

pub record FlowQuery : Type 0 where
  pub start : Time
  pub end_ : Time
  pub exporter_id : ℕ
  pub src_addr : Addr
  pub dst_addr : Addr
  pub protocol : Option ℕ
  pub limit : ℤ
  pub cursor : String

pub record FlowResultPage : Type 0 where
  pub records : List FlowRecord
  pub next_cursor : String
  pub has_more : Bool

abbrev pub default_limit : ℕ
default_limit = 100

abbrev pub max_limit : ℕ
max_limit = 1000

unfoldable pub clamp : ℤ → ℕ
clamp limit =
    if below limit 1
    then default_limit
    else if ltb max_limit (magnitude limit)
    then max_limit
    else magnitude limit

-- The conditions of the WHERE clause, with their arguments.
pub data Condition : Type 0 where
  received_from : Time → Condition
  received_before : Time → Condition
  exporter_is : ℕ → Condition
  src_is : Addr → Condition
  dst_is : Addr → Condition
  protocol_is : ℕ → Condition
  after_row : Time → ℕ → Condition  -- (received_at, seq) < (_, _)

-- ORDER BY received_at DESC, seq DESC LIMIT limit
pub record Statement : Type 0 where
  pub conditions : List Condition
  pub limit : ℕ

pub record Row : Type 0 where
  pub content : FlowRecord
  pub seq : ℕ

pub data Answer : Type 0 where
  page : FlowResultPage → Answer
  bad_cursor : Answer
  failed : Answer

abbrev pub protocol_filter : Option ℕ → List Condition
protocol_filter none = []
protocol_filter (some p) = protocol_is p ∷ []

-- The conditions that do not depend on the cursor.
unfoldable pub filters : FlowQuery → List Condition
filters q =
    received_from q.start
    ∷ received_before q.end_
    ∷ ((if q.exporter_id == 0 then [] else exporter_is q.exporter_id ∷ [])
        ++ ((if is_valid q.src_addr then src_is q.src_addr ∷ [] else [])
            ++ ((if is_valid q.dst_addr then dst_is q.dst_addr ∷ [] else [])
                ++ protocol_filter q.protocol)))

-- The loop over the rows, with the records so far in the page: the row after the last that fits
-- shows that there are more.
pub record Read : Type 0 where
  pub records : List FlowRecord
  pub last_seq : ℕ
  pub has_more : Bool

unfoldable pub read_rows : ℕ → Read → List Row → Read
read_rows limit p [] = p
read_rows limit p (row ∷ rows) =
    let rest =
      read_rows limit
        (record { records = p.records ++ (row.content ∷ []); last_seq = row.seq; has_more = false })
        rows in
    if length p.records == limit then record p { has_more = true } else rest

abbrev pub last_at : Time → List FlowRecord → Time
last_at t [] = t
last_at t (r ∷ rs) = last_at r.received_at rs

module _ (tokens : Tokens) (select : Statement → Option (List Row)) where
  open tokens use {encode_cursor, decode_cursor}

  unfoldable pub page_of : Read → FlowResultPage
  page_of p = record {
    records = p.records;
    next_cursor =
        if p.has_more
        then encode_cursor (record { t = unix_nano (last_at 0 p.records); seq = p.last_seq })
        else "";
    has_more = p.has_more;
  }

  unfoldable pub answer_of : ℕ → Option (List Row) → Answer
  answer_of limit none = failed
  answer_of limit (some rows) =
      page
        (page_of (read_rows limit (record { records = []; last_seq = 0; has_more = false }) rows))

  unfoldable pub ask : FlowQuery → List Condition → Answer
  ask q more =
      answer_of (clamp q.limit)
        (select (record { conditions = filters q ++ more; limit = clamp q.limit + 1 }))

  unfoldable pub resume : FlowQuery → Option Cursor → Answer
  resume q none = bad_cursor
  resume q (some c) = ask q (after_row (at_of c) c.seq ∷ [])

  unfoldable pub query : FlowQuery → Answer
  query q = if str_eq q.cursor "" then ask q [] else resume q (decode_cursor q.cursor)
