-- ===== src/Sink/Mariadb/Query.antt =====
-- internal/sink/mariadb/mariadb.go: `Query`, whose WHERE clause and arguments are built side by side.
use Prim.Native.String.{String}
use text.Mathlib.Text.{◌==◌ as str_eq}
use netflow_collector.Base.{
  ℕ, ◌+◌, ◌==◌, Bool, true, false, Option, none, some, List, [], ◌∷◌, ◌++◌, if◌then◌else◌,
}
use netflow_collector.Flow.Addr.{Addr, is_valid, as_slice}
use netflow_collector.Sink.Cursor.{Cursor, Tokens, unix_nano, at_of}
use netflow_collector.Sink.Query.{
  FlowQuery, FlowResultPage, Row, Answer, page, bad_cursor, failed, clamp, Read, read_rows, last_at,
}
use netflow_collector.Sink.Mariadb.{Value, at, number, octets}
pub mod Placeholders

-- The texts of the WHERE clause; each holds one question mark, the last two.
pub data Clause : Type 0 where
  since : Clause  -- f.received_at >= ?
  until : Clause  -- f.received_at < ?
  exporter : Clause
  src : Clause
  dst : Clause
  protocol : Clause
  behind : Clause  -- (f.received_at, f.seq) < (?, ?)

abbrev pub Sql : Type 0
Sql = List Clause × List Value

-- `append` to both.
abbrev pub push : Clause → List Value → Sql → Sql
push c vs (w, args) = (w ++ (c ∷ []), args ++ vs)

unfoldable pub range_text : FlowQuery → Sql
range_text q = (since ∷ until ∷ [], at q.start ∷ at q.end_ ∷ [])

abbrev pub exporter_text : FlowQuery → Sql → Sql
exporter_text q t = if q.exporter_id == 0 then t else push exporter (number q.exporter_id ∷ []) t

abbrev pub addr_text : Clause → Addr → Sql → Sql
addr_text c a t = if is_valid a then push c (octets (as_slice a) ∷ []) t else t

abbrev pub protocol_text : Option ℕ → Sql → Sql
protocol_text none t = t
protocol_text (some p) t = push protocol (number p ∷ []) t

unfoldable pub filter_text : FlowQuery → Sql
unfolding range_text
filter_text q =
    protocol_text q.protocol
      (addr_text dst q.dst_addr (addr_text src q.src_addr (exporter_text q (range_text q))))

unfoldable pub cursor_text : Option Cursor → Sql → Sql
cursor_text none t = t
cursor_text (some c) t = push behind (at (at_of c) ∷ number c.seq ∷ []) t

-- The server answers a WHERE clause and its arguments, the last of which is the LIMIT. The loop over
-- the rows is postgres'.
module _ (tokens : Tokens) (server : List Clause → List Value → Option (List Row)) where
  open tokens use {encode_cursor, decode_cursor}

  unfoldable pub page_read : Read → FlowResultPage
  page_read p = record {
    records = p.records;
    next_cursor =
        if p.has_more
        then encode_cursor (record { t = unix_nano (last_at 0 p.records); seq = p.last_seq })
        else "";
    has_more = p.has_more;
  }

  unfoldable pub answer_read : ℕ → Option (List Row) → Answer
  unfolding page_read
  answer_read limit none = failed
  answer_read limit (some rows) =
      page
        (page_read (read_rows limit (record { records = []; last_seq = 0; has_more = false }) rows))

  unfoldable pub run_text : FlowQuery → Sql → Answer
  run_text q (w, args) =
      answer_read (clamp q.limit) (server w (args ++ (number (clamp q.limit + 1) ∷ [])))

  unfoldable pub resume_text : FlowQuery → Option Cursor → Answer
  resume_text q none = bad_cursor
  resume_text q (some c) = run_text q (cursor_text (some c) (filter_text q))

  unfoldable pub query_mariadb : FlowQuery → Answer
  query_mariadb q =
      if str_eq q.cursor ""
      then run_text q (cursor_text none (filter_text q))
      else resume_text q (decode_cursor q.cursor)
