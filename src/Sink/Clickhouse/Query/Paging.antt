-- ===== src/Sink/Clickhouse/Query/Paging.antt =====
-- internal/sink/clickhouse/clickhouse.go: following the cursors in microseconds reads every row once.
use Prim.Native.String.{String}
use text.Mathlib.Text.{◌==◌ as str_eq}
use text.Mathlib.TextEquality.{eq_iff}
use netflow_collector.Base.{
  ℕ, suc, ◌+◌, ◌-◌, ◌*◌, ◌%◌, ◌^◌, ◌<◌, ◌≤◌, ◌≡◌, refl, ap, sym, ◌∙◌, subst, false, Option, some,
  List, [], ◌∷◌, ◌++◌, length, take, All, ltb, if◌then◌else◌, arith, Bool-cases, inl, inr,
}
use netflow_collector.Flow.Time.{Time, unix_micro}
use netflow_collector.Netflow.Numbers.{epoch}
use netflow_collector.Sink.Cursor.{Cursor, Tokens}
use netflow_collector.Sink.Query.{FlowQuery, Row, Answer, page, clamp, last_at}
use netflow_collector.Sink.Rows.{
  select_after, Descending, last_row, contents, last_seq_of, select_rest, All-last_row, All-suffix,
  read_rows_lem, last_of_page,
}
use netflow_collector.Sink.Follow.{follow, follow_all, page_from}
use netflow_collector.Sink.Paging.{clamp_bounds}
use netflow_collector.Sink.Clickhouse.Query.{
  Filter, behind_row, where_of, answer_rows, finish_read, run_where, resume_where, query_clickhouse,
}

-- fromUnixTimestamp64Micro, of an int64.
abbrev pub of_micro : ℕ → Time
of_micro t = if ltb t (2 ^ 63) then epoch + t * 1000 else epoch - (2 ^ 64 - t) * 1000

-- A whole microsecond, as the column keeps it, which an int64 of them can hold.
pub record HasMicros (at : Time) : Type 0 where
  pub whole : at % 1000 ≡ 0
  pub low : epoch ≤ at + 2 ^ 63 * 1000
  pub high : at < epoch + 2 ^ 63 * 1000

of_micro-unix_micro : (at : Time) → HasMicros at → of_micro (unix_micro at) ≡ at
of_micro-unix_micro at h = ground (arith, h)

-- What the code relies on: the server selects from the rows that satisfy the filters, newest first,
-- those behind the cursor, as many as the limit allows.
pub record Serves (server : List Filter → ℕ → Option (List Row)) (q : FlowQuery) (rows : List Row)
    : Type 0 where
  pub first : (n : ℕ) → server (where_of q) n ≡ some (take n rows)
  pub next :
      (c : Cursor) (n : ℕ)
      → server (where_of q ++ (behind_row c ∷ [])) n
        ≡ some (take n (select_after (of_micro c.t) c.seq rows))
  pub descending : Descending rows
  pub micros : All (λ r. HasMicros r.content.received_at) rows

module _ (tokens : Tokens) (server : List Filter → ℕ → Option (List Row)) where
  open tokens use {encode_cursor, decode_cursor, decode-encode, encode-nonempty}

  -- The cursor after a page.
  abbrev position : List Row → Cursor
  position front = record { t = unix_micro (last_at 0 (contents front)); seq = last_seq_of 0 front }

  abbrev token : List Row → String
  token front = encode_cursor (position front)

  answer_lem :
      (k : ℕ) (rows : List Row)
      → answer_rows tokens server k (some (take (k + 1) rows)) ≡ page (page_from token k rows)
  unfolding answer_rows finish_read
  answer_lem k rows =
      let one : k + 1 ≡ suc k = omega arith in
      ap (λ n. answer_rows tokens server k (some (take n rows))) one
      ∙ ap (λ r. page (finish_read tokens server r))
          (read_rows_lem k k (record { records = []; last_seq = 0; has_more = false }) rows
            (omega arith) refl)

  -- The cursor of a page that is not the last leads to the rows behind it.
  position_lem :
      (done : List Row) (x : Row) (xs rest : List Row)
      → Descending (done ++ (x ∷ xs ++ rest))
      → HasMicros (last_row x xs).content.received_at
      → select_after
          (of_micro (unix_micro (last_at 0 (contents (x ∷ xs)))))
          (last_seq_of 0 (x ∷ xs))
          (done ++ (x ∷ xs ++ rest))
        ≡ rest
  position_lem done x xs rest d micros =
      let (at, seq) = last_of_page x xs 0 0 in
      rw (at, seq, of_micro-unix_micro (last_row x xs).content.received_at micros)
        (select_rest done x xs rest d)

  module _ (q : FlowQuery) (rows : List Row) (v : Serves server q rows) where
    -- The query, with each cursor.
    abbrev answer : String → Answer
    answer c = query_clickhouse tokens server (record q { cursor = c })

    first_page : answer "" ≡ page (page_from token (clamp q.limit) rows)
    unfolding query_clickhouse run_where where_of
    first_page =
        ap (answer_rows tokens server (clamp q.limit)) (v.first (clamp q.limit + 1))
        ∙ answer_lem (clamp q.limit) rows

    resumed :
        (c : Cursor) (rest : List Row)
        → select_after (of_micro c.t) c.seq rows ≡ rest
        → answer (encode_cursor c) ≡ page (page_from token (clamp q.limit) rest)
    unfolding query_clickhouse resume_where run_where where_of
    resumed c rest f = elim (Bool-cases (str_eq (encode_cursor c) "")) [
      | inl empty ↦ absurd (encode-nonempty c ((eq_iff (encode_cursor c) "").0 empty))
      | inr other ↦ rw other (
          ap (resume_where tokens server (record q { cursor = encode_cursor c })) (decode-encode c)
          ∙ ap (answer_rows tokens server (clamp q.limit)) (v.next c (clamp q.limit + 1))
          ∙ ap (λ l. answer_rows tokens server (clamp q.limit) (some (take (clamp q.limit + 1) l)))
              f
          ∙ answer_lem (clamp q.limit) rest)
    ]

    behind_page :
        (done : List Row) (x : Row) (xs rest : List Row)
        → done ++ (x ∷ xs ++ rest) ≡ rows
        → answer (token (x ∷ xs)) ≡ page (page_from token (clamp q.limit) rest)
    behind_page done x xs rest e =
        let descending = subst Descending (sym e) v.descending in
        let micros = subst (All (λ r. HasMicros r.content.received_at)) (sym e) v.micros in
        resumed (position (x ∷ xs)) rest (
          ap
            (select_after (of_micro (unix_micro (last_at 0 (contents (x ∷ xs)))))
              (last_seq_of 0 (x ∷ xs)))
            (sym e)
          ∙ position_lem done x xs rest descending (
              All-last_row (λ r. HasMicros r.content.received_at) x xs rest
                (All-suffix (λ r. HasMicros r.content.received_at) done (x ∷ xs ++ rest) micros)))

    -- If the server selects as documented and keeps whole microseconds, a client of clickhouse's `Query` that
    -- follows the cursors, for at most one page more than there are rows, reads exactly the rows that its
    -- filters select, newest first, none twice and none left out, whatever limit it asks for.
    pub query_clickhouse_complete :
        follow
          (λ c. query_clickhouse tokens server (record q { cursor = c }))
          (suc (length rows))
          ""
        ≡ contents rows
    query_clickhouse_complete =
        follow_all answer token (clamp q.limit) rows
          (record { started = first_page; resumed = behind_page }) (clamp_bounds q.limit).0
