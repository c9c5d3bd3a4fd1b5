-- ===== src/Sink/Paging.antt =====
-- internal/sink/postgres/postgres.go: a client that follows the cursors reads every row once.
use Prim.Native.String.{String}
use text.Mathlib.Text.{◌==◌ as str_eq}
use text.Mathlib.TextEquality.{eq_iff}
use netflow_collector.Base.{
  ℕ, suc, ◌+◌, ◌≤◌, ◌≡◌, refl, ap, sym, ◌∙◌, false, Option, some, List, [], ◌∷◌, ◌++◌, length, take,
  All, arith, Bool-cases, inl, inr, subst,
}
use netflow_collector.Base.Int.{ℤ}
use netflow_collector.Flow.Time.{Time}
use netflow_collector.Sink.Cursor.{Cursor, Tokens, unix_nano, at_of, HasNanos, at_of-unix_nano}
use netflow_collector.Sink.Query.{
  FlowQuery, Statement, Row, Answer, page, after_row, filters, clamp, last_at, page_of, answer_of,
  ask, resume, query,
}
use netflow_collector.Sink.Rows.{
  select_after, Descending, last_row, contents, last_seq_of, select_rest, All-last_row, All-suffix,
  read_rows_lem, last_of_page,
}
use netflow_collector.Sink.Follow.{follow, follow_all, page_from}

-- The limit of a page is between 1 and 1000, whatever was asked.
pub clamp_bounds : (limit : ℤ) → (1 ≤ clamp limit) × (clamp limit ≤ 1000)
unfolding clamp
clamp_bounds (ℤ.pos n) = ground arith
clamp_bounds (ℤ.negsuc n) = ground arith

-- What the code relies on: the engine selects from the rows of the table that satisfy the filters, newest
-- first, those after the cursor, as many as the limit allows.
pub record Selects (select : Statement → Option (List Row)) (q : FlowQuery) (rows : List Row)
    : Type 0 where
  pub first :
      (n : ℕ) → select (record { conditions = filters q ++ []; limit = n }) ≡ some (take n rows)
  pub next :
      (t : Time) (s n : ℕ)
      → select (record { conditions = filters q ++ (after_row t s ∷ []); limit = n })
        ≡ some (take n (select_after t s rows))
  pub descending : Descending rows
  pub nanos : All (λ r. HasNanos r.content.received_at) rows

module _ (tokens : Tokens) (select : Statement → Option (List Row)) where
  open tokens use {encode_cursor, decode_cursor, decode-encode, encode-nonempty}

  -- The cursor after a page.
  abbrev position : List Row → Cursor
  position front = record { t = unix_nano (last_at 0 (contents front)); seq = last_seq_of 0 front }

  abbrev token : List Row → String
  token front = encode_cursor (position front)

  answer_lem :
      (k : ℕ) (rows : List Row)
      → answer_of tokens select k (some (take (k + 1) rows)) ≡ page (page_from token k rows)
  unfolding answer_of page_of
  answer_lem k rows =
      let one : k + 1 ≡ suc k = omega arith in
      ap (λ n. answer_of tokens select k (some (take n rows))) one
      ∙ ap (λ r. page (page_of tokens select r))
          (read_rows_lem k k (record { records = []; last_seq = 0; has_more = false }) rows
            (omega arith) refl)

  -- The cursor of a page that is not the last leads to the rows behind it.
  position_lem :
      (done : List Row) (x : Row) (xs rest : List Row)
      → Descending (done ++ (x ∷ xs ++ rest))
      → HasNanos (last_row x xs).content.received_at
      → select_after (at_of (position (x ∷ xs))) (last_seq_of 0 (x ∷ xs)) (done ++ (x ∷ xs ++ rest))
        ≡ rest
  position_lem done x xs rest d nanos =
      let (at, seq) = last_of_page x xs 0 0 in
      rw (at, seq, at_of-unix_nano (last_row x xs).content.received_at (last_row x xs).seq nanos)
        (select_rest done x xs rest d)

  module _ (q : FlowQuery) (rows : List Row) (v : Selects select q rows) where
    -- The query, with each cursor.
    abbrev answer : String → Answer
    answer c = query tokens select (record q { cursor = c })

    first_page : answer "" ≡ page (page_from token (clamp q.limit) rows)
    unfolding query ask filters
    first_page =
        ap (answer_of tokens select (clamp q.limit)) (v.first (clamp q.limit + 1))
        ∙ answer_lem (clamp q.limit) rows

    resumed :
        (c : Cursor) (rest : List Row)
        → select_after (at_of c) c.seq rows ≡ rest
        → answer (encode_cursor c) ≡ page (page_from token (clamp q.limit) rest)
    unfolding query resume ask filters
    resumed c rest f = elim (Bool-cases (str_eq (encode_cursor c) "")) [
      | inl empty ↦ absurd (encode-nonempty c ((eq_iff (encode_cursor c) "").0 empty))
      | inr other ↦ rw other (
          ap (resume tokens select (record q { cursor = encode_cursor c })) (decode-encode c)
          ∙ ap (answer_of tokens select (clamp q.limit))
              (v.next (at_of c) c.seq (clamp q.limit + 1))
          ∙ ap (λ l. answer_of tokens select (clamp q.limit) (some (take (clamp q.limit + 1) l))) f
          ∙ answer_lem (clamp q.limit) rest)
    ]

    behind_page :
        (done : List Row) (x : Row) (xs rest : List Row)
        → done ++ (x ∷ xs ++ rest) ≡ rows
        → answer (token (x ∷ xs)) ≡ page (page_from token (clamp q.limit) rest)
    behind_page done x xs rest e =
        let descending = subst Descending (sym e) v.descending in
        let nanos = subst (All (λ r. HasNanos r.content.received_at)) (sym e) v.nanos in
        resumed (position (x ∷ xs)) rest (
          ap (select_after (at_of (position (x ∷ xs))) (last_seq_of 0 (x ∷ xs))) (sym e)
          ∙ position_lem done x xs rest descending (
              All-last_row (λ r. HasNanos r.content.received_at) x xs rest
                (All-suffix (λ r. HasNanos r.content.received_at) done (x ∷ xs ++ rest) nanos)))

    -- If the engine selects as documented, a client that starts without a cursor and follows the cursors, for
    -- at most one page more than there are rows, reads exactly the rows that its filters select, newest first,
    -- none twice and none left out, whatever limit it asks for.
    pub follow_complete :
        follow (λ c. query tokens select (record q { cursor = c })) (suc (length rows)) ""
        ≡ contents rows
    follow_complete =
        follow_all answer token (clamp q.limit) rows
          (record { started = first_page; resumed = behind_page }) (clamp_bounds q.limit).0
