-- ===== src/Examples/Pages.antt =====
-- Pages of a table of three rows.
use Prim.Native.String.{String, [], ◌∷◌}
use Prim.Native.Char.{code}
use mathlib.Core.List as L
use netflow_collector.Base.{
  ℕ, zero, suc, ◌+◌, ◌*◌, ◌<◌, ◌≡◌, refl, ap, ◌∙◌, Option, none, some, List, take, ◌==◌,
  if◌then◌else◌, arith,
}
use netflow_collector.Base.Int.{ℤ}
use netflow_collector.Flow.Time.{second}
use netflow_collector.Flow.Addr.{invalid, is_valid}
use netflow_collector.Netflow.Numbers.{epoch}
use netflow_collector.Sink.Cursor.{Cursor, Tokens, HasNanos}
use netflow_collector.Sink.Query.{FlowQuery, Statement, Condition, after_row, Row, filters, query}
use netflow_collector.Sink.Rows.{select_after, Descending, contents}
use netflow_collector.Sink.Follow.{follow}
use netflow_collector.Sink.Paging.{Selects, follow_complete}
use netflow_collector.Examples.Messages.{sample}

-- A token in unary.
abbrev unary : ℕ → String → String
unary zero s = s
unary (suc n) s = "a" ∷ unary n s

abbrev count : String → ℕ
count [] = 0
count (c ∷ s) = suc (count s)

abbrev read_from : ℕ → String → Option Cursor
read_from t [] = none
read_from t (c ∷ s) =
    let rest = read_from (suc t) s in
    if code c == 97 then rest else some (record { t = t; seq = count s })

count-unary : (n : ℕ) → count (unary n []) ≡ n
count-unary zero = refl
count-unary (suc n) = ap suc (count-unary n)

pub read-unary :
    (t n : ℕ) (s : String)
    → read_from t (unary n ("b" ∷ s)) ≡ some (record { t = t + n; seq = count s })
read-unary t zero s = ap (λ m. some (record { t = m; seq = count s })) (omega arith)
read-unary t (suc n) s =
    read-unary (suc t) n s ∙ ap (λ m. some (record { t = m; seq = count s })) (omega arith)

pub count-unary-b : (n : ℕ) (s : String) → 0 < count (unary n ("b" ∷ s))
count-unary-b zero s = omega arith
count-unary-b (suc n) s = omega arith

pub same : (c : Cursor) → (record { t = 0 + c.t; seq = count (unary c.seq []) }) ≡ c
same c = rw (count-unary c.seq) (ap (λ m. record { t = m; seq = c.seq }) (omega arith))

abbrev pub tokens : Tokens
tokens = record {
  encode_cursor = λ c. unary c.t ("b" ∷ unary c.seq []);
  decode_cursor = λ s. read_from 0 s;
  decode-encode = λ c. read-unary 0 c.t (unary c.seq []) ∙ ap (λ p. some p) (same c);
  encode-nonempty = λ c e. absurd (omega (arith, count-unary-b c.t (unary c.seq []), ap count e));
}

abbrev row : ℕ → ℕ → Row
row at n = record { content = record sample { received_at = epoch + at * second }; seq = n }

nano : (at : ℕ) → at < 100 → HasNanos (epoch + at * second)
nano at h = record { low = omega arith; high = omega arith }

abbrev pub table : List Row
table = L.◌∷◌ (row 30 7) (L.◌∷◌ (row 30 6) (L.◌∷◌ (row 20 9) L.[]))

abbrev cut : List Condition → List Row → List Row
cut L.[] rows = rows
cut (L.◌∷◌ (after_row t s) cs) rows = select_after t s rows
cut (L.◌∷◌ c cs) rows = cut cs rows

abbrev pub select : Statement → Option (List Row)
select st = some (take st.limit (cut st.conditions table))

-- Two rows to a page.
abbrev pub request : FlowQuery
request = record {
  start = epoch;
  end_ = epoch + 60 * second;
  exporter_id = 0;
  src_addr = invalid;
  dst_addr = invalid;
  protocol = none;
  limit = ℤ.pos 2;
  cursor = "";
}

request-Selects : Selects select request table
unfolding filters is_valid Descending
request-Selects = record {
  first = λ n. refl;
  next = λ t s n. refl;
  descending = ((refl, (refl, tt)), ((refl, tt), (tt, tt)));
  nanos = (nano 30 (omega arith), (nano 30 (omega arith), (nano 20 (omega arith), tt)));
}

follow_complete_example :
    follow (λ c. query tokens select (record request { cursor = c })) 4 "" ≡ contents table
follow_complete_example = follow_complete tokens select request table request-Selects
