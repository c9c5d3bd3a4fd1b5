-- ===== src/Sink/Follow.antt =====
-- internal/sink: a client that follows the cursors of any engine, page after page.
use Prim.Native.String.{String}
use netflow_collector.Base.{
  ℕ, zero, suc, ◌≤◌, ◌<◌, ◌≡◌, refl, ap, ◌∙◌, true, List, [], ◌∷◌, ◌++◌, length, take, drop,
  take-append-drop, length-take, length-drop, lt→ltb, ltb, if◌then◌else◌, arith, append_assoc,
}
use netflow_collector.Flow.Record.{FlowRecord}
use netflow_collector.Sink.Query.{FlowResultPage, Row, Answer, page, bad_cursor, failed}
use netflow_collector.Sink.Rows.{contents, contents_joined}

abbrev pub pages_of : Answer → (String → List FlowRecord) → List FlowRecord
pages_of (page p) more = p.records ++ (if p.has_more then more p.next_cursor else [])
pages_of bad_cursor more = []
pages_of failed more = []

-- A client that asks for page after page, at most `n`; `answer` is the engine's answer to a cursor.
unfoldable pub follow : (String → Answer) → ℕ → String → List FlowRecord
follow answer zero c = []
follow answer (suc n) c = pages_of (answer c) (λ d. follow answer n d)

-- The page of the first `k` rows; `token` is the cursor that the engine makes of a page's rows.
abbrev pub page_from : (List Row → String) → ℕ → List Row → FlowResultPage
page_from token k rows = record {
  records = contents (take k rows);
  next_cursor = if ltb k (length rows) then token (take k rows) else "";
  has_more = ltb k (length rows);
}

-- What an engine must do with `rows`: the first page starts them, and the cursor of a page leads to
-- the page of the rows behind it.
pub record Continues (answer : String → Answer) (token : List Row → String) (k : ℕ)
    (rows : List Row) : Type 0 where
  pub started : answer "" ≡ page (page_from token k rows)
  pub resumed :
      (done : List Row) (x : Row) (xs rest : List Row)
      → done ++ (x ∷ xs ++ rest) ≡ rows
      → answer (token (x ∷ xs)) ≡ page (page_from token k rest)

module _ (answer : String → Answer) (token : List Row → String) (k : ℕ) (rows : List Row)
    (v : Continues answer token k rows) (some_row : 1 ≤ k) where
  behind_page :
      (done front rest : List Row)
      → 0 < length front
      → done ++ (front ++ rest) ≡ rows
      → answer (token front) ≡ page (page_from token k rest)
  behind_page done [] rest h e = absurd (omega arith)
  behind_page done (x ∷ xs) rest h e = v.resumed done x xs rest e

  -- A page, and then what its cursor leads to.
  step_lem :
      (n : ℕ) (c : String) (rest : List Row)
      → answer c ≡ page (page_from token k rest)
      → (k < length rest
          → follow answer n (page_from token k rest).next_cursor ≡ contents (drop k rest))
      → follow answer (suc n) c ≡ contents rest
  unfolding follow
  step_lem n c rest e more =
      ap (λ a. pages_of a (λ d. follow answer n d)) e
      ∙ contents_joined k rest (follow answer n (page_from token k rest).next_cursor) more

  token_lem :
      (rest : List Row)
      → ltb k (length rest) ≡ true
      → (page_from token k rest).next_cursor ≡ token (take k rest)
  token_lem rest longer = rw longer refl

  paged :
      (n : ℕ) (c : String) (done rest : List Row)
      → done ++ rest ≡ rows
      → answer c ≡ page (page_from token k rest)
      → length rest < n
      → follow answer n c ≡ contents rest
  paged zero c done rest e a fuel = absurd (omega arith)
  paged (suc n) c done rest e a fuel =
      let split : done ++ (take k rest ++ drop k rest) ≡ rows =
        ap (λ l. done ++ l) (take-append-drop k rest) ∙ e in
      step_lem n c rest a (λ longer.
        paged n (page_from token k rest).next_cursor (done ++ take k rest) (drop k rest)
          (append_assoc done (take k rest) (drop k rest) ∙ split)
          (ap answer (token_lem rest (lt→ltb k (length rest) longer))
            ∙ behind_page done (take k rest) (drop k rest) (omega (arith, length-take k rest))
                split)
          (omega (arith, length-drop k rest)))

  -- The pages, followed once more than there are rows, are the rows: none twice and none left out.
  pub follow_all : follow answer (suc (length rows)) "" ≡ contents rows
  follow_all = paged (suc (length rows)) "" [] rows refl v.started (omega arith)
