-- ===== src/Sink/Rows.antt =====
-- internal/sink/postgres/postgres.go: the rows of the table in the order of a page, newest first.
use netflow_collector.Base.{
  ℕ, zero, suc, ◌+◌, ◌<◌, ◌≡◌, refl, ap, sym, ◌∙◌, Bool, true, false, ◌&&◌, ◌||◌, List, [], ◌∷◌,
  ◌++◌, map, length, take, drop, take-append-drop, All, ltb, ◌==◌, if◌then◌else◌, arith,
  append_assoc, append-nil, length-append, Bool-cases, inl, inr,
}
use netflow_collector.Flow.Time.{Time}
use netflow_collector.Flow.Record.{FlowRecord}
use netflow_collector.Sink.Query.{Row, Read, read_rows, last_at}

-- `(received_at, seq) < (t, s)`
abbrev pub after : Time → ℕ → Row → Bool
after t s row = ltb row.content.received_at t || ((row.content.received_at == t) && ltb row.seq s)

unfoldable pub select_after : Time → ℕ → List Row → List Row
select_after t s [] = []
select_after t s (row ∷ rows) =
    let rest = select_after t s rows in if after t s row then row ∷ rest else rest

abbrev pub FollowedBy : Row → Row → Type 0
FollowedBy r s = after r.content.received_at r.seq s ≡ true

-- Each row comes before all that are older.
unfoldable pub Descending : List Row → Type 0
Descending [] = Unit
Descending (r ∷ rs) = All (FollowedBy r) rs × Descending rs

unfoldable pub last_row : Row → List Row → Row
last_row r [] = r
last_row r (x ∷ xs) = last_row x xs

pub All-last_row :
    (P : Row → Type 0) (x : Row) (xs ys : List Row) → All P (x ∷ xs ++ ys) → P (last_row x xs)
unfolding last_row
All-last_row P x [] ys h = h.0
All-last_row P x (y ∷ xs) ys h = All-last_row P y xs ys h.1

pub All-suffix : (P : Row → Type 0) (xs ys : List Row) → All P (xs ++ ys) → All P ys
All-suffix P [] ys h = h
All-suffix P (x ∷ xs) ys h = All-suffix P xs ys h.1

-- A row that another follows is not after it.
asymmetric : (r s : Row) → FollowedBy r s → after s.content.received_at s.seq r ≡ false
asymmetric r s h = ground arith

select_all :
    (t : Time) (s : ℕ) (rows : List Row)
    → All (λ r. after t s r ≡ true) rows
    → select_after t s rows ≡ rows
unfolding select_after
select_all t s [] h = refl
select_all t s (r ∷ rows) h = rw (h.0, select_all t s rows h.1) refl

skip_one :
    (t : Time) (s : ℕ) (r : Row) (rows : List Row)
    → after t s r ≡ false
    → select_after t s (r ∷ rows) ≡ select_after t s rows
unfolding select_after
skip_one t s r rows e = rw e refl

abbrev pub select_from : Row → List Row → List Row
select_from r rows = select_after r.content.received_at r.seq rows

select_front :
    (x : Row) (xs rest : List Row)
    → Descending (x ∷ xs ++ rest)
    → select_from (last_row x xs) (x ∷ xs ++ rest) ≡ rest
unfolding last_row Descending
select_front x [] rest d = skip_one _ _ x rest (ground arith) ∙ select_all _ _ rest d.0
select_front x (y ∷ xs) rest d =
    skip_one _ _ x _ (asymmetric x (last_row y xs) (All-last_row (FollowedBy x) y xs rest d.0))
    ∙ select_front y xs rest d.1

-- What follows the last row of a page in the whole table.
pub select_rest :
    (done : List Row) (x : Row) (xs rest : List Row)
    → Descending (done ++ (x ∷ xs ++ rest))
    → select_from (last_row x xs) (done ++ (x ∷ xs ++ rest)) ≡ rest
unfolding Descending
select_rest [] x xs rest d = select_front x xs rest d
select_rest (r ∷ done) x xs rest d =
    skip_one _ _ r _ (
      asymmetric r (last_row x xs)
        (All-last_row (FollowedBy r) x xs rest (All-suffix (FollowedBy r) done _ d.0)))
    ∙ select_rest done x xs rest d.1

abbrev pub contents : List Row → List FlowRecord
contents rows = map (λ r. r.content) rows

abbrev pub last_seq_of : ℕ → List Row → ℕ
last_seq_of s [] = s
last_seq_of s (r ∷ rs) = last_seq_of r.seq rs

ltb-suc : (m n : ℕ) → ltb m n ≡ ltb (suc m) (suc n)
ltb-suc m n = ground arith

-- What the loop makes of the first rows of an answer, one more than fit.
pub read_rows_lem :
    (k limit : ℕ) (p : Read) (rows : List Row)
    → length p.records + k ≡ limit
    → p.has_more ≡ false
    → read_rows limit p (take (suc k) rows) ≡ record {
      records = p.records ++ contents (take k rows);
      last_seq = last_seq_of p.last_seq (take k rows);
      has_more = ltb k (length rows);
    }
unfolding read_rows
read_rows_lem zero limit p [] e h = ground (arith, h, append-nil p.records)
read_rows_lem (suc k) limit p [] e h = ground (arith, h, append-nil p.records)
read_rows_lem zero limit p (r ∷ rows) e h = ground (arith, append-nil p.records)
read_rows_lem (suc k) limit p (r ∷ rows) e h =
    let q : Read = record {
      records = p.records ++ (r.content ∷ []);
      last_seq = r.seq;
      has_more = false;
    } in
    let ih =
      read_rows_lem k limit q rows (omega (arith, length-append p.records (r.content ∷ []))) refl in
    let room : (length p.records == limit) ≡ false = ground arith in
    rw (room, ih, append_assoc p.records (r.content ∷ []) (contents (take k rows)))
      (ap
        (λ b. record {
          records = p.records ++ (r.content ∷ contents (take k rows));
          last_seq = last_seq_of r.seq (take k rows);
          has_more = b;
        })
        (ltb-suc k (length rows)))

contents-append : (xs ys : List Row) → contents (xs ++ ys) ≡ contents xs ++ contents ys
contents-append [] ys = refl
contents-append (x ∷ xs) ys = ap (λ l. x.content ∷ l) (contents-append xs ys)

take_all : (k : ℕ) (xs : List Row) → ltb k (length xs) ≡ false → take k xs ≡ xs
take_all zero [] h = refl
take_all zero (x ∷ xs) h = absurd (ground arith)
take_all (suc k) [] h = refl
take_all (suc k) (x ∷ xs) h = ap (λ l. x ∷ l) (take_all k xs (ltb-suc k (length xs) ∙ h))

-- A page's records and those of the pages behind it.
pub contents_joined :
    (k : ℕ) (rest : List Row) (more : List FlowRecord)
    → (k < length rest → more ≡ contents (drop k rest))
    → contents (take k rest) ++ (if ltb k (length rest) then more else []) ≡ contents rest
contents_joined k rest more h = elim (Bool-cases (ltb k (length rest))) [
  | inl longer ↦ rw longer (
      ap (λ l. contents (take k rest) ++ l) (h (ground (arith, longer)))
      ∙ sym (contents-append (take k rest) (drop k rest))
      ∙ ap (λ l. contents l) (take-append-drop k rest))
  | inr all ↦
      rw all (append-nil (contents (take k rest)) ∙ ap (λ l. contents l) (take_all k rest all))
]

-- The last row of a page, as the loop has kept it.
pub last_of_page :
    (x : Row) (xs : List Row) (t : Time) (s : ℕ)
    → (last_at t (contents (x ∷ xs)) ≡ (last_row x xs).content.received_at)
      × (last_seq_of s (x ∷ xs) ≡ (last_row x xs).seq)
unfolding last_row
last_of_page x [] t s = (refl, refl)
last_of_page x (y ∷ xs) t s = last_of_page y xs x.content.received_at x.seq
