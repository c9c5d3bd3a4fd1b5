-- ===== src/Sink/Mariadb/Query/Placeholders.antt =====
-- internal/sink/mariadb/mariadb.go: each placeholder gets its own argument.
use text.Mathlib.Text.{◌==◌ as str_eq}
use netflow_collector.Base.{
  ℕ, ◌+◌, ◌<◌, ◌^◌, ◌≡◌, refl, ap, sym, subst, ◌∙◌, true, Option, none, some, List, [], ◌∷◌, ◌++◌,
  append-nil, append_assoc, ◌==◌, if◌then◌else◌, arith, Bool-cases, inl, inr,
}
use netflow_collector.Flow.Addr.{Addr, invalid, is_valid, as_slice, addr_from_slice, to_bytes}
use netflow_collector.Netflow.Numbers.{of_bytes-to_bytes}
use netflow_collector.Sink.Cursor.{Cursor, Tokens, at_of}
use netflow_collector.Sink.Query.{
  FlowQuery, Condition, received_from, received_before, exporter_is, src_is, dst_is, protocol_is,
  after_row, protocol_filter, filters, Statement, Row, clamp, page_of, answer_of, ask, resume,
  query,
}
use netflow_collector.Sink.Mariadb.{Value, at, number, octets}
use netflow_collector.Sink.Mariadb.Query.{
  Clause, since, until, exporter, src, dst, protocol, behind, Sql, push, range_text, exporter_text,
  addr_text, protocol_text, filter_text, cursor_text, answer_read, run_text, resume_text,
  query_mariadb,
}

abbrev Bound : Type 0
Bound = List Condition × List Value

abbrev and_then : Option Bound → Condition → Option Bound
and_then none c = none
and_then (some (cs, vs)) c = some (c ∷ cs, vs)

-- What a server makes of a WHERE clause: each question mark takes the next argument, which must be of
-- the column's type; the arguments that are left come with it.
unfoldable pub bind : List Clause → List Value → Option (List Condition × List Value)
bind [] vs = some ([], vs)
bind (since ∷ w) (at t ∷ vs) = and_then (bind w vs) (received_from t)
bind (until ∷ w) (at t ∷ vs) = and_then (bind w vs) (received_before t)
bind (exporter ∷ w) (number n ∷ vs) = and_then (bind w vs) (exporter_is n)
bind (src ∷ w) (octets b ∷ vs) = and_then (bind w vs) (src_is (addr_from_slice b))
bind (dst ∷ w) (octets b ∷ vs) = and_then (bind w vs) (dst_is (addr_from_slice b))
bind (protocol ∷ w) (number n ∷ vs) = and_then (bind w vs) (protocol_is n)
bind (behind ∷ w) (at t ∷ number s ∷ vs) = and_then (bind w vs) (after_row t s)
bind _ _ = none

abbrev prepend : List Condition → Option Bound → Option Bound
prepend cs none = none
prepend cs (some (ds, vs)) = some (cs ++ ds, vs)

-- A text whose placeholders and arguments stand for these conditions, whatever follows it.
record IsBoundTo (t : Sql) (cs : List Condition) : Type 0 where
  law : (w : List Clause) (vs : List Value) → bind (t.0 ++ w) (t.1 ++ vs) ≡ prepend cs (bind w vs)

prepend-prepend :
    (cs : List Condition) (c : Condition) (o : Option Bound)
    → prepend cs (and_then o c) ≡ prepend (cs ++ (c ∷ [])) o
prepend-prepend cs c none = refl
prepend-prepend cs c (some (ds, vs)) = ap (λ x. some (x, vs)) (sym (append_assoc cs (c ∷ []) ds))

-- Appending one clause and its arguments binds one condition more.
push-IsBoundTo :
    (k : Clause) (args : List Value) (c : Condition) (t : Sql) (cs : List Condition)
    → ((w : List Clause) (vs : List Value) → bind (k ∷ w) (args ++ vs) ≡ and_then (bind w vs) c)
    → IsBoundTo t cs
    → IsBoundTo (push k args t) (cs ++ (c ∷ []))
push-IsBoundTo k args c t cs one h = record {
  law = λ w vs.
      ap (λ x. bind x ((t.1 ++ args) ++ vs)) (append_assoc t.0 (k ∷ []) w)
      ∙ ap (bind (t.0 ++ (k ∷ w))) (append_assoc t.1 args vs)
      ∙ h.law (k ∷ w) (args ++ vs)
      ∙ ap (prepend cs) (one w vs)
      ∙ prepend-prepend cs c (bind w vs);
}

range-IsBoundTo :
    (q : FlowQuery) → IsBoundTo (range_text q) (received_from q.start ∷ received_before q.end_ ∷ [])
unfolding range_text bind
range-IsBoundTo q = record { law = λ w vs. two (bind w vs) }
  where
    two :
        (o : Option Bound)
        → and_then (and_then o (received_before q.end_)) (received_from q.start)
          ≡ prepend (received_from q.start ∷ received_before q.end_ ∷ []) o
    two none = refl
    two (some x) = refl

-- The numbers of an address have their widths, and it has no zone.
abbrev pub IsStored : Addr → Type 0
IsStored invalid = Unit
IsStored (Addr.v4 n) = n < 2 ^ 32
IsStored (Addr.v6 n zone) = (n < 2 ^ 128) × (zone ≡ "")

pub addr_from_slice-as_slice :
    (a : Addr) → IsStored a → is_valid a ≡ true → addr_from_slice (as_slice a) ≡ a
unfolding addr_from_slice as_slice to_bytes is_valid
addr_from_slice-as_slice invalid h v = absurd (ground (arith, v))
addr_from_slice-as_slice (Addr.v4 n) h v = ap Addr.v4 (of_bytes-to_bytes 4 n [] (omega (arith, h)))
addr_from_slice-as_slice (Addr.v6 n zone) h v =
    ap (λ m. Addr.v6 m "") (of_bytes-to_bytes 16 n [] (omega (arith, h.0)))
    ∙ ap (Addr.v6 n) (sym h.1)

exporter-IsBoundTo :
    (q : FlowQuery) (t : Sql) (cs : List Condition)
    → IsBoundTo t cs
    → IsBoundTo
        (exporter_text q t)
        (cs ++ (if q.exporter_id == 0 then [] else exporter_is q.exporter_id ∷ []))
exporter-IsBoundTo q t cs h = elim (Bool-cases (q.exporter_id == 0)) [
  | inl all ↦ rw all (rw append-nil h)
  | inr one ↦ rw one (
      push-IsBoundTo exporter (number q.exporter_id ∷ []) (exporter_is q.exporter_id) t cs
        (λ w vs. unfold bind in refl) h)
]

addr-IsBoundTo :
    (k : Clause) (is_addr : Addr → Condition) (a : Addr) (t : Sql) (cs : List Condition)
    → ((b : List ℕ) (w : List Clause) (vs : List Value)
        → bind (k ∷ w) (octets b ∷ vs) ≡ and_then (bind w vs) (is_addr (addr_from_slice b)))
    → IsStored a
    → IsBoundTo t cs
    → IsBoundTo (addr_text k a t) (cs ++ (if is_valid a then is_addr a ∷ [] else []))
addr-IsBoundTo k is_addr a t cs one stored h = elim (Bool-cases (is_valid a)) [
  | inl v ↦ rw v (
      push-IsBoundTo k (octets (as_slice a) ∷ []) (is_addr a) t cs
        (λ w vs.
          one (as_slice a) w vs
          ∙ ap (λ x. and_then (bind w vs) (is_addr x)) (addr_from_slice-as_slice a stored v))
        h)
  | inr v ↦ rw v (rw append-nil h)
]

protocol-IsBoundTo :
    (o : Option ℕ) (t : Sql) (cs : List Condition)
    → IsBoundTo t cs
    → IsBoundTo (protocol_text o t) (cs ++ protocol_filter o)
protocol-IsBoundTo none t cs h = rw append-nil h
protocol-IsBoundTo (some p) t cs h =
    push-IsBoundTo protocol (number p ∷ []) (protocol_is p) t cs (λ w vs. unfold bind in refl) h

abbrev more_of : Option Cursor → List Condition
more_of none = []
more_of (some c) = after_row (at_of c) c.seq ∷ []

cursor-IsBoundTo :
    (o : Option Cursor) (t : Sql) (cs : List Condition)
    → IsBoundTo t cs
    → IsBoundTo (cursor_text o t) (cs ++ more_of o)
unfolding cursor_text
cursor-IsBoundTo none t cs h = rw append-nil h
cursor-IsBoundTo (some c) t cs h =
    push-IsBoundTo behind (at (at_of c) ∷ number c.seq ∷ []) (after_row (at_of c) c.seq) t cs
      (λ w vs. unfold bind in refl) h

filter-IsBoundTo :
    (q : FlowQuery)
    → IsStored q.src_addr
    → IsStored q.dst_addr
    → IsBoundTo (filter_text q) (filters q)
unfolding filter_text filters
filter-IsBoundTo q s d =
    let e = if q.exporter_id == 0 then [] else exporter_is q.exporter_id ∷ [] in
    let a = if is_valid q.src_addr then src_is q.src_addr ∷ [] else [] in
    let b = if is_valid q.dst_addr then dst_is q.dst_addr ∷ [] else [] in
    let r = received_from q.start ∷ received_before q.end_ ∷ [] in
    subst (IsBoundTo (filter_text q))
      (append_assoc ((r ++ e) ++ a) b (protocol_filter q.protocol)
        ∙ append_assoc (r ++ e) a _
        ∙ append_assoc r e _)
      (protocol-IsBoundTo q.protocol _ _ (
        addr-IsBoundTo dst dst_is q.dst_addr _ _ (λ x w vs. unfold bind in refl) d
          (addr-IsBoundTo src src_is q.src_addr _ _ (λ x w vs. unfold bind in refl) s
            (exporter-IsBoundTo q _ _ (range-IsBoundTo q)))))

-- A server that answers a text as `select` answers the conditions that the text binds.
pub record Answers (server : List Clause → List Value → Option (List Row))
    (select : Statement → Option (List Row)) : Type 0 where
  pub binds :
      (w : List Clause) (args : List Value) (cs : List Condition) (l : ℕ)
      → bind w args ≡ some (cs, number l ∷ [])
      → server w args ≡ select (record { conditions = cs; limit = l })

module _ (tokens : Tokens) (server : List Clause → List Value → Option (List Row))
    (select : Statement → Option (List Row)) (answers : Answers server select) where
  open tokens use {decode_cursor}

  answer_read-answer_of :
      (limit : ℕ) (o : Option (List Row))
      → answer_read tokens server limit o ≡ answer_of tokens select limit o
  unfolding answer_read answer_of page_of
  answer_read-answer_of limit none = refl
  answer_read-answer_of limit (some rows) = refl

  run_text-ask :
      (q : FlowQuery) (t : Sql) (more : List Condition)
      → IsBoundTo t (filters q ++ more)
      → run_text tokens server q t ≡ ask tokens select q more
  unfolding run_text ask
  run_text-ask q t more h =
      let n = clamp q.limit + 1 in
      let cs = filters q ++ more in
      let bound : bind t.0 (t.1 ++ (number n ∷ [])) ≡ some (cs, number n ∷ []) =
        ap (λ w. bind w (t.1 ++ (number n ∷ []))) (sym (append-nil t.0))
        ∙ h.law [] (number n ∷ [])
        ∙ (unfold bind in ap (λ x. some (x, number n ∷ [])) (append-nil cs)) in
      answer_read-answer_of (clamp q.limit) (server t.0 (t.1 ++ (number n ∷ [])))
      ∙ ap (answer_of tokens select (clamp q.limit))
          (answers.binds t.0 (t.1 ++ (number n ∷ [])) cs n bound)

  -- If the addresses of the query are as they are stored, and the server binds each question mark to
  -- the next argument: mariadb's `Query` answers as postgres' does over an engine that is given the
  -- conditions themselves, on every branch; no filter, cursor or limit gets another's argument.
  pub query_mariadb-query :
      (q : FlowQuery)
      → IsStored q.src_addr
      → IsStored q.dst_addr
      → query_mariadb tokens server q ≡ query tokens select q
  unfolding query_mariadb query
  query_mariadb-query q s d = elim (Bool-cases (str_eq q.cursor "")) [
    | inl first ↦ rw first (
        run_text-ask q (cursor_text none (filter_text q)) []
          (cursor-IsBoundTo none (filter_text q) (filters q) (filter-IsBoundTo q s d)))
    | inr next ↦ rw next (resumed (decode_cursor q.cursor))
  ]
    where
      resumed : (o : Option Cursor) → resume_text tokens server q o ≡ resume tokens select q o
      resumed none = unfold resume_text resume in refl
      resumed (some c) =
          unfold resume_text resume in
          run_text-ask q (cursor_text (some c) (filter_text q)) (after_row (at_of c) c.seq ∷ [])
            (cursor-IsBoundTo (some c) (filter_text q) (filters q) (filter-IsBoundTo q s d))
