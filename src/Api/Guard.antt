-- ===== src/Api/Guard.antt =====
-- internal/api/flows.go: the queries that the handler lets through.
use Prim.Native.String.{String}
use text.Mathlib.Text.{◌==◌ as str_eq}
use netflow_collector.Base.{
  ℕ, ◌≤◌, ◌<◌, ◌≡◌, refl, ap, subst, ◌⊎◌, true, false, not, ◌&&◌, Option, none, some, List, [], ◌∷◌,
  ◌++◌, map, arith, Bool-cases, inl, inr,
}
use netflow_collector.Base.Int.{ℤ, pos}
use netflow_collector.Sink.Query.{FlowQuery, clamp}
use netflow_collector.Sink.Columns.{uint_8}
use netflow_collector.Sink.Paging.{clamp_bounds}
use netflow_collector.Api.Flows.{
  Decoders, check_cursor, FlowsRequest, Detail, Params, Parsers, fields, unknown_keys, Prepared,
  refused, asks, protocol_of, query_of, validated, bind, with_cursor, accepted, prepare,
}

-- A protocol filter fits a byte.
abbrev FitsByte : Option ℕ → Type 0
FitsByte none = Unit
FitsByte (some p) = p < 256

-- What a query that reaches the storage satisfies.
pub record IsBounded (q : FlowQuery) : Type 0 where
  pub range : q.start < q.end_
  pub limit : (n : ℕ) × (q.limit ≡ pos n) × (1 ≤ n) × (n ≤ 1000)
  pub protocol : FitsByte q.protocol

module _ (parsers : Parsers) (sort : List String → List String)
    (validate : FlowsRequest → List Detail) (decoders : Decoders) where
  query_of-limit : (o : Option ℤ) → FitsByte (protocol_of o)
  unfolding uint_8
  query_of-limit none = tt
  query_of-limit (some (ℤ.pos n)) = omega arith
  query_of-limit (some (ℤ.negsuc n)) = omega arith

  token_lem :
      (r : FlowsRequest)
      → (not (str_eq r.cursor "") && not (check_cursor decoders r.cursor)) ≡ false
      → (str_eq r.cursor "" ≡ true) ⊎ (check_cursor decoders r.cursor ≡ true)
  token_lem r good = elim (Bool-cases (str_eq r.cursor "")) [
    | inl empty ↦ inl empty
    | inr token ↦ inr (ground (arith, good, token))
  ]

  asked : FlowQuery → Prepared → FlowQuery
  asked q (asks p) = p
  asked q (refused reply) = q

  with_cursor-inv :
      (r : FlowsRequest) (q : FlowQuery)
      → with_cursor parsers sort validate decoders r ≡ asks q
      → (query_of r ≡ q) × ((str_eq q.cursor "" ≡ true) ⊎ (check_cursor decoders q.cursor ≡ true))
  unfolding with_cursor query_of asked
  with_cursor-inv r q h =
      elim (Bool-cases (not (str_eq r.cursor "") && not (check_cursor decoders r.cursor))) [
        | inl bad ↦ absurd (ground (arith, bad))
        | inr good ↦
            let made : asks (query_of r) ≡ asks q = ground (arith, good) in
            let same : query_of r ≡ q = ap (asked (query_of r)) made in
            (
              same,
              subst (λ p. (str_eq p.cursor "" ≡ true) ⊎ (check_cursor decoders p.cursor ≡ true))
                  same (token_lem r good),
            )
      ]

  accepted-inv :
      (x : FlowsRequest × List Detail) (q : FlowQuery)
      → accepted parsers sort validate decoders x ≡ asks q
      → (x.1 ≡ []) × (with_cursor parsers sort validate decoders x.0 ≡ asks q)
  unfolding accepted
  accepted-inv (r, []) q h = (refl, h)
  accepted-inv (r, d ∷ ds) q h = absurd (ground arith)

  validated-inv :
      (r : FlowsRequest) (ds : List Detail)
      → (validated parsers sort validate decoders r ds).1 ≡ []
      → (ds ≡ []) × (validate (validated parsers sort validate decoders r ds).0 ≡ [])
  unfolding validated
  validated-inv r [] h = (refl, h)
  validated-inv r (d ∷ ds) h = absurd (ground arith)

  append-empty : (xs ys : List Detail) → xs ++ ys ≡ [] → (xs ≡ []) × (ys ≡ [])
  append-empty [] ys h = (refl, h)
  append-empty (x ∷ xs) ys h = absurd (ground arith)

  map-empty : {A B : Type 0} (f : A → B) (xs : List A) → map f xs ≡ [] → xs ≡ []
  map-empty f [] h = refl
  map-empty f (x ∷ xs) h = absurd (ground arith)

  -- If the validator enforces that the range is not empty, and sorting loses no key: a request for which the
  -- handler asks the storage has a range whose start lies before its end, a limit between 1 and 1000, a
  -- protocol of one byte, no parameter that the API does not know, and a cursor that is empty or decodable.
  pub prepare-IsBounded :
      (ps : Params) (q : FlowQuery)
      → ((r : FlowsRequest) → validate r ≡ [] → r.start < r.end_)
      → ((ks : List String) → sort ks ≡ [] → ks ≡ [])
      → prepare parsers sort validate decoders ps ≡ asks q
      → IsBounded q
        × (unknown_keys (fields parsers) ps ≡ [])
        × ((str_eq q.cursor "" ≡ true) ⊎ (check_cursor decoders q.cursor ≡ true))
  unfolding prepare bind query_of
  prepare-IsBounded ps q ranges keeps h =
      let (clean, asked_) = accepted-inv (bind parsers sort validate decoders ps) q h in
      let (none_found, valid) = validated-inv _ _ clean in
      let (same, cursor) = with_cursor-inv _ q asked_ in
      let no_keys = map-empty _ _ (append-empty _ _ none_found).1 in
      (
        subst IsBounded same (record {
          range = ranges _ valid;
          limit = (clamp _, refl, (clamp_bounds _).0, (clamp_bounds _).1);
          protocol = query_of-limit _;
        }),
        keeps _ no_keys,
        cursor,
      )
