-- ===== src/Examples/Requests.antt =====
-- Requests to the API.
use text.Mathlib.Text.{◌==◌ as str_eq}
use netflow_collector.Base.{
  ◌≡◌, refl, ◌⊎◌, ap, true, false, none, some, List, [], ◌∷◌, length, leb, ltb, if◌then◌else◌,
  arith,
}
use netflow_collector.Base.Int.{pos}
use netflow_collector.Flow.Addr.{invalid}
use netflow_collector.Sink.Query.{FlowQuery, clamp}
use netflow_collector.Api.Auth.{Text, bytes_eq, authorized, untrimmed_key_rejected}
use netflow_collector.Api.Flows.{
  FlowsRequest, Detail, Params, Parsers, fields, bind_field, bind_fields, is_known, unknown_keys,
  Decoders, check_cursor, asks, query_of, validated, bind, with_cursor, accepted, prepare,
}
use netflow_collector.Api.Ops.{pinger, no_probe, ping, readyz, not_ready, verdict, failing}
use netflow_collector.Api.Guard.{IsBounded, prepare-IsBounded}

-- A trim of leading white space.
abbrev pub trim : Text → Text
trim [] = []
trim (b ∷ bs) = if leb b 32 then trim bs else b ∷ bs

trim-trim : (t : Text) → trim (trim t) ≡ trim t
trim-trim [] = refl
trim-trim (b ∷ bs) = ground (arith, trim-trim bs)

-- The key " k" and the header "Bearer k".
untrimmed_key_rejected_example :
    authorized trim
      (λ a b. bytes_eq a b)
      ((32 ∷ 107 ∷ []) ∷ [])
      (66 ∷ 101 ∷ 97 ∷ 114 ∷ 101 ∷ 114 ∷ 32 ∷ 107 ∷ [])
    ≡ false
untrimmed_key_rejected_example =
    untrimmed_key_rejected trim (λ a b. bytes_eq a b) (32 ∷ 107 ∷ [])
      (66 ∷ 101 ∷ 97 ∷ 114 ∷ 101 ∷ 114 ∷ 32 ∷ 107 ∷ []) trim-trim (λ e. omega (arith, ap length e))

-- Parsers that know two times and one number.
abbrev parsers : Parsers
parsers = record {
  parse_time =
      λ s. if str_eq s "monday" then some 1 else if str_eq s "tuesday" then some 2 else none;
  parse_addr = λ s. none;
  parse_int = λ s. if str_eq s "5000" then some (pos 5_000) else none;
}

abbrev validate : FlowsRequest → List Detail
validate r =
    if ltb r.start r.end_
    then []
    else record { field = "end"; message = "must be after start" } ∷ []

abbrev request : Params
request = ("start", "monday") ∷ ("end", "tuesday") ∷ ("limit", "5000") ∷ []

abbrev asked : FlowQuery
asked = record {
  start = 1;
  end_ = 2;
  exporter_id = 0;
  src_addr = invalid;
  dst_addr = invalid;
  protocol = none;
  limit = pos 1_000;
  cursor = "";
}

-- Decoders that take every text.
abbrev decoders : Decoders
decoders = record { decode_string = λ s. some []; unmarshals = λ raw. true }

request_asks : prepare parsers (λ ks. ks) validate decoders request ≡ asks asked
unfolding prepare accepted with_cursor bind validated bind_fields bind_field unknown_keys is_known
    query_of clamp
request_asks = refl

prepare-IsBounded_example :
    IsBounded asked
    × (unknown_keys (fields parsers) request ≡ [])
    × ((str_eq asked.cursor "" ≡ true) ⊎ (check_cursor decoders asked.cursor ≡ true))
prepare-IsBounded_example =
    prepare-IsBounded parsers (λ ks. ks) validate decoders request asked (λ r e. ground (arith, e))
      (λ ks e. e) request_asks

down : readyz 5_000 (("kafka", pinger true) ∷ ("other", no_probe) ∷ []) ≡ not_ready ("other" ∷ [])
unfolding readyz verdict failing ping
down = refl
