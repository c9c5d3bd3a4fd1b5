-- ===== src/Api/Flows.antt =====
-- internal/api/flows.go: GET /v1/flows, from the query string to the reply. Go's parsers and the
-- validator are parameters.
use Prim.Native.String.{String}
use text.Mathlib.Text.{◌==◌ as str_eq}
use netflow_collector.Base.{
  ℕ, Bool, false, not, ◌||◌, ◌&&◌, Option, none, some, List, [], ◌∷◌, ◌++◌, map, if◌then◌else◌,
}
use netflow_collector.Base.Int.{ℤ, pos, magnitude}
use netflow_collector.Flow.Time.{Time, zero_time}
use netflow_collector.Flow.Addr.{Addr, invalid}
use netflow_collector.Sink.Columns.{uint_8}
use netflow_collector.Sink.Query.{FlowQuery, FlowResultPage, clamp}

pub record FlowsRequest : Type 0 where
  pub start : Time
  pub end_ : Time
  pub exporter_id : Option ℤ
  pub src_addr : Addr
  pub dst_addr : Addr
  pub protocol : Option ℤ
  pub limit : ℤ
  pub cursor : String

abbrev pub no_request : FlowsRequest
no_request = record {
  start = zero_time;
  end_ = zero_time;
  exporter_id = none;
  src_addr = invalid;
  dst_addr = invalid;
  protocol = none;
  limit = pos 0;
  cursor = "";
}

pub record Detail : Type 0 where
  pub field : String
  pub message : String

-- The keys and first values of the query string.
abbrev pub Params : Type 0
Params = List (String × String)

abbrev pub get : String → Params → String
get name [] = ""
get name ((k, v) ∷ ps) = if str_eq k name then v else get name ps

-- A field of FlowsRequest: its name, and `setField` at its type, `none` where the value does not parse.
pub record Field : Type 0 where
  pub name : String
  pub set : String → FlowsRequest → Option FlowsRequest
  pub problem : String

pub record Parsers : Type 0 where
  pub parse_time : String → Option Time
  pub parse_addr : String → Option Addr
  pub parse_int : String → Option ℤ

abbrev pub with_value : {A : Type 0} → (A → FlowsRequest) → Option A → Option FlowsRequest
with_value f none = none
with_value f (some a) = some (f a)

module _ (parsers : Parsers) where
  open parsers use {parse_time, parse_addr, parse_int}

  abbrev pub fields : List Field
  fields =
      record {
        name = "start";
        set = λ s r. with_value (λ t. record r { start = t }) (parse_time s);
        problem = "must be an RFC 3339 timestamp";
      }
      ∷ record {
        name = "end";
        set = λ s r. with_value (λ t. record r { end_ = t }) (parse_time s);
        problem = "must be an RFC 3339 timestamp";
      }
      ∷ record {
        name = "exporter_id";
        set = λ s r. with_value (λ n. record r { exporter_id = some n }) (parse_int s);
        problem = "must be an integer";
      }
      ∷ record {
        name = "src_addr";
        set = λ s r. with_value (λ a. record r { src_addr = a }) (parse_addr s);
        problem = "must be an IPv4 or IPv6 address";
      }
      ∷ record {
        name = "dst_addr";
        set = λ s r. with_value (λ a. record r { dst_addr = a }) (parse_addr s);
        problem = "must be an IPv4 or IPv6 address";
      }
      ∷ record {
        name = "protocol";
        set = λ s r. with_value (λ n. record r { protocol = some n }) (parse_int s);
        problem = "must be an integer";
      }
      ∷ record {
        name = "limit";
        set = λ s r. with_value (λ n. record r { limit = n }) (parse_int s);
        problem = "must be an integer";
      }
      ∷ record { name = "cursor"; set = λ s r. some (record r { cursor = s }); problem = "" }
      ∷ []

-- One round of the first loop of `bind`.
unfoldable pub bind_field :
    Field → String → Option FlowsRequest → FlowsRequest × List Detail → FlowsRequest × List Detail
bind_field f raw none (r, ds) =
    if str_eq raw ""
    then (r, ds)
    else (r, ds ++ (record { field = f.name; message = f.problem } ∷ []))
bind_field f raw (some r') (r, ds) = if str_eq raw "" then (r, ds) else (r', ds)

unfoldable pub bind_fields :
    List Field → Params → FlowsRequest × List Detail → FlowsRequest × List Detail
bind_fields [] ps x = x
bind_fields (f ∷ fs) ps x =
    bind_fields fs ps (bind_field f (get f.name ps) (f.set (get f.name ps) x.0) x)

unfoldable pub is_known : List Field → String → Bool
is_known [] k = false
is_known (f ∷ fs) k = let rest = is_known fs k in str_eq f.name k || rest

unfoldable pub unknown_keys : List Field → Params → List String
unknown_keys fs [] = []
unknown_keys fs ((k, v) ∷ ps) =
    let rest = unknown_keys fs ps in if is_known fs k then rest else k ∷ rest

pub data Reply : Type 0 where
  unprocessable : List Detail → Reply  -- 422
  bad_request : Reply  -- 400
  unavailable : Reply  -- 503
  page : FlowResultPage → Reply  -- 200; the records are rendered by toJSON

pub data Prepared : Type 0 where
  refused : Reply → Prepared
  asks : FlowQuery → Prepared

abbrev pub exporter_of : Option ℤ → ℕ
exporter_of none = 0
exporter_of (some n) = magnitude n

-- `uint8(*req.Protocol)`
abbrev pub protocol_of : Option ℤ → Option ℕ
protocol_of none = none
protocol_of (some n) = some (uint_8 n)

unfoldable pub query_of : FlowsRequest → FlowQuery
query_of r = record {
  start = r.start;
  end_ = r.end_;
  exporter_id = exporter_of r.exporter_id;
  src_addr = r.src_addr;
  dst_addr = r.dst_addr;
  protocol = protocol_of r.protocol;
  limit = pos (clamp r.limit);
  cursor = r.cursor;
}

-- base64.RawURLEncoding's DecodeString, and whether json.Unmarshal takes a text for a `cursor`.
pub record Decoders : Type 0 where
  pub decode_string : String → Option (List ℕ)
  pub unmarshals : List ℕ → Bool

abbrev pub taken : (List ℕ → Bool) → Option (List ℕ) → Bool
taken unmarshals none = false
taken unmarshals (some raw) = unmarshals raw

-- `checkCursor`: whether it returns nil.
unfoldable pub check_cursor : Decoders → String → Bool
check_cursor d s = taken d.unmarshals (d.decode_string s)

module _ (parsers : Parsers) (sort : List String → List String)
    (validate : FlowsRequest → List Detail) (decoders : Decoders) where
  unfoldable pub validated : FlowsRequest → List Detail → FlowsRequest × List Detail
  validated r [] = (r, validate r)
  validated r (d ∷ ds) = (r, d ∷ ds)

  -- `bind`: every problem of the parameters, or else those that the validator finds.
  unfoldable pub bind : Params → FlowsRequest × List Detail
  bind ps =
      let (r, ds) = bind_fields (fields parsers) ps (no_request, []) in
      validated r (
        ds
        ++ map (λ k. record { field = k; message = "unknown parameter" })
            (sort (unknown_keys (fields parsers) ps)))

  unfoldable pub with_cursor : FlowsRequest → Prepared
  with_cursor r =
      if not (str_eq r.cursor "") && not (check_cursor decoders r.cursor)
      then refused bad_request
      else asks (query_of r)

  unfoldable pub accepted : FlowsRequest × List Detail → Prepared
  accepted (r, []) = with_cursor r
  accepted (r, d ∷ ds) = refused (unprocessable (d ∷ ds))

  -- The handler up to the query that it asks.
  unfoldable pub prepare : Params → Prepared
  prepare ps = accepted (bind ps)

  abbrev pub reply_of : Option FlowResultPage → Reply
  reply_of none = unavailable
  reply_of (some p) = page p

  unfoldable pub ask : Option (FlowQuery → Option FlowResultPage) → Prepared → Reply
  ask querier (refused reply) = reply
  ask none (asks q) = unavailable
  ask (some query) (asks q) = reply_of (query q)

  unfoldable pub flows : Option (FlowQuery → Option FlowResultPage) → Params → Reply
  flows querier ps = ask querier (prepare ps)
