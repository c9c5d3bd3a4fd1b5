-- ===== src/Wire/RoundTrip.antt =====
-- wire.go: `Decode` after `Encode`.
use netflow_collector.Base.{◌≡◌, ◌≢◌, refl, ap, ◌∙◌, true, none, some, ◌==◌, if◌then◌else◌, arith}
use netflow_collector.Flow.Time.{Time, zero_time, trunc_micro}
use netflow_collector.Flow.Addr.{Addr, invalid, is_valid, unmap, unmap-unmap}
use netflow_collector.Flow.Record.{FlowRecord, valid}
use netflow_collector.Wire.{Codec, ok, message_of, next_hop_of, record_of, check, encode, decode}

-- What a reader of the topic sees of a record: times in microseconds, addresses unmapped, a sampling
-- rate of at least 1, and nothing that belongs to the store or the transport.
abbrev pub normal : FlowRecord → FlowRecord
normal r = record r {
  received_at = trunc_micro r.received_at;
  exporter_addr = unmap r.exporter_addr;
  exporter_id = 0;
  first_switched = trunc_micro r.first_switched;
  last_switched = trunc_micro r.last_switched;
  src_addr = unmap r.src_addr;
  dst_addr = unmap r.dst_addr;
  sampling_rate = if r.sampling_rate == 0 then 1 else r.sampling_rate;
  next_hop = unmap r.next_hop;
  dedup_key = none;
}

-- A record that has all that `Decode` requires.
pub record IsComplete (r : FlowRecord) : Type 0 where
  pub exporter : is_valid r.exporter_addr ≡ true
  pub flow_type : valid r.flow_type ≡ true
  pub src : is_valid r.src_addr ≡ true
  pub dst : is_valid r.dst_addr ≡ true
  pub first : trunc_micro r.first_switched ≢ zero_time
  pub last : trunc_micro r.last_switched ≢ zero_time
  pub received : trunc_micro r.received_at ≢ zero_time

next_hop_lem : (a : Addr) → next_hop_of (if is_valid a then some a else none) ≡ unmap a
unfolding next_hop_of is_valid unmap
next_hop_lem invalid = refl
next_hop_lem (Addr.v4 n) = refl
next_hop_lem (Addr.v6 n zone) = refl

pub trunc-trunc : (t : Time) → trunc_micro (trunc_micro t) ≡ trunc_micro t
trunc-trunc t = omega arith

record_of-message_of :
    (r : FlowRecord) → record_of (message_of r) (trunc_micro r.received_at) ≡ normal r
unfolding record_of message_of
record_of-message_of r = ground (arith, next_hop_lem r.next_hop)

check-message_of :
    (r : FlowRecord) (t : Time)
    → IsComplete r
    → check (message_of r) t ≡ ok (record_of (message_of r) (trunc_micro r.received_at))
unfolding check message_of
check-message_of r t c = ground (arith, c)

module _ (codec : Codec) where
  open codec use {Body, unmarshal-marshal}

  -- A complete record that could be encoded is decoded, whatever the transport's timestamp, to its
  -- normal form: nothing else of it is lost or changed.
  pub decode-encode :
      (r : FlowRecord) (b : Body) (t : Time)
      → IsComplete r
      → encode codec r ≡ some b
      → decode codec b t ≡ ok (normal r)
  unfolding encode decode
  decode-encode r b t c e =
      rw (unmarshal-marshal (message_of r) b e, decode)
        (check-message_of r t c ∙ ap ok (record_of-message_of r))

-- The normal form is what a second trip through the topic leaves alone.
pub normal-normal : (r : FlowRecord) → normal (normal r) ≡ normal r
normal-normal r = ground (
  arith,
  unmap-unmap r.exporter_addr,
  unmap-unmap r.src_addr,
  unmap-unmap r.dst_addr,
  unmap-unmap r.next_hop,
)
