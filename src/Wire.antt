-- ===== src/Wire.antt =====
-- internal/wire/wire.go: the message format between the edge and the central tier.
pub mod RoundTrip
use Prim.Native.String.{String}
use netflow_collector.Base.{
  ℕ, Bool, true, false, not, ◌||◌, ◌≡◌, Option, none, some, ◌==◌, if◌then◌else◌,
}
use netflow_collector.Flow.Time.{Time, zero_time, is_zero, trunc_micro}
use netflow_collector.Flow.Addr.{Addr, invalid, is_valid, unmap}
use netflow_collector.Flow.Record.{FlowRecord, valid}

abbrev pub format : String
format = "netflow-collector/v1"

pub record Message : Type 0 where
  pub format : String
  pub exporter_addr : Addr
  pub flow_type : String
  pub received_at : Option Time
  pub first_switched : Time
  pub last_switched : Time
  pub src_addr : Addr
  pub dst_addr : Addr
  pub src_port : ℕ
  pub dst_port : ℕ
  pub protocol : ℕ
  pub tcp_flags : ℕ
  pub packets : ℕ
  pub bytes : ℕ
  pub sampling_rate : ℕ
  pub input_iface : ℕ
  pub output_iface : ℕ
  pub src_as : ℕ
  pub dst_as : ℕ
  pub next_hop : Option Addr

-- encoding/json at `Message`: both directions can fail, and a message that could be marshalled is
-- what unmarshalling its body gives back.
pub record Codec : Type 1 where
  pub Body : Type 0
  pub marshal : Message → Option Body
  pub unmarshal : Body → Option Message
  pub unmarshal-marshal : (m : Message) (b : Body) → marshal m ≡ some b → unmarshal b ≡ some m

pub data WireError : Type 0 where
  bad_json no_exporter bad_flow_type no_addresses no_switched no_received_at : WireError

pub data Decoded : Type 0 where
  ok : FlowRecord → Decoded
  err : WireError → Decoded

-- The message that `Encode` marshals.
unfoldable pub message_of : FlowRecord → Message
message_of r = record {
  format = format;
  exporter_addr = r.exporter_addr;
  flow_type = r.flow_type;
  received_at = some (trunc_micro r.received_at);
  first_switched = trunc_micro r.first_switched;
  last_switched = trunc_micro r.last_switched;
  src_addr = r.src_addr;
  dst_addr = r.dst_addr;
  src_port = r.src_port;
  dst_port = r.dst_port;
  protocol = r.protocol;
  tcp_flags = r.tcp_flags;
  packets = r.packets;
  bytes = r.bytes;
  sampling_rate = r.sampling_rate;
  input_iface = r.input_iface;
  output_iface = r.output_iface;
  src_as = r.src_as;
  dst_as = r.dst_as;
  next_hop = if is_valid r.next_hop then some r.next_hop else none;
}

-- `m.NextHop != nil && m.NextHop.IsValid()`
unfoldable pub next_hop_of : Option Addr → Addr
next_hop_of none = invalid
next_hop_of (some a) = if is_valid a then unmap a else invalid

-- The record that `Decode` builds once its checks have passed.
unfoldable pub record_of : Message → Time → FlowRecord
record_of m at = record {
  received_at = trunc_micro at;
  exporter_addr = unmap m.exporter_addr;
  exporter_id = 0;
  flow_type = m.flow_type;
  first_switched = trunc_micro m.first_switched;
  last_switched = trunc_micro m.last_switched;
  src_addr = unmap m.src_addr;
  dst_addr = unmap m.dst_addr;
  src_port = m.src_port;
  dst_port = m.dst_port;
  protocol = m.protocol;
  tcp_flags = m.tcp_flags;
  packets = m.packets;
  bytes = m.bytes;
  sampling_rate = if m.sampling_rate == 0 then 1 else m.sampling_rate;
  input_iface = m.input_iface;
  output_iface = m.output_iface;
  src_as = m.src_as;
  dst_as = m.dst_as;
  next_hop = next_hop_of m.next_hop;
  dedup_key = none;
}

abbrev pub received_of : Option Time → Time → Time
received_of none record_time = record_time
received_of (some at) record_time = at

-- `Decode` after the body has been unmarshalled.
unfoldable pub check : Message → Time → Decoded
check m record_time =
    if not (is_valid m.exporter_addr)
    then err no_exporter
    else if not (valid m.flow_type)
    then err bad_flow_type
    else if not (is_valid m.src_addr) || not (is_valid m.dst_addr)
    then err no_addresses
    else if is_zero m.first_switched || is_zero m.last_switched
    then err no_switched
    else if is_zero (received_of m.received_at record_time)
    then err no_received_at
    else ok (record_of m (received_of m.received_at record_time))

module _ (codec : Codec) where
  open codec use {Body, marshal, unmarshal}

  unfoldable pub encode : FlowRecord → Option Body
  encode r = marshal (message_of r)

  unfoldable pub decode : Body → Time → Decoded
  unfolding check
  decode body record_time = elim (unmarshal body) [
    | none ↦ err bad_json
    | some m ↦ check m record_time
  ]
