-- ===== src/Netflow/Reads.antt =====
-- internal/source/netflow/decode.go: what the numbers of a v9 or IPFIX record are, told field by field.
use netflow_collector.Base.{
  ℕ, ◌%◌, ◌^◌, ◌<◌, ◌≤◌, ◌≡◌, refl, ap, ◌∙◌, Bool, true, false, not, ◌&&◌, ◌||◌, Option, none, some,
  List, [], ◌∷◌, ◌++◌, ltb, All, if◌then◌else◌, arith, Bool-cases, inl, inr, map,
}
use netflow_collector.Flow.Time.{Time}
use netflow_collector.Flow.Addr.{Addr, of_bytes}
use netflow_collector.Flow.Record.{FlowRecord}
use netflow_collector.Netflow.Numbers.{be_uint, be_uint_lem}
use netflow_collector.Netflow.Fields.{
  Element, other, octet_delta_count, packet_delta_count, protocol_identifier, tcp_control_bits,
  source_transport_port, destination_transport_port, source_ipv4_address, source_ipv6_address,
  destination_ipv4_address, destination_ipv6_address, ip_next_hop_ipv4_address,
  ip_next_hop_ipv6_address, ingress_interface, egress_interface, bgp_source_as_number,
  bgp_destination_as_number, sampling_interval, sampler_random_interval, sampling_packet_interval,
  flow_start_sys_up_time, flow_end_sys_up_time, flow_start_seconds, flow_end_seconds,
  flow_start_milliseconds, flow_end_milliseconds, flow_start_microseconds, flow_end_microseconds,
  DataField, set_next_hop, set_sampling_rate, set_field, set_value, apply_field,
}
use netflow_collector.Netflow.Templated.{
  FlowSet, data_flow_set, other_set, Packet, flow_sets, boot_of, base_of, apply_fields, settle_last,
  record_of, records_of, templated,
}
pub mod Values
pub mod Records

-- The numbers of a record that fields give, one for each.
pub data Quantity : Type 0 where
  bytes packets protocol tcp_flags src_port dst_port : Quantity
  input_iface output_iface src_as dst_as : Quantity

abbrev pub quantity : Quantity → FlowRecord → ℕ
quantity bytes r = r.bytes
quantity packets r = r.packets
quantity protocol r = r.protocol
quantity tcp_flags r = r.tcp_flags
quantity src_port r = r.src_port
quantity dst_port r = r.dst_port
quantity input_iface r = r.input_iface
quantity output_iface r = r.output_iface
quantity src_as r = r.src_as
quantity dst_as r = r.dst_as

-- The bits of its field in FlowRecord.
abbrev pub width : Quantity → ℕ
width bytes = 64
width packets = 64
width protocol = 8
width tcp_flags = 8
width src_port = 16
width dst_port = 16
width input_iface = 32
width output_iface = 32
width src_as = 32
width dst_as = 32

-- Which quantity an information element gives.
abbrev pub gives : Element → Option Quantity
gives octet_delta_count = some bytes
gives packet_delta_count = some packets
gives protocol_identifier = some protocol
gives tcp_control_bits = some tcp_flags
gives source_transport_port = some src_port
gives destination_transport_port = some dst_port
gives ingress_interface = some input_iface
gives egress_interface = some output_iface
gives bgp_source_as_number = some src_as
gives bgp_destination_as_number = some dst_as
gives _ = none

abbrev pub same : Quantity → Quantity → Bool
same bytes bytes = true
same packets packets = true
same protocol protocol = true
same tcp_flags tcp_flags = true
same src_port src_port = true
same dst_port dst_port = true
same input_iface input_iface = true
same output_iface output_iface = true
same src_as src_as = true
same dst_as dst_as = true
same _ _ = false

abbrev pub is_given : Quantity → Option Quantity → Bool
is_given q none = false
is_given q (some p) = same q p

abbrev pub is_sampling : Element → Bool
is_sampling sampling_interval = true
is_sampling sampler_random_interval = true
is_sampling sampling_packet_interval = true
is_sampling _ = false

-- The last big-endian number so far, after one more field: a field counts if it has at least one byte
-- and its element gives the quantity.
abbrev pub later : Quantity → Element → Option (List ℕ) → Option ℕ → Option ℕ
later q e none n = n
later q e (some []) n = n
later q e (some (b ∷ bs)) n = if is_given q (gives e) then some (of_bytes 0 (b ∷ bs)) else n

-- The last number that the fields give, an enterprise's own fields left out.
abbrev pub last_given : Quantity → Option ℕ → List DataField → Option ℕ
last_given q n [] = n
last_given q n (f ∷ fs) = last_given q (if f.pen_provided then n else later q f.type_ f.value n) fs

abbrev pub or_zero : Option ℕ → ℕ
or_zero none = 0
or_zero (some n) = n

-- The same of the three sampling elements, where a number that is 0 in its low 32 bits does not count.
abbrev pub rate_after : Element → Option (List ℕ) → ℕ → ℕ
rate_after e none n = n
rate_after e (some []) n = n
rate_after e (some (b ∷ bs)) n =
    if is_sampling e && ltb 0 (of_bytes 0 (b ∷ bs) % 2 ^ 32)
    then of_bytes 0 (b ∷ bs) % 2 ^ 32
    else n

abbrev pub last_rate : ℕ → List DataField → ℕ
last_rate n [] = n
last_rate n (f ∷ fs) = last_rate (if f.pen_provided then n else rate_after f.type_ f.value n) fs

abbrev pub AreBytes : Option (List ℕ) → Type 0
AreBytes none = Unit
AreBytes (some v) = All (λ c. c < 256) v

-- What the fields of one record make of it.
pub record Reads (fs : List DataField) (r : FlowRecord) : Type 0 where
  pub number : (q : Quantity) → quantity q r ≡ or_zero (last_given q none fs) % 2 ^ width q
  pub rate : r.sampling_rate ≡ last_rate 1 fs
  pub some_rate : 1 ≤ r.sampling_rate

-- The field lists of the data flow sets, in order.
abbrev pub field_lists : List FlowSet → List (List DataField)
field_lists [] = []
field_lists (data_flow_set rs ∷ sets) = rs ++ field_lists sets
field_lists (other_set ∷ sets) = field_lists sets

-- As many records as field lists, each of what its fields give.
abbrev pub AllRead : List (List DataField) → List FlowRecord → Type 0
AllRead [] [] = Unit
AllRead (fs ∷ rs) (r ∷ out) = Reads fs r × AllRead rs out
AllRead [] (r ∷ out) = ⊥
AllRead (fs ∷ rs) [] = ⊥

-- Every field's value is of bytes.
abbrev pub AllBytes : List (List DataField) → Type 0
AllBytes rs = All (λ fs. All (λ f. AreBytes f.value) fs) rs
