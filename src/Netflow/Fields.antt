-- ===== src/Netflow/Fields.antt =====
-- internal/source/netflow/decode.go: `applyField`.
use netflow_collector.Base.{
  ℕ, ◌%◌, ◌^◌, Bool, not, ◌&&◌, Option, none, some, List, [], ◌∷◌, ltb, if◌then◌else◌,
}
use netflow_collector.Flow.Time.{Time, unix}
use netflow_collector.Flow.Addr.{Addr, is_valid, is_unspecified}
use netflow_collector.Flow.Record.{FlowRecord}
use netflow_collector.Netflow.Numbers.{be_uint, addr, uptime_to_time, unix_milli, ntp_to_time}

-- The information elements that the code names; `other` is any other number.
pub data Element : Type 0 where
  octet_delta_count packet_delta_count protocol_identifier tcp_control_bits : Element
  source_transport_port destination_transport_port : Element
  source_ipv4_address source_ipv6_address : Element
  destination_ipv4_address destination_ipv6_address : Element
  ip_next_hop_ipv4_address ip_next_hop_ipv6_address : Element
  ingress_interface egress_interface bgp_source_as_number bgp_destination_as_number : Element
  sampling_interval sampler_random_interval sampling_packet_interval : Element
  flow_start_sys_up_time flow_end_sys_up_time flow_start_seconds flow_end_seconds : Element
  flow_start_milliseconds flow_end_milliseconds : Element
  flow_start_microseconds flow_end_microseconds : Element
  other : ℕ → Element

-- goflow2's DataField; `value` is `none` where the value is not a byte slice.
pub record DataField : Type 0 where
  pub pen_provided : Bool
  pub type_ : Element
  pub value : Option (List ℕ)

unfoldable pub set_next_hop : Addr → FlowRecord → FlowRecord
set_next_hop a r = if is_valid a && not (is_unspecified a) then record r { next_hop = a } else r

unfoldable pub set_sampling_rate : ℕ → FlowRecord → FlowRecord
set_sampling_rate n r = if ltb 0 n then record r { sampling_rate = n } else r

-- The switch, on a value of at least one byte.
unfoldable pub set_field : Element → List ℕ → Time → FlowRecord → FlowRecord
set_field octet_delta_count v boot r = record r { bytes = be_uint v }
set_field packet_delta_count v boot r = record r { packets = be_uint v }
set_field protocol_identifier v boot r = record r { protocol = be_uint v % 2 ^ 8 }
set_field tcp_control_bits v boot r = record r { tcp_flags = be_uint v % 2 ^ 8 }
set_field source_transport_port v boot r = record r { src_port = be_uint v % 2 ^ 16 }
set_field destination_transport_port v boot r = record r { dst_port = be_uint v % 2 ^ 16 }
set_field source_ipv4_address v boot r = record r { src_addr = addr v }
set_field source_ipv6_address v boot r = record r { src_addr = addr v }
set_field destination_ipv4_address v boot r = record r { dst_addr = addr v }
set_field destination_ipv6_address v boot r = record r { dst_addr = addr v }
set_field ip_next_hop_ipv4_address v boot r = set_next_hop (addr v) r
set_field ip_next_hop_ipv6_address v boot r = set_next_hop (addr v) r
set_field ingress_interface v boot r = record r { input_iface = be_uint v % 2 ^ 32 }
set_field egress_interface v boot r = record r { output_iface = be_uint v % 2 ^ 32 }
set_field bgp_source_as_number v boot r = record r { src_as = be_uint v % 2 ^ 32 }
set_field bgp_destination_as_number v boot r = record r { dst_as = be_uint v % 2 ^ 32 }
set_field sampling_interval v boot r = set_sampling_rate (be_uint v % 2 ^ 32) r
set_field sampler_random_interval v boot r = set_sampling_rate (be_uint v % 2 ^ 32) r
set_field sampling_packet_interval v boot r = set_sampling_rate (be_uint v % 2 ^ 32) r
set_field flow_start_sys_up_time v boot r = record r {
  first_switched = uptime_to_time boot (be_uint v % 2 ^ 32);
}
set_field flow_end_sys_up_time v boot r = record r {
  last_switched = uptime_to_time boot (be_uint v % 2 ^ 32);
}
set_field flow_start_seconds v boot r = record r { first_switched = unix (be_uint v) 0 }
set_field flow_end_seconds v boot r = record r { last_switched = unix (be_uint v) 0 }
set_field flow_start_milliseconds v boot r = record r { first_switched = unix_milli (be_uint v) }
set_field flow_end_milliseconds v boot r = record r { last_switched = unix_milli (be_uint v) }
set_field flow_start_microseconds v boot r = record r { first_switched = ntp_to_time (be_uint v) }
set_field flow_end_microseconds v boot r = record r { last_switched = ntp_to_time (be_uint v) }
set_field (other n) v boot r = r

-- A value that is no byte slice or an empty one sets nothing.
unfoldable pub set_value : Element → Option (List ℕ) → Time → FlowRecord → FlowRecord
set_value e none boot r = r
set_value e (some []) boot r = r
set_value e (some (b ∷ bs)) boot r = set_field e (b ∷ bs) boot r

unfoldable pub apply_field : FlowRecord → DataField → Time → FlowRecord
apply_field r f boot = if f.pen_provided then r else set_value f.type_ f.value boot r
