-- ===== src/Netflow/Templated.antt =====
-- internal/source/netflow/decode.go: `decodeTemplated`, once the datagram has been parsed.
use Prim.Native.String.{String}
use netflow_collector.Base.{ℕ, ◌-◌, ◌*◌, none, List, [], ◌∷◌, ◌++◌, map, if◌then◌else◌}
use netflow_collector.Flow.Time.{Time, millisecond, unix, zero_time, is_zero}
use netflow_collector.Flow.Addr.{Addr, invalid}
use netflow_collector.Flow.Record.{FlowRecord}
use netflow_collector.Netflow.Fields.{DataField, apply_field}

-- goflow2's flow sets: a data flow set has records, each a list of fields.
pub data FlowSet : Type 0 where
  data_flow_set : List (List DataField) → FlowSet
  other_set : FlowSet

-- The packet that goflow2 filled in.
pub data Packet : Type 0 where
  nfv9 : ℕ → ℕ → List FlowSet → Packet  -- UnixSeconds, SystemUptime
  ipfix : ℕ → List FlowSet → Packet  -- ExportTime

abbrev pub flow_sets : Packet → List FlowSet
flow_sets (nfv9 secs uptime sets) = sets
flow_sets (ipfix at sets) = sets

-- The anchor of the fields that count from the exporter's boot.
unfoldable pub boot_of : Packet → Time
boot_of (nfv9 secs uptime sets) = unix secs 0 - uptime * millisecond
boot_of (ipfix at sets) = unix at 0

abbrev pub type_of : Packet → String
type_of (nfv9 secs uptime sets) = "netflow9"
type_of (ipfix at sets) = "ipfix"

unfoldable pub base_of : Packet → Addr → Time → FlowRecord
base_of p exporter received_at = record {
  received_at = received_at;
  exporter_addr = exporter;
  exporter_id = 0;
  flow_type = type_of p;
  first_switched = zero_time;
  last_switched = zero_time;
  src_addr = invalid;
  dst_addr = invalid;
  src_port = 0;
  dst_port = 0;
  protocol = 0;
  tcp_flags = 0;
  packets = 0;
  bytes = 0;
  sampling_rate = 1;
  input_iface = 0;
  output_iface = 0;
  src_as = 0;
  dst_as = 0;
  next_hop = invalid;
  dedup_key = none;
}

unfoldable pub apply_fields : Time → FlowRecord → List DataField → FlowRecord
apply_fields boot r [] = r
apply_fields boot r (f ∷ fs) = apply_fields boot (apply_field r f boot) fs

unfoldable pub settle_last : FlowRecord → FlowRecord
settle_last r = if is_zero r.last_switched then record r { last_switched = r.first_switched } else r

unfoldable pub record_of : Time → FlowRecord → List DataField → FlowRecord
record_of boot base fs = settle_last (apply_fields boot base fs)

-- The records of every data flow set, in order.
unfoldable pub records_of : Time → FlowRecord → List FlowSet → List FlowRecord
records_of boot base [] = []
records_of boot base (data_flow_set rs ∷ sets) =
    map (record_of boot base) rs ++ records_of boot base sets
records_of boot base (other_set ∷ sets) = records_of boot base sets

unfoldable pub templated : Packet → Addr → Time → List FlowRecord
templated p exporter received_at =
    records_of (boot_of p) (base_of p exporter received_at) (flow_sets p)
