-- ===== src/Api/Render.antt =====
-- internal/api/flows.go: what the API renders. `Format` at the API's layout and `Addr.String` are parameters.
use Prim.Native.String.{String}
use netflow_collector.Base.{ℕ, Option, none, some, if◌then◌else◌}
use netflow_collector.Flow.Time.{Time}
use netflow_collector.Flow.Addr.{Addr, is_valid}
use netflow_collector.Flow.Record.{FlowRecord}

pub record FlowJson : Type 0 where
  pub received_at : String
  pub exporter_id : ℕ
  pub exporter_addr : Addr
  pub flow_type : String
  pub first_switched : String
  pub last_switched : String
  pub src_addr : Addr
  pub dst_addr : Addr
  pub src_port : ℕ
  pub dst_port : ℕ
  pub protocol : ℕ
  pub tcp_flags : ℕ
  pub packets : ℕ
  pub bytes : ℕ
  pub sampling_rate : ℕ
  pub input_iface : ℕ
  pub output_iface : ℕ
  pub src_as : ℕ
  pub dst_as : ℕ
  pub next_hop : Option String

pub record Exporter : Type 0 where
  pub id : ℕ
  pub ip_address : Addr
  pub label : Option String
  pub first_seen_at : Time
  pub last_seen_at : Time

pub record ExporterJson : Type 0 where
  pub id : ℕ
  pub ip_address : Addr
  pub label : Option String
  pub first_seen_at : String
  pub last_seen_at : String

module _ (format : Time → String) (text : Addr → String) where
  unfoldable pub to_json : FlowRecord → FlowJson
  to_json r = record {
    received_at = format r.received_at;
    exporter_id = r.exporter_id;
    exporter_addr = r.exporter_addr;
    flow_type = r.flow_type;
    first_switched = format r.first_switched;
    last_switched = format r.last_switched;
    src_addr = r.src_addr;
    dst_addr = r.dst_addr;
    src_port = r.src_port;
    dst_port = r.dst_port;
    protocol = r.protocol;
    tcp_flags = r.tcp_flags;
    packets = r.packets;
    bytes = r.bytes;
    sampling_rate = r.sampling_rate;
    input_iface = r.input_iface;
    output_iface = r.output_iface;
    src_as = r.src_as;
    dst_as = r.dst_as;
    next_hop = if is_valid r.next_hop then some (text r.next_hop) else none;
  }

  unfoldable pub to_exporter_json : Exporter → ExporterJson
  to_exporter_json e = record {
    id = e.id;
    ip_address = e.ip_address;
    label = e.label;
    first_seen_at = format e.first_seen_at;
    last_seen_at = format e.last_seen_at;
  }
