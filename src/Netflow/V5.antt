-- ===== src/Netflow/V5.antt =====
-- internal/source/netflow/decode.go: `decodeV5`.
use netflow_collector.Base.{
  ℕ, ◌+◌, ◌-◌, ◌*◌, ◌%◌, ◌^◌, Option, none, some, List, map, length, ltb, get_elem?, ◌==◌,
  if◌then◌else◌,
}
use netflow_collector.Flow.Time.{Time, millisecond, unix}
use netflow_collector.Flow.Addr.{Addr}
use netflow_collector.Flow.Record.{FlowRecord}
use netflow_collector.Netflow.Numbers.{ipv4, next_hop_4, uptime_to_time}

abbrev pub v5_header_len : ℕ
v5_header_len = 24

abbrev pub v5_record_len : ℕ
v5_record_len = 48

pub data DecodeError : Type 0 where
  short : DecodeError
  truncated : ℕ → ℕ → DecodeError  -- bytes, records
  malformed : DecodeError  -- goflow2's error
  unsupported : ℕ → DecodeError

pub data Records : Type 0 where
  ok : List FlowRecord → Records
  err : DecodeError → Records

-- What the code reads of goflow2's PacketNetFlowV5; the numbers have the widths of its fields.
pub record Record5 : Type 0 where
  pub first : ℕ
  pub last : ℕ
  pub src_addr : ℕ
  pub dst_addr : ℕ
  pub src_port : ℕ
  pub dst_port : ℕ
  pub proto : ℕ
  pub tcp_flags : ℕ
  pub d_pkts : ℕ
  pub d_octets : ℕ
  pub input : ℕ
  pub output : ℕ
  pub src_as : ℕ
  pub dst_as : ℕ
  pub next_hop : ℕ

pub record Packet5 : Type 0 where
  pub unix_secs : ℕ
  pub unix_nsecs : ℕ
  pub sys_uptime : ℕ
  pub sampling_interval : ℕ
  pub records : List Record5

-- The byte of a datagram that is long enough to have it.
abbrev pub byte : List ℕ → ℕ → ℕ
byte b i = elim (get_elem? b i) [ none ↦ 0 | some c ↦ c ]

-- `binary.BigEndian.Uint16`
abbrev pub uint_16 : List ℕ → ℕ → ℕ
uint_16 b i = byte b i * 256 + byte b (i + 1)

unfoldable pub boot_of : Packet5 → Time
boot_of pkt = unix pkt.unix_secs pkt.unix_nsecs - pkt.sys_uptime * millisecond

-- The low 14 bits are the interval.
unfoldable pub rate_of : Packet5 → ℕ
rate_of pkt = let n = pkt.sampling_interval % 2 ^ 14 in if n == 0 then 1 else n

unfoldable pub record_5 : Packet5 → Addr → Time → Record5 → FlowRecord
record_5 pkt exporter received_at r = record {
  received_at = received_at;
  exporter_addr = exporter;
  exporter_id = 0;
  flow_type = "netflow5";
  first_switched = uptime_to_time (boot_of pkt) r.first;
  last_switched = uptime_to_time (boot_of pkt) r.last;
  src_addr = ipv4 r.src_addr;
  dst_addr = ipv4 r.dst_addr;
  src_port = r.src_port;
  dst_port = r.dst_port;
  protocol = r.proto;
  tcp_flags = r.tcp_flags;
  packets = r.d_pkts;
  bytes = r.d_octets;
  sampling_rate = rate_of pkt;
  input_iface = r.input;
  output_iface = r.output;
  src_as = r.src_as;
  dst_as = r.dst_as;
  next_hop = next_hop_4 r.next_hop;
  dedup_key = none;
}

unfoldable pub records_5 : Addr → Time → Option Packet5 → Records
records_5 exporter received_at none = err malformed
records_5 exporter received_at (some pkt) = ok (map (record_5 pkt exporter received_at) pkt.records)

-- `netflowlegacy.DecodeMessageVersion` is a parameter.
module _ (decode_message : List ℕ → Option Packet5) where
  unfoldable pub decode_v5 : List ℕ → Addr → Time → Records
  decode_v5 b exporter received_at =
      if ltb (length b) v5_header_len
      then err short
      else if ltb (length b) (v5_header_len + uint_16 b 2 * v5_record_len)
      then err (truncated (length b) (uint_16 b 2))
      else records_5 exporter received_at (decode_message b)
