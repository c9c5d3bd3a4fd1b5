-- ===== src/Sink/Columns.antt =====
-- internal/sink/postgres/rows.go: a record as a row of signed columns, and back. What an inet column
-- gives back for an address is a parameter.
use netflow_collector.Base.{
  ℕ, ◌-◌, ◌%◌, ◌^◌, ◌<◌, ◌≡◌, refl, Option, none, some, List, ltb, if◌then◌else◌, arith,
}
use netflow_collector.Base.Int.{ℤ, pos, negsuc}
use netflow_collector.Flow.Time.{Time, trunc_micro}
use netflow_collector.Flow.Addr.{Addr, invalid, is_valid}
use netflow_collector.Flow.Record.{FlowType, FlowRecord}

-- `int32(u)` of a uint32, and `int64(u)` of a uint64
unfoldable pub int_32 : ℕ → ℤ
int_32 u = if ltb u (2 ^ 31) then pos u else negsuc (2 ^ 32 - 1 - u)

unfoldable pub int_64 : ℕ → ℤ
int_64 u = if ltb u (2 ^ 63) then pos u else negsuc (2 ^ 64 - 1 - u)

-- `uint8(z)`, `uint16(z)`, `uint32(z)`, `uint64(z)`
unfoldable pub uint_8 : ℤ → ℕ
uint_8 (pos n) = n % 2 ^ 8
uint_8 (negsuc n) = 2 ^ 8 - 1 - n % 2 ^ 8

unfoldable pub uint_16 : ℤ → ℕ
uint_16 (pos n) = n % 2 ^ 16
uint_16 (negsuc n) = 2 ^ 16 - 1 - n % 2 ^ 16

unfoldable pub uint_32 : ℤ → ℕ
uint_32 (pos n) = n % 2 ^ 32
uint_32 (negsuc n) = 2 ^ 32 - 1 - n % 2 ^ 32

unfoldable pub uint_64 : ℤ → ℕ
uint_64 (pos n) = n % 2 ^ 64
uint_64 (negsuc n) = 2 ^ 64 - 1 - n % 2 ^ 64

-- One element of each array of `columns`.
pub record Columns : Type 0 where
  pub received_at : Time
  pub exporter_id : ℕ
  pub flow_type : FlowType
  pub first_switched : Time
  pub last_switched : Time
  pub src_addr : Addr
  pub dst_addr : Addr
  pub src_port : ℤ
  pub dst_port : ℤ
  pub protocol : ℤ
  pub tcp_flags : ℤ
  pub packets : ℤ
  pub bytes : ℤ
  pub sampling_rate : ℤ
  pub in_iface : ℤ
  pub out_iface : ℤ
  pub src_as : ℤ
  pub dst_as : ℤ
  pub next_hop : Option Addr
  pub dedup_key : Option (List ℕ)

-- What `add` appends. The ports and the 8-bit numbers go to wider signed columns.
unfoldable pub add : FlowRecord → ℕ → Columns
add r exporter_id = record {
  received_at = trunc_micro r.received_at;
  exporter_id = exporter_id;
  flow_type = r.flow_type;
  first_switched = trunc_micro r.first_switched;
  last_switched = trunc_micro r.last_switched;
  src_addr = r.src_addr;
  dst_addr = r.dst_addr;
  src_port = pos r.src_port;
  dst_port = pos r.dst_port;
  protocol = pos r.protocol;
  tcp_flags = pos r.tcp_flags;
  packets = int_64 r.packets;
  bytes = int_64 r.bytes;
  sampling_rate = int_32 r.sampling_rate;
  in_iface = int_32 r.input_iface;
  out_iface = int_32 r.output_iface;
  src_as = int_32 r.src_as;
  dst_as = int_32 r.dst_as;
  next_hop = if is_valid r.next_hop then some r.next_hop else none;
  dedup_key = r.dedup_key;
}

abbrev pub scan_next_hop : (Addr → Addr) → Option Addr → Addr
scan_next_hop inet none = invalid
scan_next_hop inet (some a) = inet a

-- `scanRecord`, of a row and the address of its exporter's row.
unfoldable pub scan_record : (Addr → Addr) → Columns → Addr → FlowRecord
scan_record inet c exporter = record {
  received_at = c.received_at;
  exporter_addr = inet exporter;
  exporter_id = c.exporter_id;
  flow_type = c.flow_type;
  first_switched = c.first_switched;
  last_switched = c.last_switched;
  src_addr = inet c.src_addr;
  dst_addr = inet c.dst_addr;
  src_port = uint_16 c.src_port;
  dst_port = uint_16 c.dst_port;
  protocol = uint_8 c.protocol;
  tcp_flags = uint_8 c.tcp_flags;
  packets = uint_64 c.packets;
  bytes = uint_64 c.bytes;
  sampling_rate = uint_32 c.sampling_rate;
  input_iface = uint_32 c.in_iface;
  output_iface = uint_32 c.out_iface;
  src_as = uint_32 c.src_as;
  dst_as = uint_32 c.dst_as;
  next_hop = scan_next_hop inet c.next_hop;
  dedup_key = c.dedup_key;
}

-- The widths of FlowRecord's fields.
pub record HasWidths (r : FlowRecord) : Type 0 where
  pub src_port : r.src_port < 2 ^ 16
  pub dst_port : r.dst_port < 2 ^ 16
  pub protocol : r.protocol < 2 ^ 8
  pub tcp_flags : r.tcp_flags < 2 ^ 8
  pub packets : r.packets < 2 ^ 64
  pub bytes : r.bytes < 2 ^ 64
  pub sampling_rate : r.sampling_rate < 2 ^ 32
  pub input_iface : r.input_iface < 2 ^ 32
  pub output_iface : r.output_iface < 2 ^ 32
  pub src_as : r.src_as < 2 ^ 32
  pub dst_as : r.dst_as < 2 ^ 32

through_32 : (u : ℕ) → u < 2 ^ 32 → uint_32 (int_32 u) ≡ u
unfolding int_32 uint_32
through_32 u h = ground arith

through_64 : (u : ℕ) → u < 2 ^ 64 → uint_64 (int_64 u) ≡ u
unfolding int_64 uint_64
through_64 u h = ground arith

through_next_hop :
    (inet : Addr → Addr) (a : Addr)
    → scan_next_hop inet (if is_valid a then some a else none)
      ≡ (if is_valid a then inet a else invalid)
unfolding is_valid
through_next_hop inet invalid = refl
through_next_hop inet (Addr.v4 n) = refl
through_next_hop inet (Addr.v6 n zone) = refl

-- What a record is after it has been stored: times in microseconds, addresses as the columns give them back,
-- the exporter's id.
abbrev pub stored : (Addr → Addr) → ℕ → FlowRecord → FlowRecord
stored inet id r = record r {
  received_at = trunc_micro r.received_at;
  exporter_addr = inet r.exporter_addr;
  exporter_id = id;
  first_switched = trunc_micro r.first_switched;
  last_switched = trunc_micro r.last_switched;
  src_addr = inet r.src_addr;
  dst_addr = inet r.dst_addr;
  next_hop = if is_valid r.next_hop then inet r.next_hop else invalid;
}

through_16 : (u : ℕ) → u < 2 ^ 16 → uint_16 (pos u) ≡ u
unfolding uint_16
through_16 u h = omega arith

through_8 : (u : ℕ) → u < 2 ^ 8 → uint_8 (pos u) ≡ u
unfolding uint_8
through_8 u h = omega arith

-- A record whose fields have their widths is read back from its row with every number it had, those
-- above the signed columns' ranges included, and changed only as storing changes it.
pub scan_record-add :
    (inet : Addr → Addr) (id : ℕ) (r : FlowRecord)
    → HasWidths r
    → scan_record inet (add r id) r.exporter_addr ≡ stored inet id r
unfolding scan_record add
scan_record-add inet id r h =
    rw
      (
        through_16 r.src_port h.src_port,
        through_16 r.dst_port h.dst_port,
        through_8 r.protocol h.protocol,
        through_8 r.tcp_flags h.tcp_flags,
        through_64 r.packets h.packets,
        through_64 r.bytes h.bytes,
        through_32 r.sampling_rate h.sampling_rate,
        through_32 r.input_iface h.input_iface,
        through_32 r.output_iface h.output_iface,
        through_32 r.src_as h.src_as,
        through_32 r.dst_as h.dst_as,
        through_next_hop inet r.next_hop,
      )
      refl
