-- ===== src/Sink/Clickhouse.antt =====
-- internal/sink/clickhouse: rows, exporters' ids, `WriteBatch`, and `Query`. The connection is a parameter.
use Prim.Native.Nat.{bit_xor}
use Prim.Native.String.{String}
use text.Mathlib.Text.{◌==◌ as str_eq}
use netflow_collector.Base.{
  ℕ, ◌+◌, ◌*◌, ◌%◌, ◌^◌, ◌==◌, Bool, true, false, ◌&&◌, Option, none, some, List, [], ◌∷◌, ◌++◌,
  map, if◌then◌else◌,
}
use netflow_collector.Flow.Time.{Time, trunc_micro}
use netflow_collector.Flow.Addr.{Addr, invalid, is_valid, unmap, as_16, to_bytes}
use netflow_collector.Flow.Record.{FlowType, FlowRecord}
use netflow_collector.Sink.Exporters.{see_all}
pub mod Query
pub mod Ids
pub mod Stored
pub mod Batches

-- hash/fnv: FNV-1a of 64 bits.
unfoldable pub fnv_1a : ℕ → List ℕ → ℕ
fnv_1a h [] = h
fnv_1a h (b ∷ bs) = fnv_1a (bit_xor h b * 1_099_511_628_211 % 2 ^ 64) bs

unfoldable pub exporter_id : Addr → ℕ
exporter_id a =
    let id = fnv_1a 14_695_981_039_346_656_037 (to_bytes 16 (as_16 a) []) % 2 ^ 63 in
    if id == 0 then 1 else id

-- A row in the order of the INSERT's columns. An absent dedup key is an empty text.
pub record Cells : Type 0 where
  pub received_at : Time
  pub dedup_key : List ℕ
  pub exporter_id : ℕ
  pub exporter_addr : Addr
  pub flow_type : FlowType
  pub first_switched : Time
  pub last_switched : Time
  pub src_addr : Addr
  pub dst_addr : Addr
  pub src_port : ℕ
  pub dst_port : ℕ
  pub protocol : ℕ
  pub tcp_flags : ℕ
  pub packets : ℕ
  pub bytes : ℕ
  pub sampling_rate : ℕ
  pub input_iface : ℕ
  pub output_iface : ℕ
  pub src_as : ℕ
  pub dst_as : ℕ
  pub next_hop : Option Addr

-- `string(r.DedupKey)`
abbrev pub key_text : Option (List ℕ) → List ℕ
key_text none = []
key_text (some k) = k

unfoldable pub insert_row : FlowRecord → Cells
insert_row r = record {
  received_at = trunc_micro r.received_at;
  dedup_key = key_text r.dedup_key;
  exporter_id = exporter_id r.exporter_addr;
  exporter_addr = r.exporter_addr;
  flow_type = r.flow_type;
  first_switched = trunc_micro r.first_switched;
  last_switched = trunc_micro r.last_switched;
  src_addr = r.src_addr;
  dst_addr = r.dst_addr;
  src_port = r.src_port;
  dst_port = r.dst_port;
  protocol = r.protocol;
  tcp_flags = r.tcp_flags;
  packets = r.packets;
  bytes = r.bytes;
  sampling_rate = r.sampling_rate;
  input_iface = r.input_iface;
  output_iface = r.output_iface;
  src_as = r.src_as;
  dst_as = r.dst_as;
  next_hop = if is_valid r.next_hop then some r.next_hop else none;
}

abbrev pub scan_hop : Option Addr → Addr
scan_hop none = invalid
scan_hop (some a) = unmap a

abbrev pub scan_key : List ℕ → Option (List ℕ)
scan_key [] = none
scan_key (b ∷ bs) = some (b ∷ bs)

-- `scanRecord`, of what the columns give back.
unfoldable pub scan_cells : Cells → FlowRecord
scan_cells c = record {
  received_at = c.received_at;
  exporter_addr = unmap c.exporter_addr;
  exporter_id = c.exporter_id;
  flow_type = c.flow_type;
  first_switched = c.first_switched;
  last_switched = c.last_switched;
  src_addr = unmap c.src_addr;
  dst_addr = unmap c.dst_addr;
  src_port = c.src_port;
  dst_port = c.dst_port;
  protocol = c.protocol;
  tcp_flags = c.tcp_flags;
  packets = c.packets;
  bytes = c.bytes;
  sampling_rate = c.sampling_rate;
  input_iface = c.input_iface;
  output_iface = c.output_iface;
  src_as = c.src_as;
  dst_as = c.dst_as;
  next_hop = scan_hop c.next_hop;
  dedup_key = scan_key c.dedup_key;
}

-- A row of `exporters`: the batch's latest instant is both the first and the last.
pub record ExporterRow : Type 0 where
  pub id : ℕ
  pub ip_address : Addr
  pub first_seen_at : Time
  pub last_seen_at : Time

abbrev pub exporter_row : Addr × Time → ExporterRow
exporter_row (a, last) = record {
  id = exporter_id a;
  ip_address = a;
  first_seen_at = last;
  last_seen_at = last;
}

-- A batch of rows is prepared, filled and sent; each of the three may fail.
pub record Connection : Type 1 where
  pub State : Type 0
  pub send_exporters : List ExporterRow → State → Bool × State
  pub send_records : List Cells → State → Bool × State

module _ (connection : Connection) where
  open connection use {State, send_exporters, send_records}

  -- One row for each exporter of the batch; `order` is the order in which a Go map is walked.
  unfoldable pub touch_exporters :
      (List (Addr × Time) → List (Addr × Time)) → List FlowRecord → State → Bool × State
  touch_exporters order records s = send_exporters (map exporter_row (order (see_all records []))) s

  unfoldable pub after_touch : List FlowRecord → Bool × State → Bool × State
  after_touch records (false, s) = (false, s)
  after_touch records (true, s) = send_records (map insert_row records) s

  unfoldable pub write_cells :
      (List (Addr × Time) → List (Addr × Time)) → List FlowRecord → State → Bool × State
  write_cells order [] s = (true, s)
  write_cells order (r ∷ rs) s = after_touch (r ∷ rs) (touch_exporters order (r ∷ rs) s)

  -- `applyRetention`: how many tables have the wanted TTL, if that could be read, and whether it
  -- could be set.
  unfoldable pub ensure_ttl : Option ℕ → (State → Bool × State) → State → Bool × State
  ensure_ttl none alter s = (false, s)
  ensure_ttl (some n) alter s = if n == 1 then (true, s) else alter s

-- `New`: whether the DSN was parsed, and the connection opened and answered.
unfoldable pub new_clickhouse : Bool → Bool → Bool → Bool
new_clickhouse parsed opened ping = parsed && opened && ping
