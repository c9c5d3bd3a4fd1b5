-- ===== src/Sink/Mariadb/Stored.antt =====
-- internal/sink/mariadb/rows.go: `scanRecord`, and a record read back from its row.
use netflow_collector.Base.{ℕ, ◌≡◌, refl, Option, none, some, List, [], ◌∷◌, if◌then◌else◌}
use netflow_collector.Flow.Time.{Time, trunc_micro}
use netflow_collector.Flow.Addr.{Addr, invalid, is_valid, as_slice, addr_from_slice}
use netflow_collector.Flow.Record.{FlowType, FlowRecord}
use netflow_collector.Sink.Mariadb.{
  Value, at, number, word, IdMap, id_at, addr_bytes, bytes_or_null, values_of,
}
use netflow_collector.Sink.Mariadb.Query.Placeholders.{IsStored, addr_from_slice-as_slice}

-- The variables of the scan, in the order of the SELECT. A NULL address or key is nil, and a nil slice
-- is the zero address.
pub record Fetched : Type 0 where
  pub received_at : Time
  pub seq : ℕ
  pub exporter_id : ℕ
  pub exporter : List ℕ
  pub flow_type : FlowType
  pub first_switched : Time
  pub last_switched : Time
  pub src : Option (List ℕ)
  pub dst : Option (List ℕ)
  pub src_port : ℕ
  pub dst_port : ℕ
  pub protocol : ℕ
  pub tcp_flags : ℕ
  pub packets : ℕ
  pub bytes : ℕ
  pub sampling_rate : ℕ
  pub input_iface : ℕ
  pub output_iface : ℕ
  pub src_as : ℕ
  pub dst_as : ℕ
  pub next_hop : Option (List ℕ)
  pub dedup_key : Option (List ℕ)

abbrev pub fetched_addr : Option (List ℕ) → Addr
fetched_addr none = invalid
fetched_addr (some bs) = addr_from_slice bs

abbrev pub fetched_key : Option (List ℕ) → Option (List ℕ)
fetched_key none = none
fetched_key (some []) = none
fetched_key (some (b ∷ bs)) = some (b ∷ bs)

-- What `scanRecord` makes of a row that could be scanned.
unfoldable pub scan_fetched : Fetched → FlowRecord × ℕ
scan_fetched c = (
  record {
    received_at = c.received_at;
    exporter_addr = addr_from_slice c.exporter;
    exporter_id = c.exporter_id;
    flow_type = c.flow_type;
    first_switched = c.first_switched;
    last_switched = c.last_switched;
    src_addr = fetched_addr c.src;
    dst_addr = fetched_addr c.dst;
    src_port = c.src_port;
    dst_port = c.dst_port;
    protocol = c.protocol;
    tcp_flags = c.tcp_flags;
    packets = c.packets;
    bytes = c.bytes;
    sampling_rate = c.sampling_rate;
    input_iface = c.input_iface;
    output_iface = c.output_iface;
    src_as = c.src_as;
    dst_as = c.dst_as;
    next_hop = fetched_addr c.next_hop;
    dedup_key = fetched_key c.dedup_key;
  },
  c.seq,
)

-- The columns that an INSERT has filled.
abbrev pub columns_of : Fetched → List Value
columns_of c =
    at c.received_at
    ∷ number c.exporter_id
    ∷ word c.flow_type
    ∷ at c.first_switched
    ∷ at c.last_switched
    ∷ bytes_or_null c.src
    ∷ bytes_or_null c.dst
    ∷ number c.src_port
    ∷ number c.dst_port
    ∷ number c.protocol
    ∷ number c.tcp_flags
    ∷ number c.packets
    ∷ number c.bytes
    ∷ number c.sampling_rate
    ∷ number c.input_iface
    ∷ number c.output_iface
    ∷ number c.src_as
    ∷ number c.dst_as
    ∷ bytes_or_null c.next_hop
    ∷ bytes_or_null c.dedup_key
    ∷ []

abbrev pub stored_bytes : Addr → Option (List ℕ)
stored_bytes a = if is_valid a then some (as_slice a) else none

-- The row of a record, joined with its exporter's address.
abbrev pub row_of : IdMap → FlowRecord → ℕ → Fetched
row_of ids r seq = record {
  received_at = trunc_micro r.received_at;
  seq = seq;
  exporter_id = id_at ids r.exporter_addr;
  exporter = as_slice r.exporter_addr;
  flow_type = r.flow_type;
  first_switched = trunc_micro r.first_switched;
  last_switched = trunc_micro r.last_switched;
  src = stored_bytes r.src_addr;
  dst = stored_bytes r.dst_addr;
  src_port = r.src_port;
  dst_port = r.dst_port;
  protocol = r.protocol;
  tcp_flags = r.tcp_flags;
  packets = r.packets;
  bytes = r.bytes;
  sampling_rate = r.sampling_rate;
  input_iface = r.input_iface;
  output_iface = r.output_iface;
  src_as = r.src_as;
  dst_as = r.dst_as;
  next_hop = stored_bytes r.next_hop;
  dedup_key = r.dedup_key;
}

-- What storing changes of a record.
abbrev pub stored_form : IdMap → FlowRecord → FlowRecord
stored_form ids r = record r {
  received_at = trunc_micro r.received_at;
  exporter_id = id_at ids r.exporter_addr;
  first_switched = trunc_micro r.first_switched;
  last_switched = trunc_micro r.last_switched;
  dedup_key = fetched_key r.dedup_key;
}

-- Addresses as they are stored: without a zone, and of their width.
pub record HasPlainAddrs (r : FlowRecord) : Type 0 where
  pub exporter : IsStored r.exporter_addr
  pub src : IsStored r.src_addr
  pub dst : IsStored r.dst_addr
  pub hop : IsStored r.next_hop

pub slice_lem : (a : Addr) → IsStored a → addr_from_slice (as_slice a) ≡ a
slice_lem invalid h = unfold addr_from_slice as_slice in refl
slice_lem (Addr.v4 n) h = addr_from_slice-as_slice (Addr.v4 n) h (unfold is_valid in refl)
slice_lem (Addr.v6 n zone) h = addr_from_slice-as_slice (Addr.v6 n zone) h (unfold is_valid in refl)

addr_lem : (a : Addr) → IsStored a → fetched_addr (stored_bytes a) ≡ a
unfolding is_valid
addr_lem invalid h = refl
addr_lem (Addr.v4 n) h = slice_lem (Addr.v4 n) h
addr_lem (Addr.v6 n zone) h = slice_lem (Addr.v6 n zone) h

addr_column : (a : Addr) → addr_bytes a ≡ bytes_or_null (stored_bytes a)
unfolding addr_bytes is_valid
addr_column invalid = refl
addr_column (Addr.v4 n) = refl
addr_column (Addr.v6 n zone) = refl

-- If its addresses are as they are stored, a record is read back from the columns that the INSERT fills
-- and its exporter's address with all that it had: times in microseconds, the id that the batch
-- resolved, and no dedup key if that was empty.
pub scan_fetched-row_of :
    (ids : IdMap) (r : FlowRecord) (seq : ℕ)
    → HasPlainAddrs r
    → (values_of ids r [] ≡ columns_of (row_of ids r seq))
      × (scan_fetched (row_of ids r seq) ≡ (stored_form ids r, seq))
unfolding values_of scan_fetched
scan_fetched-row_of ids r seq h = (
  rw (addr_column r.next_hop, addr_column r.src_addr, addr_column r.dst_addr) refl,
  rw
      (
        slice_lem r.exporter_addr h.exporter,
        addr_lem r.src_addr h.src,
        addr_lem r.dst_addr h.dst,
        addr_lem r.next_hop h.hop,
      )
      refl,
)
