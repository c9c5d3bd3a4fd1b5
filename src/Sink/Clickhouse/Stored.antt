-- ===== src/Sink/Clickhouse/Stored.antt =====
-- internal/sink/clickhouse/rows.go: a record read back.
use netflow_collector.Base.{◌≡◌, refl, Option, none, some, if◌then◌else◌}
use netflow_collector.Flow.Time.{trunc_micro}
use netflow_collector.Flow.Addr.{Addr, invalid, is_valid, unmap}
use netflow_collector.Flow.Record.{FlowRecord}
use netflow_collector.Sink.Clickhouse.{
  Cells, exporter_id, key_text, scan_key, scan_hop, insert_row, scan_cells,
}

-- What a row reads as: its IPv6 columns give addresses back as `kept` says.
abbrev pub hop : (Addr → Addr) → Option Addr → Option Addr
hop kept none = none
hop kept (some a) = some (kept a)

abbrev pub kept_as : (Addr → Addr) → Cells → Cells
kept_as kept c = record c {
  exporter_addr = kept c.exporter_addr;
  src_addr = kept c.src_addr;
  dst_addr = kept c.dst_addr;
  next_hop = hop kept c.next_hop;
}

-- What storing changes of a record.
abbrev pub stored_form : FlowRecord → FlowRecord
stored_form r = record r {
  received_at = trunc_micro r.received_at;
  exporter_addr = unmap r.exporter_addr;
  exporter_id = exporter_id r.exporter_addr;
  first_switched = trunc_micro r.first_switched;
  last_switched = trunc_micro r.last_switched;
  src_addr = unmap r.src_addr;
  dst_addr = unmap r.dst_addr;
  next_hop = unmap r.next_hop;
  dedup_key = scan_key (key_text r.dedup_key);
}

scan_hop_lem :
    (kept : Addr → Addr) (a : Addr)
    → unmap (kept a) ≡ unmap a
    → scan_hop (hop kept (if is_valid a then some a else none)) ≡ unmap a
unfolding is_valid
scan_hop_lem kept invalid h = unfold unmap in refl
scan_hop_lem kept (Addr.v4 n) h = h
scan_hop_lem kept (Addr.v6 n zone) h = h

-- If the columns give each address back up to its mapped form, a record is read back from its row with
-- all that it had: times in microseconds, addresses unmapped, its exporter's id, and no dedup key if
-- that was empty.
pub scan_cells-insert_row :
    (kept : Addr → Addr) (r : FlowRecord)
    → ((a : Addr) → unmap (kept a) ≡ unmap a)
    → scan_cells (kept_as kept (insert_row r)) ≡ stored_form r
unfolding scan_cells insert_row
scan_cells-insert_row kept r h =
    rw (h r.exporter_addr, h r.src_addr, h r.dst_addr, scan_hop_lem kept r.next_hop (h r.next_hop))
      refl
