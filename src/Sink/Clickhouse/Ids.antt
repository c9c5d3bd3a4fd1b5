-- ===== src/Sink/Clickhouse/Ids.antt =====
-- internal/sink/clickhouse/clickhouse.go: ids of exporters.
use netflow_collector.Base.{◌≤◌, ◌<◌, ◌^◌, ◌≡◌, refl, arith}
use netflow_collector.Flow.Addr.{Addr, unmap, as_16-unmap}
use netflow_collector.Sink.Clickhouse.{exporter_id}

-- An id is never 0, fits a signed 64-bit number, and is the same for a mapped address as for the IPv4
-- address that it stands for.
pub exporter_id_bounds :
    (a : Addr)
    → (1 ≤ exporter_id a) × (exporter_id a < 2 ^ 63) × (exporter_id (unmap a) ≡ exporter_id a)
unfolding exporter_id
exporter_id_bounds a = (ground arith, ground arith, rw as_16-unmap refl)
