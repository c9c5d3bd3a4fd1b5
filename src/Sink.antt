-- ===== src/Sink.antt =====
-- internal/sink: the storage engines postgres, mariadb and clickhouse, and the kafka sink.
pub mod Cursor
pub mod Query
pub mod Columns
pub mod Exporters
pub mod Resolved
pub mod Known
pub mod Rows
pub mod Mariadb
pub mod Kafka
pub mod Clickhouse
pub mod Listing
pub mod Follow
pub mod Paging
