-- ===== src/Examples.antt =====
-- Tests of the definitions, and the theorems at concrete inputs.
pub mod Watermarks
pub mod Pipelines
mod Messages
mod Pushed
mod Datagrams
mod Pages
mod Stored
mod Requests
mod Served
mod Starts
mod Sharing
mod Runs
mod Mariadb
mod Tiers
mod Statements
mod Clickhouse
mod Environments
