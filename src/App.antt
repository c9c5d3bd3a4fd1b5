-- ===== src/App.antt =====
-- internal/config, internal/app and cmd/collector: what a configuration must satisfy, and how the
-- collector is built, run and stopped.
pub mod Settings
pub mod Start
pub mod Constructors
pub mod Run
pub mod Command
pub mod Environment
