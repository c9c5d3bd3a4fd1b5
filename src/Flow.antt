-- ===== src/Flow.antt =====
-- internal/flow/flow.go: the domain contract, and the types of Go's library that it rests on.
pub mod Time
pub mod Addr
pub mod AddrMap
pub mod Record
