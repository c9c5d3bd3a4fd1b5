-- ===== src/Api.antt =====
-- internal/api: the HTTP API, from a request's parameters and headers to its reply.
pub mod Auth
pub mod Flows
pub mod Guard
pub mod Render
pub mod Ops
pub mod Server
