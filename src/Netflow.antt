-- ===== src/Netflow.antt =====
-- internal/source/netflow: datagrams of NetFlow v5, v9 and IPFIX become records. The packet parser is
-- goflow2, a parameter.
pub mod Numbers
pub mod Fields
pub mod V5
pub mod Templated
pub mod Decoder
pub mod Reads
pub mod Isolation
pub mod Sharing
pub mod Listener
