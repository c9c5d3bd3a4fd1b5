-- ===== src/Flow/Record.antt =====
-- internal/flow/flow.go: records and queries.
use Prim.Native.String.{String}
use text.Mathlib.Text.{◌==◌ as str_eq}
use netflow_collector.Base.{ℕ, Bool, ◌||◌, Option, List}
use netflow_collector.Flow.Time.{Time}
use netflow_collector.Flow.Addr.{Addr}

-- `FlowType` is a string; `valid` accepts the three constants.
abbrev pub FlowType : Type 0
FlowType = String

unfoldable pub valid : FlowType → Bool
valid t = str_eq t "netflow5" || str_eq t "netflow9" || str_eq t "ipfix"

pub record FlowRecord : Type 0 where
  pub received_at : Time
  pub exporter_addr : Addr
  pub exporter_id : ℕ  -- int64, never negative
  pub flow_type : FlowType
  pub first_switched : Time
  pub last_switched : Time
  pub src_addr : Addr
  pub dst_addr : Addr
  pub src_port : ℕ  -- uint16
  pub dst_port : ℕ  -- uint16
  pub protocol : ℕ  -- uint8
  pub tcp_flags : ℕ  -- uint8
  pub packets : ℕ  -- uint64
  pub bytes : ℕ  -- uint64
  pub sampling_rate : ℕ  -- uint32
  pub input_iface : ℕ  -- uint32
  pub output_iface : ℕ  -- uint32
  pub src_as : ℕ  -- uint32
  pub dst_as : ℕ  -- uint32
  pub next_hop : Addr
  pub dedup_key : Option (List ℕ)  -- nil, or bytes
