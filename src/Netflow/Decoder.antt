-- ===== src/Netflow/Decoder.antt =====
-- internal/source/netflow/decode.go: the decoder, which keeps a template system for each exporter.
use netflow_collector.Base.{ℕ, Option, none, some, List, length, ltb, ◌==◌, if◌then◌else◌}
use netflow_collector.Flow.Time.{Time}
use netflow_collector.Flow.Addr.{Addr}
use netflow_collector.Flow.AddrMap.{find, set}
use netflow_collector.Netflow.V5.{
  short, malformed, unsupported, Records, ok, err, Packet5, uint_16, decode_v5,
}
use netflow_collector.Netflow.Templated.{Packet, templated}

-- goflow2: `netflowlegacy.DecodeMessageVersion`, and the template systems with `nf.DecodeMessageVersion`,
-- which reads a datagram, learns its templates and may fail.
pub record Goflow : Type 1 where
  pub System : Type 0
  pub decode_legacy : List ℕ → Option Packet5
  pub decode_message : List ℕ → System → Option Packet × System

module _ (goflow : Goflow) where
  open goflow use {System, decode_legacy, decode_message}

  -- The map of the decoder; `new_system` builds the system of a new exporter.
  pub record Decoder : Type 0 where
    pub templates : List (Addr × System)
    pub new_system : Addr → System

  unfoldable pub or_new : Option System → System → System
  or_new none new = new
  or_new (some s) new = s

  unfoldable pub templates_for : Decoder → Addr → System
  templates_for d a = or_new (find a d.templates) (d.new_system a)

  unfoldable pub templated_records : Option Packet → Addr → Time → Records
  templated_records none exporter received_at = err malformed
  templated_records (some p) exporter received_at = ok (templated p exporter received_at)

  unfoldable pub decode_templated : Decoder → List ℕ → Addr → Time → Records × Decoder
  decode_templated d b exporter received_at =
      let (packet, after) = decode_message b (templates_for d exporter) in
      (
        templated_records packet exporter received_at,
        record d { templates = set exporter after d.templates },
      )

  unfoldable pub decode : Decoder → List ℕ → Addr → Time → Records × Decoder
  decode d b exporter received_at =
      if ltb (length b) 2
      then (err short, d)
      else if uint_16 b 0 == 5
      then (decode_v5 decode_legacy b exporter received_at, d)
      else if uint_16 b 0 == 9
      then decode_templated d b exporter received_at
      else if uint_16 b 0 == 10
      then decode_templated d b exporter received_at
      else (err (unsupported (uint_16 b 0)), d)
