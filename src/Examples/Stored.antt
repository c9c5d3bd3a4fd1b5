-- ===== src/Examples/Stored.antt =====
-- A record in the table, and exporters' ids.
use mathlib.Core.Option.{some-injective}
use netflow_collector.Base.{
  some, List, [], ◌∷◌, length, ◌≤◌, true, All, ℕ, ◌+◌, ◌^◌, ◌≡◌, refl, arith,
}
use netflow_collector.Flow.Addr.{Addr, invalid, unmap}
use netflow_collector.Flow.AddrMap.{find, set, addr_eq}
use netflow_collector.Sink.Exporters.{
  Database, Backend, copied, resolve_exporters, resolve_all, next_round, resolve_one, resolve_by,
  created, remember, see_all, see,
}
use netflow_collector.Sink.Resolved.{resolve_exporters_bounded}
use netflow_collector.Sink.Known.{AreKnown, resolve_exporters_complete}
use netflow_collector.Flow.Record.{FlowRecord}
use netflow_collector.Sink.Columns.{add, scan_record, stored, HasWidths, scan_record-add}
use netflow_collector.Examples.Messages.{sample}

-- An AS number and an interface index above the range of int32.
abbrev large : FlowRecord
large = record sample { src_as = 4_200_000_000; input_iface = 2 ^ 31 }

large-HasWidths : HasWidths large
large-HasWidths = record {
  src_port = omega arith;
  dst_port = omega arith;
  protocol = omega arith;
  tcp_flags = omega arith;
  packets = omega arith;
  bytes = omega arith;
  sampling_rate = omega arith;
  input_iface = omega arith;
  output_iface = omega arith;
  src_as = omega arith;
  dst_as = omega arith;
}

scan_record-add_example : scan_record unmap (add large 3) large.exporter_addr ≡ stored unmap 3 large
scan_record-add_example = scan_record-add unmap 3 large large-HasWidths

-- A database whose ids are the addresses' numbers, and whose UPDATE succeeds.
abbrev number : Addr → ℕ
number invalid = 0
number (Addr.v4 n) = n
number (Addr.v6 n zone) = n

abbrev numbered : Database
numbered = record {
  State = ℕ;
  touch = λ id last s. (true, s + 1);
  upsert = λ a last s. (some (number a), s + 1);
  copy = λ cols s. (copied, s);
  insert = λ cols s. (true, s);
}

abbrev idle : Backend numbered
idle = record { cache = []; state = 0 }

abbrev batch : List FlowRecord
batch =
    record sample { exporter_addr = Addr.v4 5 }
    ∷ record sample { exporter_addr = Addr.v4 7 }
    ∷ record sample { exporter_addr = Addr.v4 5 }
    ∷ []

resolve_exporters_bounded_example :
    length (resolve_exporters numbered (λ m. m) batch idle).1.cache ≤ 4096
resolve_exporters_bounded_example =
    resolve_exporters_bounded numbered (λ m. m) batch idle (omega arith)

abbrev ids : List (Addr × ℕ)
ids = (Addr.v4 5, 5) ∷ (Addr.v4 7, 7) ∷ []

batch_resolves : (resolve_exporters numbered (λ m. m) batch idle).0 ≡ some ids
unfolding resolve_exporters resolve_all next_round resolve_one resolve_by created remember see_all
    see find set addr_eq
batch_resolves = refl

empty_known : AreKnown numbered (λ a id. number a ≡ id) []
unfolding AreKnown find
empty_known a id e = absurd (ground arith)

resolve_exporters_complete_example :
    All (λ r. (id : ℕ) × (find r.exporter_addr ids ≡ some id) × (number r.exporter_addr ≡ id)) batch
resolve_exporters_complete_example =
    resolve_exporters_complete numbered (λ a id. number a ≡ id)
      (λ a last s id e. some-injective _ _ e) (λ m. m) batch idle ids (λ a m p. p) empty_known
      batch_resolves
