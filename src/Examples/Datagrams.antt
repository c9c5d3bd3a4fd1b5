-- ===== src/Examples/Datagrams.antt =====
-- Datagrams of two exporters.
use netflow_collector.Base.{
  ℕ, ◌+◌, ◌≡◌, ◌<◌, refl, Option, none, some, List, [], ◌∷◌, length, All, arith, true, false,
}
use netflow_collector.Flow.Addr.{Addr}
use netflow_collector.Netflow.Fields.{source_transport_port, sampling_interval}
use netflow_collector.Netflow.V5.{Records, Packet5, record_5, records_5, decode_v5}
use netflow_collector.Netflow.Templated.{
  Packet, nfv9, data_flow_set, other_set, flow_sets, templated,
}
use netflow_collector.Netflow.Decoder.{Goflow, Decoder, templates_for}
use netflow_collector.Flow.AddrMap.{addr_eq, find}
use netflow_collector.Netflow.Isolation.{run, feed, run_isolated}
use netflow_collector.Netflow.Reads.{field_lists, AllRead}
use netflow_collector.Netflow.Reads.Records.{templated-AllRead}

-- A parser whose systems count the datagrams that they read.
abbrev counting : Goflow
counting = record {
  System = ℕ;
  decode_legacy = λ b. none;
  decode_message = λ b n. (some (nfv9 0 0 []), n + 1);
}

abbrev fresh : Decoder counting
fresh = record { templates = []; new_system = λ a. 0 }

run_isolated_example :
    templates_for counting
      (run counting fresh (
        (0 ∷ 9 ∷ [], Addr.v4 1, 0) ∷ (0 ∷ 10 ∷ [], Addr.v4 2, 0) ∷ (0 ∷ 9 ∷ [], Addr.v4 1, 0) ∷ []))
      (Addr.v4 1)
    ≡ 2
unfolding feed templates_for find addr_eq netflow_collector.Netflow.Isolation.learned
    netflow_collector.Netflow.Decoder.or_new
run_isolated_example =
    run_isolated counting fresh (Addr.v4 1)
      ((0 ∷ 9 ∷ [], Addr.v4 1, 0) ∷ (0 ∷ 10 ∷ [], Addr.v4 2, 0) ∷ (0 ∷ 9 ∷ [], Addr.v4 1, 0) ∷ [])

-- A record with an oversized port and a sampling interval of 0.
abbrev packet : Packet
packet = nfv9 1_700_000_000 5_000 (
    other_set
    ∷ data_flow_set (
        (record {
          pen_provided = false;
          type_ = source_transport_port;
          value = some (1 ∷ 1 ∷ 187 ∷ []);
        }
          ∷ record { pen_provided = false; type_ = sampling_interval; value = some (0 ∷ []) }
          ∷ [])
        ∷ [])
    ∷ [])

templated-AllRead_example :
    AllRead (field_lists (flow_sets packet)) (templated packet (Addr.v4 1) 0)
templated-AllRead_example =
    templated-AllRead packet (Addr.v4 1) 0
      (((omega arith, (omega arith, (omega arith, tt))), ((omega arith, tt), tt)), tt)

abbrev one_record : Packet5
one_record = record {
  unix_secs = 1_700_000_000;
  unix_nsecs = 0;
  sys_uptime = 60_000;
  sampling_interval = 16_384;
  records =
      record {
        first = 1_000;
        last = 2_000;
        src_addr = 1;
        dst_addr = 2;
        src_port = 3;
        dst_port = 4;
        proto = 17;
        tcp_flags = 0;
        d_pkts = 5;
        d_octets = 6;
        input = 7;
        output = 8;
        src_as = 9;
        dst_as = 10;
        next_hop = 0;
      }
      ∷ [];
}

-- Five, a count of one, and 68 bytes more.
abbrev zeros : ℕ → List ℕ
zeros netflow_collector.Base.zero = []
zeros (netflow_collector.Base.suc n) = 0 ∷ zeros n

abbrev datagram : List ℕ
datagram = 0 ∷ 5 ∷ 0 ∷ 1 ∷ zeros 68

accepted :
    decode_v5 (λ b. some one_record) datagram (Addr.v4 1) 0
    ≡ Records.ok (netflow_collector.Base.map (record_5 one_record (Addr.v4 1) 0) one_record.records)
unfolding decode_v5 records_5
accepted = refl
