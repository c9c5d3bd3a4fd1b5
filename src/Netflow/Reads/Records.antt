-- ===== src/Netflow/Reads/Records.antt =====
-- internal/source/netflow/decode.go: the records of a packet, by their fields.
use netflow_collector.Base.{◌≡◌, refl, ◌∙◌, none, List, [], ◌∷◌, ◌++◌, All, arith, map}
use netflow_collector.Flow.Time.{Time}
use netflow_collector.Flow.Addr.{Addr}
use netflow_collector.Flow.Record.{FlowRecord}
use netflow_collector.Netflow.Fields.{DataField}
use netflow_collector.Netflow.Templated.{
  FlowSet, data_flow_set, other_set, Packet, flow_sets, boot_of, base_of, apply_fields, settle_last,
  record_of, records_of, templated,
}
use netflow_collector.Netflow.Reads.{
  bytes, last_rate, AreBytes, Reads, field_lists, AllRead, AllBytes,
}
use netflow_collector.Netflow.Reads.Values.{
  apply_fields-quantity, apply_fields-rate, last_rate-positive, settle_last-quantity,
  base_of-quantity,
}

record_of-Reads :
    (p : Packet) (exporter : Addr) (t : Time) (fs : List DataField)
    → All (λ f. AreBytes f.value) fs
    → Reads fs (record_of (boot_of p) (base_of p exporter t) fs)
unfolding record_of
record_of-Reads p exporter t fs h =
    let base = base_of p exporter t in
    let rate : (settle_last (apply_fields (boot_of p) base fs)).sampling_rate ≡ last_rate 1 fs =
      (settle_last-quantity bytes (apply_fields (boot_of p) base fs)).1
      ∙ apply_fields-rate (boot_of p) base fs h
      ∙ (unfold base_of in refl) in
    record {
      number = λ q.
          (settle_last-quantity q (apply_fields (boot_of p) base fs)).0
          ∙ apply_fields-quantity q (boot_of p) base none fs h (base_of-quantity q p exporter t);
      rate = rate;
      some_rate = omega (arith, rate, last_rate-positive fs 1 (omega arith));
    }

AllRead-append :
    (rs ss : List (List DataField)) (out more : List FlowRecord)
    → AllRead rs out
    → AllRead ss more
    → AllRead (rs ++ ss) (out ++ more)
AllRead-append [] ss [] more h k = k
AllRead-append (fs ∷ rs) ss (r ∷ out) more h k = (h.0, AllRead-append rs ss out more h.1 k)
AllRead-append [] ss (r ∷ out) more h k = absurd h
AllRead-append (fs ∷ rs) ss [] more h k = absurd h

AllBytes-parts : (rs ss : List (List DataField)) → AllBytes (rs ++ ss) → AllBytes rs × AllBytes ss
AllBytes-parts [] ss h = (tt, h)
AllBytes-parts (fs ∷ rs) ss h = let (front, back) = AllBytes-parts rs ss h.1 in ((h.0, front), back)

map-AllRead :
    (p : Packet) (exporter : Addr) (t : Time) (rs : List (List DataField))
    → AllBytes rs
    → AllRead rs (map (record_of (boot_of p) (base_of p exporter t)) rs)
map-AllRead p exporter t [] h = tt
map-AllRead p exporter t (fs ∷ rs) h =
    (record_of-Reads p exporter t fs h.0, map-AllRead p exporter t rs h.1)

records_of-AllRead :
    (p : Packet) (exporter : Addr) (t : Time) (sets : List FlowSet)
    → AllBytes (field_lists sets)
    → AllRead (field_lists sets) (records_of (boot_of p) (base_of p exporter t) sets)
unfolding records_of
records_of-AllRead p exporter t [] h = tt
records_of-AllRead p exporter t (data_flow_set rs ∷ sets) h =
    let (front, back) = AllBytes-parts rs (field_lists sets) h in
    AllRead-append rs (field_lists sets) _ _ (map-AllRead p exporter t rs front)
      (records_of-AllRead p exporter t sets back)
records_of-AllRead p exporter t (other_set ∷ sets) h = records_of-AllRead p exporter t sets h

-- If the fields of a v9 or IPFIX packet hold bytes: its records are as many as the field lists of its data
-- flow sets, in order, and in each record every count, port, interface, protocol, flags and AS number
-- is the last big-endian number, of the record's own fields of that element, cut to the width of
-- FlowRecord's field, and 0 without one; enterprise fields and empty ones count nowhere. The sampling
-- rate is the last number of the three sampling elements whose low 32 bits are not 0, or 1.
pub templated-AllRead :
    (p : Packet) (exporter : Addr) (received_at : Time)
    → AllBytes (field_lists (flow_sets p))
    → AllRead (field_lists (flow_sets p)) (templated p exporter received_at)
unfolding templated
templated-AllRead p exporter received_at h =
    records_of-AllRead p exporter received_at (flow_sets p) h
