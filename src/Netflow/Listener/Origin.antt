-- ===== src/Netflow/Listener/Origin.antt =====
-- internal/source/netflow/decode.go: whose records a datagram gives.
use netflow_collector.Base.{
  ℕ, ◌≡◌, refl, ◌∙◌, Option, none, some, List, [], ◌∷◌, map, All, All-append, arith, Bool-cases,
  inl, inr,
}
use netflow_collector.Flow.Time.{Time}
use netflow_collector.Flow.Addr.{Addr}
use netflow_collector.Flow.Record.{FlowRecord}
use netflow_collector.Netflow.Fields.{
  Element, other, DataField, set_next_hop, set_sampling_rate, set_field, set_value, apply_field,
}
use netflow_collector.Netflow.V5.{Records, ok, err, Packet5, record_5, records_5, decode_v5}
use netflow_collector.Netflow.Templated.{
  FlowSet, data_flow_set, other_set, Packet, base_of, apply_fields, settle_last, record_of,
  records_of, templated, flow_sets,
}

-- Every record, if there are any, names this exporter.
abbrev pub From : Addr → Records → Type 0
From a (ok rs) = All (λ r. r.exporter_addr ≡ a) rs
From a (err e) = Unit

set_field-exporter :
    (e : Element) (v : List ℕ) (boot : Time) (r : FlowRecord)
    → (set_field e v boot r).exporter_addr ≡ r.exporter_addr
unfolding set_field set_next_hop set_sampling_rate
set_field-exporter (other n) v boot r = refl
set_field-exporter _ v boot r = ground arith

apply_field-exporter :
    (r : FlowRecord) (f : DataField) (boot : Time)
    → (apply_field r f boot).exporter_addr ≡ r.exporter_addr
unfolding apply_field
apply_field-exporter r f boot = elim (Bool-cases f.pen_provided) [
  | inl e ↦ rw e refl
  | inr e ↦ rw e (set_value_lem f.type_ f.value)
]
  where
    set_value_lem :
        (e : Element) (v : Option (List ℕ)) → (set_value e v boot r).exporter_addr ≡ r.exporter_addr
    set_value_lem e none = unfold set_value in refl
    set_value_lem e (some []) = unfold set_value in refl
    set_value_lem e (some (b ∷ bs)) = unfold set_value in set_field-exporter e (b ∷ bs) boot r

apply_fields-exporter :
    (boot : Time) (r : FlowRecord) (fs : List DataField)
    → (apply_fields boot r fs).exporter_addr ≡ r.exporter_addr
unfolding apply_fields
apply_fields-exporter boot r [] = refl
apply_fields-exporter boot r (f ∷ fs) =
    apply_fields-exporter boot (apply_field r f boot) fs ∙ apply_field-exporter r f boot

record_of-exporter :
    (boot : Time) (r : FlowRecord) (fs : List DataField)
    → (record_of boot r fs).exporter_addr ≡ r.exporter_addr
unfolding record_of settle_last
record_of-exporter boot r fs = ground (arith, apply_fields-exporter boot r fs)

All-records :
    {A : Type 0} (a : Addr) (f : A → FlowRecord) (xs : List A)
    → ((x : A) → (f x).exporter_addr ≡ a)
    → All (λ r. r.exporter_addr ≡ a) (map f xs)
All-records a f [] h = tt
All-records a f (x ∷ xs) h = (h x, All-records a f xs h)

records_of-exporter :
    (boot : Time) (r : FlowRecord) (sets : List FlowSet)
    → All (λ s. s.exporter_addr ≡ r.exporter_addr) (records_of boot r sets)
unfolding records_of
records_of-exporter boot r [] = tt
records_of-exporter boot r (data_flow_set rs ∷ sets) =
    All-append (λ s. s.exporter_addr ≡ r.exporter_addr) (map (record_of boot r) rs)
      (records_of boot r sets)
      (All-records r.exporter_addr (record_of boot r) rs (record_of-exporter boot r))
      (records_of-exporter boot r sets)
records_of-exporter boot r (other_set ∷ sets) = records_of-exporter boot r sets

pub templated-exporter :
    (p : Packet) (a : Addr) (t : Time) → All (λ r. r.exporter_addr ≡ a) (templated p a t)
unfolding templated base_of
templated-exporter p a t = records_of-exporter _ (base_of p a t) (flow_sets p)

records_5-From : (a : Addr) (t : Time) (o : Option Packet5) → From a (records_5 a t o)
unfolding records_5 record_5
records_5-From a t none = tt
records_5-From a t (some pkt) = All-records a (record_5 pkt a t) pkt.records λ r. refl

pub decode_v5-From :
    (f : List ℕ → Option Packet5) (b : List ℕ) (a : Addr) (t : Time) → From a (decode_v5 f b a t)
unfolding decode_v5
decode_v5-From f b a t = ground (arith, records_5-From a t (f b))
