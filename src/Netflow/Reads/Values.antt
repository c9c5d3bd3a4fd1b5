-- ===== src/Netflow/Reads/Values.antt =====
-- internal/source/netflow/decode.go: what one field, and all fields of a record, do to its numbers.
use netflow_collector.Base.{
  ℕ, ◌%◌, ◌^◌, ◌<◌, ◌≤◌, ◌≡◌, refl, ap, ◌∙◌, ◌&&◌, Option, none, some, List, [], ◌∷◌, ltb, All,
  if◌then◌else◌, arith, Bool-cases, inl, inr,
}
use netflow_collector.Flow.Time.{Time}
use netflow_collector.Flow.Addr.{Addr, of_bytes}
use netflow_collector.Flow.Record.{FlowRecord}
use netflow_collector.Netflow.Numbers.{be_uint, be_uint_lem}
use netflow_collector.Netflow.Fields.{
  Element, DataField, set_next_hop, set_sampling_rate, set_field, set_value, apply_field,
}
use netflow_collector.Netflow.Templated.{Packet, base_of, apply_fields, settle_last}
use netflow_collector.Netflow.Reads.{
  Quantity, bytes, packets, protocol, tcp_flags, src_port, dst_port, input_iface, output_iface,
  src_as, dst_as, quantity, width, gives, is_given, is_sampling, later, last_given, or_zero,
  rate_after, last_rate, AreBytes,
}

set_field-quantity :
    (e : Element) (v : List ℕ) (boot : Time) (r : FlowRecord) (q : Quantity)
    → be_uint v < 2 ^ 64
    → quantity q (set_field e v boot r)
      ≡ (if is_given q (gives e) then be_uint v % 2 ^ width q else quantity q r)
unfolding set_field set_next_hop set_sampling_rate
set_field-quantity e v boot r bytes h = ground (arith, h)
set_field-quantity e v boot r packets h = ground (arith, h)
set_field-quantity e v boot r protocol h = ground (arith, h)
set_field-quantity e v boot r tcp_flags h = ground (arith, h)
set_field-quantity e v boot r src_port h = ground (arith, h)
set_field-quantity e v boot r dst_port h = ground (arith, h)
set_field-quantity e v boot r input_iface h = ground (arith, h)
set_field-quantity e v boot r output_iface h = ground (arith, h)
set_field-quantity e v boot r src_as h = ground (arith, h)
set_field-quantity e v boot r dst_as h = ground (arith, h)

cut_lem : (q : Quantity) (x : ℕ) → x % 2 ^ 64 % 2 ^ width q ≡ x % 2 ^ width q
cut_lem bytes x = omega arith
cut_lem packets x = omega arith
cut_lem protocol x = omega arith
cut_lem tcp_flags x = omega arith
cut_lem src_port x = omega arith
cut_lem dst_port x = omega arith
cut_lem input_iface x = omega arith
cut_lem output_iface x = omega arith
cut_lem src_as x = omega arith
cut_lem dst_as x = omega arith

be_uint_cut :
    (q : Quantity) (v : List ℕ)
    → All (λ c. c < 256) v
    → be_uint v % 2 ^ width q ≡ of_bytes 0 v % 2 ^ width q
be_uint_cut q v h = ap (λ n. n % 2 ^ width q) (be_uint_lem v h) ∙ cut_lem q (of_bytes 0 v)

be_uint-small : (v : List ℕ) → All (λ c. c < 256) v → be_uint v < 2 ^ 64
be_uint-small v h = omega (arith, be_uint_lem v h)

set_value-quantity :
    (q : Quantity) (e : Element) (v : Option (List ℕ)) (boot : Time) (r : FlowRecord) (n : Option ℕ)
    → AreBytes v
    → quantity q r ≡ or_zero n % 2 ^ width q
    → quantity q (set_value e v boot r) ≡ or_zero (later q e v n) % 2 ^ width q
unfolding set_value
set_value-quantity q e none boot r n h k = k
set_value-quantity q e (some []) boot r n h k = k
set_value-quantity q e (some (b ∷ bs)) boot r n h k =
    let set = set_field-quantity e (b ∷ bs) boot r q (be_uint-small (b ∷ bs) h) in
    elim (Bool-cases (is_given q (gives e))) [
      | inl given ↦ set ∙ rw given (be_uint_cut q (b ∷ bs) h)
      | inr none_ ↦ set ∙ rw none_ k
    ]

apply_field-quantity :
    (q : Quantity) (f : DataField) (boot : Time) (r : FlowRecord) (n : Option ℕ)
    → AreBytes f.value
    → quantity q r ≡ or_zero n % 2 ^ width q
    → quantity q (apply_field r f boot)
      ≡ or_zero (if f.pen_provided then n else later q f.type_ f.value n) % 2 ^ width q
unfolding apply_field
apply_field-quantity q f boot r n h k = elim (Bool-cases f.pen_provided) [
  | inl own ↦ rw own k
  | inr shared ↦ rw shared (set_value-quantity q f.type_ f.value boot r n h k)
]

pub apply_fields-quantity :
    (q : Quantity) (boot : Time) (r : FlowRecord) (n : Option ℕ) (fs : List DataField)
    → All (λ f. AreBytes f.value) fs
    → quantity q r ≡ or_zero n % 2 ^ width q
    → quantity q (apply_fields boot r fs) ≡ or_zero (last_given q n fs) % 2 ^ width q
unfolding apply_fields
apply_fields-quantity q boot r n [] h k = k
apply_fields-quantity q boot r n (f ∷ fs) h k =
    apply_fields-quantity q boot (apply_field r f boot) _ fs h.1
      (apply_field-quantity q f boot r n h.0 k)

set_field-rate :
    (e : Element) (v : List ℕ) (boot : Time) (r : FlowRecord)
    → (set_field e v boot r).sampling_rate ≡ (
        if is_sampling e && ltb 0 (be_uint v % 2 ^ 32) then be_uint v % 2 ^ 32 else r.sampling_rate)
unfolding set_field set_next_hop set_sampling_rate
set_field-rate e v boot r = ground arith

set_value-rate :
    (e : Element) (v : Option (List ℕ)) (boot : Time) (r : FlowRecord)
    → AreBytes v
    → (set_value e v boot r).sampling_rate ≡ rate_after e v r.sampling_rate
unfolding set_value
set_value-rate e none boot r h = refl
set_value-rate e (some []) boot r h = refl
set_value-rate e (some (b ∷ bs)) boot r h =
    set_field-rate e (b ∷ bs) boot r
    ∙ ap (λ n. if is_sampling e && ltb 0 n then n else r.sampling_rate)
        (be_uint_cut input_iface (b ∷ bs) h)

apply_field-rate :
    (f : DataField) (boot : Time) (r : FlowRecord)
    → AreBytes f.value
    → (apply_field r f boot).sampling_rate
      ≡ (if f.pen_provided then r.sampling_rate else rate_after f.type_ f.value r.sampling_rate)
unfolding apply_field
apply_field-rate f boot r h = elim (Bool-cases f.pen_provided) [
  | inl own ↦ rw own refl
  | inr shared ↦ rw shared (set_value-rate f.type_ f.value boot r h)
]

pub apply_fields-rate :
    (boot : Time) (r : FlowRecord) (fs : List DataField)
    → All (λ f. AreBytes f.value) fs
    → (apply_fields boot r fs).sampling_rate ≡ last_rate r.sampling_rate fs
unfolding apply_fields
apply_fields-rate boot r [] h = refl
apply_fields-rate boot r (f ∷ fs) h =
    apply_fields-rate boot (apply_field r f boot) fs h.1
    ∙ ap (λ n. last_rate n fs) (apply_field-rate f boot r h.0)

rate_after-positive : (e : Element) (v : Option (List ℕ)) (n : ℕ) → 1 ≤ n → 1 ≤ rate_after e v n
rate_after-positive e none n h = h
rate_after-positive e (some []) n h = h
rate_after-positive e (some (b ∷ bs)) n h = ground (arith, h)

pub last_rate-positive : (fs : List DataField) (n : ℕ) → 1 ≤ n → 1 ≤ last_rate n fs
last_rate-positive [] n h = h
last_rate-positive (f ∷ fs) n h =
    last_rate-positive fs _ (ground (arith, h, rate_after-positive f.type_ f.value n h))

pub settle_last-quantity :
    (q : Quantity) (r : FlowRecord)
    → (quantity q (settle_last r) ≡ quantity q r)
      × ((settle_last r).sampling_rate ≡ r.sampling_rate)
unfolding settle_last
settle_last-quantity bytes r = (ground arith, ground arith)
settle_last-quantity packets r = (ground arith, ground arith)
settle_last-quantity protocol r = (ground arith, ground arith)
settle_last-quantity tcp_flags r = (ground arith, ground arith)
settle_last-quantity src_port r = (ground arith, ground arith)
settle_last-quantity dst_port r = (ground arith, ground arith)
settle_last-quantity input_iface r = (ground arith, ground arith)
settle_last-quantity output_iface r = (ground arith, ground arith)
settle_last-quantity src_as r = (ground arith, ground arith)
settle_last-quantity dst_as r = (ground arith, ground arith)

pub base_of-quantity :
    (q : Quantity) (p : Packet) (exporter : Addr) (t : Time)
    → quantity q (base_of p exporter t) ≡ 0 % 2 ^ width q
unfolding base_of
base_of-quantity bytes p exporter t = refl
base_of-quantity packets p exporter t = refl
base_of-quantity protocol p exporter t = refl
base_of-quantity tcp_flags p exporter t = refl
base_of-quantity src_port p exporter t = refl
base_of-quantity dst_port p exporter t = refl
base_of-quantity input_iface p exporter t = refl
base_of-quantity output_iface p exporter t = refl
base_of-quantity src_as p exporter t = refl
base_of-quantity dst_as p exporter t = refl
