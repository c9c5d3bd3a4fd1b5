-- ===== src/Kafka/Identity.antt =====
-- internal/source/kafka/kafka.go: what the digested bytes tell apart.
use netflow_collector.Base.{
  ℕ, zero, suc, ◌/◌, ◌%◌, ◌^◌, ◌<◌, ◌≡◌, refl, ap, List, [], ◌∷◌, arith, some,
}
use netflow_collector.Flow.Time.{Time, trunc_micro, unix_micro}
use netflow_collector.Flow.Addr.{as_16, to_bytes, as_16-unmap}
use netflow_collector.Flow.Record.{FlowRecord}
use netflow_collector.Wire.{Codec, ok, encode}
use netflow_collector.Wire.RoundTrip.{normal, trunc-trunc, IsComplete, decode-encode}
use netflow_collector.Kafka.Dedup.{key_bytes, natural_key, stamp, dedup_key, decode_message}

head_or : ℕ → List ℕ → ℕ
head_or d [] = d
head_or d (x ∷ xs) = x

tail_of : List ℕ → List ℕ
tail_of [] = []
tail_of (x ∷ xs) = xs

cons_inj : {x y : ℕ} {xs ys : List ℕ} → x ∷ xs ≡ y ∷ ys → (x ≡ y) × (xs ≡ ys)
unfolding head_or tail_of
cons_inj e = (ap (head_or 0) e, ap tail_of e)

to_bytes_inj :
    (n x y : ℕ) (xs ys : List ℕ)
    → x < 256 ^ n
    → y < 256 ^ n
    → to_bytes n x xs ≡ to_bytes n y ys
    → (x ≡ y) × (xs ≡ ys)
unfolding to_bytes
to_bytes_inj zero x y xs ys hx hy e = (omega arith, e)
to_bytes_inj (suc n) x y xs ys hx hy e =
    let (q, c) =
      to_bytes_inj n (x / 256) (y / 256) (x % 256 ∷ xs) (y % 256 ∷ ys) (omega arith) (omega arith)
        e in
    let (m, r) = cons_inj c in (omega arith, r)

-- The widths that Go's types give to the fields of the key.
pub record IsSized (r : FlowRecord) : Type 0 where
  pub exporter : as_16 r.exporter_addr < 2 ^ 128
  pub src : as_16 r.src_addr < 2 ^ 128
  pub dst : as_16 r.dst_addr < 2 ^ 128
  pub src_port : r.src_port < 2 ^ 16
  pub dst_port : r.dst_port < 2 ^ 16
  pub protocol : r.protocol < 2 ^ 8

-- What two records with the same digested bytes share.
pub record SameKey (r s : FlowRecord) : Type 0 where
  pub exporter : as_16 r.exporter_addr ≡ as_16 s.exporter_addr
  pub first : unix_micro (trunc_micro r.first_switched) ≡ unix_micro (trunc_micro s.first_switched)
  pub src : as_16 r.src_addr ≡ as_16 s.src_addr
  pub dst : as_16 r.dst_addr ≡ as_16 s.dst_addr
  pub src_port : r.src_port ≡ s.src_port
  pub dst_port : r.dst_port ≡ s.dst_port
  pub protocol : r.protocol ≡ s.protocol

module _ (r s : FlowRecord) (hr : IsSized r) (hs : IsSized s) where
  -- No two different natural keys are digested from the same bytes.
  pub natural_key_inj : natural_key r ≡ natural_key s → SameKey r s
  unfolding natural_key key_bytes
  natural_key_inj e =
      let (a, e1) = to_bytes_inj 16 _ _ _ _ (omega (arith, hr)) (omega (arith, hs)) e in
      let (b, e2) = to_bytes_inj 8 _ _ _ _ (omega arith) (omega arith) e1 in
      let (c, e3) = to_bytes_inj 16 _ _ _ _ (omega (arith, hr)) (omega (arith, hs)) e2 in
      let (d, e4) = to_bytes_inj 16 _ _ _ _ (omega (arith, hr)) (omega (arith, hs)) e3 in
      let (f, e5) = to_bytes_inj 2 _ _ _ _ (omega (arith, hr)) (omega (arith, hs)) e4 in
      let (g, e6) = to_bytes_inj 2 _ _ _ _ (omega (arith, hr)) (omega (arith, hs)) e5 in
      let (h, e7) = cons_inj e6 in
      record { exporter = a; first = b; src = c; dst = d; src_port = f; dst_port = g; protocol = h }

-- The edge's record and what the central tier decodes of it have the same digested bytes.
natural_key-normal : (r : FlowRecord) → natural_key (normal r) ≡ natural_key r
unfolding natural_key
natural_key-normal r =
    rw
      (
        as_16-unmap r.exporter_addr,
        as_16-unmap r.src_addr,
        as_16-unmap r.dst_addr,
        trunc-trunc r.first_switched,
      )
      refl

module _ (sum_256 : List ℕ → List ℕ) (codec : Codec) where
  open codec use {Body}

  -- A complete record that an edge encoded is decoded with the same digest each time it is delivered,
  -- whatever the timestamps of the deliveries, and it is the digest of the edge's own record.
  pub redelivered :
      (r : FlowRecord) (b : Body) (t : Time)
      → IsComplete r
      → encode codec r ≡ some b
      → decode_message sum_256 codec b t
        ≡ ok (record (normal r) { dedup_key = some (dedup_key sum_256 r) })
  unfolding decode_message dedup_key stamp
  redelivered r b t c e =
      rw (decode-encode codec r b t c e, stamp, dedup_key, natural_key-normal r) refl
