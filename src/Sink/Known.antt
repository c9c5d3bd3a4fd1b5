-- ===== src/Sink/Known.antt =====
-- internal/sink/postgres/postgres.go: `WriteBatch` gives every record its own exporter's id.
use netflow_collector.Base.{
  ℕ, ◌≡◌, refl, sym, ◌∙◌, subst, true, false, Option, none, some, List, [], ◌∷◌, length, leb, All,
  All-map, arith, Bool-cases, Option-cases, ◌⊎◌, inl, inr,
}
use mathlib.Core.Option.{some-injective}
use netflow_collector.Flow.Time.{Time}
use netflow_collector.Flow.Addr.{Addr}
use netflow_collector.Flow.Record.{FlowRecord}
use netflow_collector.Flow.AddrMap.{addr_eq, find, set, addr_eq_sound, addr_eq_refl, find-set}
use netflow_collector.Sink.Exporters.{
  remember, cache_cap, Database, Backend, known, created, resolve_by, resolve_one, next_round,
  resolve_all, newer, see, see_all, resolve_exporters,
}

-- The address is a key of the map.
abbrev pub Present : {V : Type 0} → Addr → List (Addr × V) → Type 0
Present {V = V} a m = (v : V) × (find a m ≡ some v)

find-set_own :
    {V : Type 0} (a c : Addr) (v : V) (m : List (Addr × V))
    → addr_eq c a ≡ true
    → find a (set c v m) ≡ some v
find-set_own a c v m e = rw (find-set a c v m, e) refl

find-set_other :
    {V : Type 0} (a c : Addr) (v : V) (m : List (Addr × V))
    → addr_eq c a ≡ false
    → find a (set c v m) ≡ find a m
find-set_other a c v m e = rw (find-set a c v m, e) refl

set-Present :
    {V : Type 0} (a c : Addr) (v : V) (m : List (Addr × V)) → Present a m → Present a (set c v m)
set-Present a c v m (w, e) = elim (Bool-cases (addr_eq c a)) [
  | inl same ↦ (v, find-set_own a c v m same)
  | inr other ↦ (w, find-set_other a c v m other ∙ e)
]

set-Present_own : {V : Type 0} (a : Addr) (v : V) (m : List (Addr × V)) → Present a (set a v m)
set-Present_own a v m = (v, find-set_own a a v m (addr_eq_refl a))

see-Present :
    (a : Addr) (r : FlowRecord) (seen : List (Addr × Time))
    → Present a seen
    → Present a (see r seen)
unfolding see
see-Present a r seen p = elim (Bool-cases (newer r.received_at (find r.exporter_addr seen))) [
  | inl recent ↦ rw recent (set-Present a r.exporter_addr _ seen p)
  | inr old ↦ rw old p
]

see-Present_own :
    (r : FlowRecord) (seen : List (Addr × Time)) → Present r.exporter_addr (see r seen)
unfolding see
see-Present_own r seen = elim (Option-cases (find r.exporter_addr seen)) [
  | inl new ↦ rw new (set-Present_own r.exporter_addr _ seen)
  | inr (t, e) ↦ elim (Bool-cases (newer r.received_at (find r.exporter_addr seen))) [
    | inl recent ↦ rw recent (set-Present_own r.exporter_addr _ seen)
    | inr old ↦ rw old (t, e)
  ]
]

see_all-Present :
    (a : Addr) (rs : List FlowRecord) (seen : List (Addr × Time))
    → Present a seen
    → Present a (see_all rs seen)
unfolding see_all
see_all-Present a [] seen p = p
see_all-Present a (r ∷ rs) seen p = see_all-Present a rs (see r seen) (see-Present a r seen p)

-- Every exporter of the batch has been seen.
pub see_all-All :
    (rs : List FlowRecord) (seen : List (Addr × Time))
    → All (λ r. Present r.exporter_addr (see_all rs seen)) rs
unfolding see_all
see_all-All [] seen = tt
see_all-All (r ∷ rs) seen = (
  see_all-Present r.exporter_addr rs (see r seen) (see-Present_own r seen),
  see_all-All rs (see r seen),
)

module _ (database : Database) (Knows : Addr → ℕ → Type 0) where
  open database use {State, touch, upsert}

  unfoldable pub AreKnown : List (Addr × ℕ) → Type 0
  AreKnown m = (a : Addr) (id : ℕ) → find a m ≡ some id → Knows a id

  set-AreKnown :
      (c : Addr) (v : ℕ) (m : List (Addr × ℕ)) → Knows c v → AreKnown m → AreKnown (set c v m)
  unfolding AreKnown
  set-AreKnown c v m k h a id e = elim (Bool-cases (addr_eq c a)) [
    | inl same ↦
        let found : some v ≡ some id = sym (find-set_own a c v m same) ∙ e in
        subst (λ n. Knows a n) (some-injective _ _ found)
          (subst (λ b. Knows b v) (addr_eq_sound c a same) k)
    | inr other ↦ h a id (sym (find-set_other a c v m other) ∙ e)
  ]

  empty-AreKnown : AreKnown []
  unfolding AreKnown find
  empty-AreKnown a id e = absurd (ground arith)

  remember-AreKnown :
      (c : Addr) (v : ℕ) (m : List (Addr × ℕ)) → Knows c v → AreKnown m → AreKnown (remember c v m)
  unfolding remember
  remember-AreKnown c v m k h = elim (Bool-cases (leb cache_cap (length m))) [
    | inl full ↦ rw full (set-AreKnown c v [] k empty-AreKnown)
    | inr room ↦ rw room (set-AreKnown c v m k h)
  ]

  Present-next :
      (a c : Addr) (last : Time) (seen : List (Addr × Time)) (id : ℕ) (ids : List (Addr × ℕ))
      → Present a ((c, last) ∷ seen) ⊎ Present a ids
      → Present a seen ⊎ Present a (set c id ids)
  unfolding find
  Present-next a c last seen id ids (inl (v, e)) = elim (Bool-cases (addr_eq c a)) [
    | inl same ↦ inr (id, find-set_own a c id ids same)
    | inr other ↦ inl (v, rw other at e)
  ]
  Present-next a c last seen id ids (inr p) = inr (set-Present a c id ids p)

  -- What one round gives: an id of this exporter, and a cache that stays right.
  IsRight : Addr → Option ℕ × Backend database → Type 0
  IsRight a x = ((id : ℕ) → x.0 ≡ some id → Knows a id) × AreKnown x.1.cache

  module _
      (upserts : (a : Addr) (last : Time) (s : State) (id : ℕ)
        → (upsert a last s).0 ≡ some id
        → Knows a id) where
    created-IsRight :
        (a : Addr) (result : Option ℕ × State) (b : Backend database)
        → ((id : ℕ) → result.0 ≡ some id → Knows a id)
        → AreKnown b.cache
        → IsRight a (created database a result b)
    unfolding created IsRight
    created-IsRight a (none, s) b k h = (k, h)
    created-IsRight a (some id, s) b k h = (k, remember-AreKnown a id b.cache (k id refl) h)

    resolve_by-IsRight :
        (found : Option ℕ) (a : Addr) (last : Time) (b : Backend database)
        → find a b.cache ≡ found
        → AreKnown b.cache
        → IsRight a (resolve_by database found a last b)
    unfolding resolve_by known IsRight AreKnown
    resolve_by-IsRight none a last b e h =
        created-IsRight a (upsert a last b.state) b (upserts a last b.state) h
    resolve_by-IsRight (some id) a last b e h = (
      λ n f. elim (Bool-cases (touch id last b.state).0) [
        | inl ok ↦ h a n (e ∙ rw ok at f)
        | inr bad ↦ absurd (ground (arith, bad, f))
      ],
      h,
    )

    next_round-inv :
        (x : Option ℕ × Backend database)
        (more : ℕ → Backend database → Option (List (Addr × ℕ)) × Backend database)
        (ids : List (Addr × ℕ))
        → (next_round database x more).0 ≡ some ids
        → (id : ℕ) × (x.0 ≡ some id) × ((more id x.1).0 ≡ some ids)
    unfolding next_round
    next_round-inv (none, b) more ids h = absurd (ground arith)
    next_round-inv (some id, b) more ids h = (id, refl, h)

    resolve_all-right :
        (seen : List (Addr × Time)) (ids ids' : List (Addr × ℕ)) (b : Backend database)
        → (resolve_all database seen ids b).0 ≡ some ids'
        → AreKnown ids
        → AreKnown b.cache
        → AreKnown ids' × ((a : Addr) → Present a seen ⊎ Present a ids → Present a ids')
    unfolding resolve_all resolve_one IsRight find
    resolve_all-right [] ids ids' b h k c = (
      subst AreKnown (some-injective _ _ h) k,
      λ a p.
          subst (Present a) (some-injective _ _ h)
            (elim p [ inl (v, e) ↦ absurd (ground (arith, e)) | inr q ↦ q ]),
    )
    resolve_all-right ((c, last) ∷ seen) ids ids' b h k cached =
        let (id, made, rest) =
          next_round-inv (resolve_one database c last b)
            (λ n d. resolve_all database seen (set c n ids) d) ids' h in
        let right = resolve_by-IsRight (find c b.cache) c last b refl cached in
        let (all_known, all_there) =
          resolve_all-right seen (set c id ids) ids' (resolve_one database c last b).1 rest
            (set-AreKnown c id ids (right.0 id made) k) right.1 in
        (all_known, λ a p. all_there a (Present-next a c last seen id ids p))

    -- If upserts return ids that the table knows for the address, the cache holds such ids, and the map's order
    -- keeps its keys: when resolving succeeds, every record of the batch finds an id under its exporter's
    -- address (never the 0 of a missing key), and the table knows it for that address.
    pub resolve_exporters_complete :
        (order : List (Addr × Time) → List (Addr × Time)) (records : List FlowRecord)
        (b : Backend database) (ids : List (Addr × ℕ))
        → ((a : Addr) (m : List (Addr × Time)) → Present a m → Present a (order m))
        → AreKnown b.cache
        → (resolve_exporters database order records b).0 ≡ some ids
        → All
            (λ r. (id : ℕ) × (find r.exporter_addr ids ≡ some id) × Knows r.exporter_addr id)
            records
    unfolding resolve_exporters AreKnown
    resolve_exporters_complete order records b ids kept cached h =
        let (right, there) =
          resolve_all-right (order (see_all records [])) [] ids b h empty-AreKnown cached in
        All-map
          (λ r p.
            let (id, e) = there r.exporter_addr (inl (kept r.exporter_addr _ p)) in
            (id, e, right r.exporter_addr id e))
          records (see_all-All records [])
