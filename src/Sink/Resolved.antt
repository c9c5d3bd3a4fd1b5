-- ===== src/Sink/Resolved.antt =====
-- internal/sink/postgres/postgres.go: the ids of a batch's exporters, and the size of the cache.
use netflow_collector.Base.{
  ℕ, suc, ◌≤◌, Option, none, some, List, [], ◌∷◌, length, leb, arith, Bool-cases, inl, inr,
}
use netflow_collector.Flow.Time.{Time}
use netflow_collector.Flow.Addr.{Addr}
use netflow_collector.Flow.Record.{FlowRecord}
use netflow_collector.Flow.AddrMap.{find, set}
use netflow_collector.Sink.Exporters.{
  remember, Database, Backend, known, created, resolve_by, resolve_one, next_round, resolve_all,
  see_all, resolve_exporters,
}

length-set :
    {V : Type 0} (a : Addr) (v : V) (m : List (Addr × V)) → length (set a v m) ≤ suc (length m)
unfolding set
length-set a v [] = omega arith
length-set a v ((b, w) ∷ m) = ground (arith, length-set a v m)

remember-length :
    (a : Addr) (id : ℕ) (cache : List (Addr × ℕ))
    → length cache ≤ 4096
    → length (remember a id cache) ≤ 4096
unfolding remember
remember-length a id cache h = elim (Bool-cases (leb 4096 (length cache))) [
  | inl full ↦ rw full (omega (arith, length-set a id []))
  | inr room ↦ rw room (ground (arith, length-set a id cache, room))
]

module _ (database : Database) where
  open database use {State, touch, upsert}

  created-bounded :
      (a : Addr) (result : Option ℕ × State) (b : Backend database)
      → length b.cache ≤ 4096
      → length (created database a result b).1.cache ≤ 4096
  unfolding created
  created-bounded a (none, s) b h = h
  created-bounded a (some id, s) b h = remember-length a id b.cache h

  resolve_by-bounded :
      (found : Option ℕ) (a : Addr) (last : Time) (b : Backend database)
      → length b.cache ≤ 4096
      → length (resolve_by database found a last b).1.cache ≤ 4096
  unfolding resolve_by known
  resolve_by-bounded none a last b h = created-bounded a (upsert a last b.state) b h
  resolve_by-bounded (some id) a last b h = h

  next_round-bounded :
      (x : Option ℕ × Backend database)
      (more : ℕ → Backend database → Option (List (Addr × ℕ)) × Backend database)
      → length x.1.cache ≤ 4096
      → ((id : ℕ) (b : Backend database)
          → length b.cache ≤ 4096
          → length (more id b).1.cache ≤ 4096)
      → length (next_round database x more).1.cache ≤ 4096
  unfolding next_round
  next_round-bounded (none, b) more h k = h
  next_round-bounded (some id, b) more h k = k id b h

  resolve_all-bounded :
      (seen : List (Addr × Time)) (ids : List (Addr × ℕ)) (b : Backend database)
      → length b.cache ≤ 4096
      → length (resolve_all database seen ids b).1.cache ≤ 4096
  unfolding resolve_all resolve_one
  resolve_all-bounded [] ids b h = h
  resolve_all-bounded ((a, last) ∷ seen) ids b h =
      next_round-bounded (resolve_one database a last b)
        (λ id c. resolve_all database seen (set a id ids) c)
        (resolve_by-bounded (find a b.cache) a last b h)
        (λ id c. resolve_all-bounded seen (set a id ids) c)

  -- Whatever the statements answer, and whether or not it fails, resolving leaves at most 4096 exporters in
  -- the cache if it found no more there.
  pub resolve_exporters_bounded :
      (order : List (Addr × Time) → List (Addr × Time)) (records : List FlowRecord)
      (b : Backend database)
      → length b.cache ≤ 4096
      → length (resolve_exporters database order records b).1.cache ≤ 4096
  unfolding resolve_exporters
  resolve_exporters_bounded order records b h =
      resolve_all-bounded (order (see_all records [])) [] b h
