-- ===== src/Examples/Mariadb.antt =====
-- A table of instants with retention, and a server that keeps what it is offered.
use mathlib.Core.Option.{some-injective}
use netflow_collector.Base.{
  ℕ, zero, suc, ◌-◌, ◌*◌, ◌≡◌, refl, sym, true, Option, some, List, [], ◌∷◌, ◌++◌, map, min, ltb,
  if◌then◌else◌, arith,
}
use netflow_collector.Flow.Time.{Time}
use netflow_collector.Flow.Addr.{Addr}
use netflow_collector.Flow.Record.{FlowRecord}
use netflow_collector.Flow.AddrMap.{find, set, addr_eq}
use netflow_collector.Examples.Messages.{sample}
use netflow_collector.Sink.Exporters.{
  Backend, resolve_exporters, resolve_all, next_round, resolve_one, resolve_by, created, remember,
  see_all, see,
}
use netflow_collector.Sink.Mariadb.{
  Value, IdMap, values_of, Server, registry, resolve_ids, write_rows, finished, after_ids, in_tx,
  insert_all, finish_tx, apply_retention,
}
use netflow_collector.Sink.Mariadb.Batches.{Offers, rows_of, write_rows_offers}
use netflow_collector.Sink.Mariadb.Stored.{
  columns_of, row_of, scan_fetched, stored_form, scan_fetched-row_of,
}
use netflow_collector.Sink.Mariadb.Retention.{old, young, Table, retention_ends, retention_wipes}

-- The rows without the first `n` that are old.
remove : Time → ℕ → List Time → List Time
remove limit zero ts = ts
remove limit (suc n) [] = []
remove limit (suc n) (t ∷ ts) =
    let fewer = remove limit n ts in
    let rest = remove limit (suc n) ts in if ltb t limit then fewer else t ∷ rest

old-remove :
    (limit : Time) (n : ℕ) (ts : List Time) → old limit (remove limit n ts) ≡ old limit ts - n
unfolding remove
old-remove limit zero ts = omega arith
old-remove limit (suc n) [] = omega arith
old-remove limit (suc n) (t ∷ ts) =
    ground (arith, old-remove limit n ts, old-remove limit (suc n) ts)

young-remove :
    (limit : Time) (n : ℕ) (ts : List Time) → young limit (remove limit n ts) ≡ young limit ts
unfolding remove
young-remove limit zero ts = refl
young-remove limit (suc n) [] = refl
young-remove limit (suc n) (t ∷ ts) =
    ground (arith, young-remove limit n ts, young-remove limit (suc n) ts)

abbrev instants : Table
instants = record {
  State = List Time;
  delete_old = λ limit n s. (some (min n (old limit s)), remove limit n s);
  rows = λ s. s;
  deletes = λ limit n s. refl;
  leaves = old-remove;
  keeps = young-remove;
}

abbrev now : Time
now = 10_000_000_000_000_000_000_000

abbrev three : List Time
three = 5 ∷ now ∷ 7 ∷ []

retention_ends_example :
    ((apply_retention instants.delete_old 1 now 30 three).0 ≡ finished)
    × (old (now - 30 * 86_400_000_000_000) (apply_retention instants.delete_old 1 now 30 three).1
        ≡ 0)
    × (young (now - 30 * 86_400_000_000_000) (apply_retention instants.delete_old 1 now 30 three).1
        ≡ 1)
retention_ends_example =
    retention_ends instants 1 now 30 three (omega arith) (omega arith) (omega arith)

retention_wipes_example :
    ((apply_retention instants.delete_old 1 now 200_000 three).0 ≡ finished)
    × ((apply_retention instants.delete_old 1 now 200_000 three).1 ≡ [])
retention_wipes_example =
    retention_wipes instants 1 now 200_000 three (omega arith) (omega arith)
      (omega arith, (omega arith, (omega arith, tt))) (omega arith)

-- A server that never fails: an id is a count of the upserts.
abbrev honest : Server
honest = record {
  State = ℕ × List (List Value);
  Tx = List (List Value);
  touch = λ id t s. (true, s);
  upsert = λ a t s. (some (suc s.0), (suc s.0, s.1));
  begin_tx = λ s. some [];
  exec = λ st t. (true, t ++ rows_of st.groups st.args);
  commit = λ t s. (true, (s.0, s.1 ++ t));
}

no_rows : (t : List (List Value)) → ◌≡◌ {A = Option (List (List Value))} (some []) (some t) → t ≡ []
no_rows t e = sym (some-injective _ _ e)

abbrev kept : Offers honest
kept = record {
  pending = λ t. t;
  offered = λ s. s.1;
  begins = λ s t e. no_rows t e;
  executes = λ st t w h. refl;
  touches = λ id t s. refl;
  upserts = λ a t s. refl;
  commits = λ t s h. refl;
}

abbrev batch : List FlowRecord
batch = record sample { exporter_addr = Addr.v4 5 } ∷ sample ∷ []

abbrev idle : Backend (registry honest)
idle = record { cache = []; state = (0, []) }

batch_written : (write_rows honest (λ m. m) batch idle).0 ≡ true
unfolding write_rows resolve_ids resolve_exporters resolve_all next_round resolve_one resolve_by
    created remember see_all see find set addr_eq after_ids in_tx insert_all finish_tx
batch_written = refl

write_rows_offers_example :
    (ids : IdMap) × ((resolve_ids honest (λ m. m) batch idle).0 ≡ some ids)
    × ((write_rows honest (λ m. m) batch idle).1.state.1 ≡ map (λ r. values_of ids r []) batch)
write_rows_offers_example =
    write_rows_offers honest kept (λ m. m) (record sample { exporter_addr = Addr.v4 5 })
      (sample ∷ []) idle batch_written

abbrev ids : IdMap
ids = (sample.exporter_addr, 7) ∷ []

scan_fetched-row_of_example :
    (values_of ids sample [] ≡ columns_of (row_of ids sample 3))
    × (scan_fetched (row_of ids sample 3) ≡ (stored_form ids sample, 3))
scan_fetched-row_of_example = scan_fetched-row_of ids sample 3 (record {
  exporter = (omega arith, refl);
  src = omega arith;
  dst = (omega arith, refl);
  hop = tt;
})
