-- ===== src/Sink/Exporters.antt =====
-- internal/sink/postgres/postgres.go: `resolveExporters` with its bounded cache, and `WriteBatch`. The
-- database is a parameter; its statements change its state.
use netflow_collector.Base.{
  ℕ, Bool, true, false, Option, none, some, List, [], ◌∷◌, map, length, ltb, leb, if◌then◌else◌,
}
use netflow_collector.Flow.Time.{Time, trunc_micro}
use netflow_collector.Flow.Addr.{Addr}
use netflow_collector.Flow.Record.{FlowRecord}
use netflow_collector.Flow.AddrMap.{find, set}
use netflow_collector.Sink.Columns.{Columns, add}

abbrev pub cache_cap : ℕ
cache_cap = 4096

-- `!ok || r.ReceivedAt.After(t)`
abbrev pub newer : Time → Option Time → Bool
newer at none = true
newer at (some t) = ltb t at

unfoldable pub see : FlowRecord → List (Addr × Time) → List (Addr × Time)
see r seen =
    if newer r.received_at (find r.exporter_addr seen)
    then set r.exporter_addr (trunc_micro r.received_at) seen
    else seen

-- The first loop: when each exporter of the batch was last seen.
unfoldable pub see_all : List FlowRecord → List (Addr × Time) → List (Addr × Time)
see_all [] seen = seen
see_all (r ∷ rs) seen = see_all rs (see r seen)

unfoldable pub remember : Addr → ℕ → List (Addr × ℕ) → List (Addr × ℕ)
remember a id cache = set a id (if leb cache_cap (length cache) then [] else cache)

pub data CopyResult : Type 0 where
  copied unique_violation copy_failed : CopyResult

-- The statements: UPDATE of last_seen_at, the upsert that returns an id, COPY, and the conflict-tolerant INSERT.
pub record Database : Type 1 where
  pub State : Type 0
  pub touch : ℕ → Time → State → Bool × State
  pub upsert : Addr → Time → State → Option ℕ × State
  pub copy : List Columns → State → CopyResult × State
  pub insert : List Columns → State → Bool × State

module _ (database : Database) where
  open database use {State, touch, upsert, copy, insert}

  -- The backend's cache and the database.
  pub record Backend : Type 0 where
    pub cache : List (Addr × ℕ)
    pub state : State

  abbrev pub Ids : Type 0
  Ids = List (Addr × ℕ)

  unfoldable pub known : Addr → ℕ → Bool × State → Backend → Option ℕ × Backend
  known a id (ok, s) b = (if ok then some id else none, record b { state = s })

  unfoldable pub created : Addr → Option ℕ × State → Backend → Option ℕ × Backend
  created a (none, s) b = (none, record b { state = s })
  created a (some id, s) b = (some id, record { cache = remember a id b.cache; state = s })

  unfoldable pub resolve_by : Option ℕ → Addr → Time → Backend → Option ℕ × Backend
  resolve_by (some id) a last b = known a id (touch id last b.state) b
  resolve_by none a last b = created a (upsert a last b.state) b

  -- One round of the second loop.
  unfoldable pub resolve_one : Addr → Time → Backend → Option ℕ × Backend
  resolve_one a last b = resolve_by (find a b.cache) a last b

  -- `none` is the first error; the rounds before it stand.
  -- The round's error ends the loop.
  unfoldable pub next_round :
      Option ℕ × Backend → (ℕ → Backend → Option Ids × Backend) → Option Ids × Backend
  next_round (none, b) more = (none, b)
  next_round (some id, b) more = more id b

  unfoldable pub resolve_all : List (Addr × Time) → Ids → Backend → Option Ids × Backend
  resolve_all [] ids b = (some ids, b)
  resolve_all ((a, last) ∷ seen) ids b =
      next_round (resolve_one a last b) (λ id c. resolve_all seen (set a id ids) c)

  -- The loop runs over a Go map: `order` is the order of this run.
  unfoldable pub resolve_exporters :
      (List (Addr × Time) → List (Addr × Time)) → List FlowRecord → Backend → Option Ids × Backend
  resolve_exporters order records b = resolve_all (order (see_all records [])) [] b

  -- A missing key of the map reads as 0.
  abbrev pub id_of : Option ℕ → ℕ
  id_of none = 0
  id_of (some id) = id

  unfoldable pub columns_of : Ids → List FlowRecord → List Columns
  columns_of ids records = map (λ r. add r (id_of (find r.exporter_addr ids))) records

  unfoldable pub insert_rows : List Columns → Backend → Bool × Backend
  insert_rows cols b = let (ok, s) = insert cols b.state in (ok, record b { state = s })

  -- The COPY's result: only a unique violation is retried with the INSERT.
  unfoldable pub after_copy : CopyResult → List Columns → Backend → Bool × Backend
  after_copy copied cols b = (true, b)
  after_copy unique_violation cols b = insert_rows cols b
  after_copy copy_failed cols b = (false, b)

  unfoldable pub store_rows : List Columns → Backend → Bool × Backend
  store_rows cols b =
      let (result, s) = copy cols b.state in after_copy result cols (record b { state = s })

  unfoldable pub after_resolve : List FlowRecord → Option Ids × Backend → Bool × Backend
  after_resolve records (none, b) = (false, b)
  after_resolve records (some ids, b) = store_rows (columns_of ids records) b

  -- Whether it returns nil, and what it leaves.
  unfoldable pub write_batch :
      (List (Addr × Time) → List (Addr × Time)) → List FlowRecord → Backend → Bool × Backend
  write_batch order [] b = (true, b)
  write_batch order (r ∷ rs) b = after_resolve (r ∷ rs) (resolve_exporters order (r ∷ rs) b)
