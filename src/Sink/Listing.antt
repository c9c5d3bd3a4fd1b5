-- ===== src/Sink/Listing.antt =====
-- internal/sink: `ListExporters` of postgres, mariadb and clickhouse. Their three loops over the rows are
-- alike; they differ in how an address is read.
use Prim.Native.String.{String}
use netflow_collector.Base.{
  ℕ, ◌≡◌, refl, Bool, true, false, Option, none, some, List, [], ◌∷◌, ◌++◌, map, All,
}
use netflow_collector.Flow.Time.{Time}
use netflow_collector.Flow.Addr.{Addr, unmap, as_slice, addr_from_slice}
use netflow_collector.Api.Render.{Exporter}
use netflow_collector.Sink.Mariadb.Query.Placeholders.{IsStored}
use netflow_collector.Sink.Mariadb.Stored.{slice_lem}

-- A row of the table: an address is an inet in postgres, bytes in mariadb, an IPv6 in clickhouse.
pub record Listed {ℓ} (A : Type ℓ) : Type ℓ where
  pub id : ℕ
  pub ip : A
  pub label : Option String
  pub first_seen_at : Time
  pub last_seen_at : Time

unfoldable pub read_exporter {ℓ} : {A : Type ℓ} → (A → Addr) → Listed A → Exporter
read_exporter to_addr row = record {
  id = row.id;
  ip_address = to_addr row.ip;
  label = row.label;
  first_seen_at = row.first_seen_at;
  last_seen_at = row.last_seen_at;
}

-- The rows as they come, `none` where one cannot be scanned; whether `rows.Err()` is nil at the end.
pub record Fetch {ℓ} (A : Type ℓ) : Type ℓ where
  pub rows : List (Option (Listed A))
  pub ended_well : Bool

module _ {ℓ} {A : Type ℓ} (to_addr : A → Addr) where
  unfoldable pub loop_listed :
      Bool → List Exporter → List (Option (Listed A)) → Option (List Exporter)
  loop_listed false out [] = none
  loop_listed true out [] = some out
  loop_listed well out (none ∷ rows) = none
  loop_listed well out (some row ∷ rows) =
      loop_listed well (out ++ (read_exporter to_addr row ∷ [])) rows

  unfoldable pub list_listed : Option (Fetch A) → Option (List Exporter)
  list_listed none = none
  list_listed (some f) = loop_listed f.ended_well [] f.rows

unfoldable pub list_postgres : Option (Fetch Addr) → Option (List Exporter)
list_postgres f = list_listed (λ a. a) f

unfoldable pub list_mariadb : Option (Fetch (List ℕ)) → Option (List Exporter)
list_mariadb f = list_listed addr_from_slice f

unfoldable pub list_clickhouse : Option (Fetch Addr) → Option (List Exporter)
list_clickhouse f = list_listed unmap f

-- A row with its address as bytes.
abbrev pub in_bytes : Listed Addr → Listed (List ℕ)
in_bytes row = record {
  id = row.id;
  ip = as_slice row.ip;
  label = row.label;
  first_seen_at = row.first_seen_at;
  last_seen_at = row.last_seen_at;
}

abbrev pub bytes_of : Option (Listed Addr) → Option (Listed (List ℕ))
bytes_of none = none
bytes_of (some row) = some (in_bytes row)

abbrev pub IsPlainRow : Option (Listed Addr) → Type 0
IsPlainRow none = Unit
IsPlainRow (some row) = IsStored row.ip × (unmap row.ip ≡ row.ip)

mariadb_loop :
    (well : Bool) (out : List Exporter) (rows : List (Option (Listed Addr)))
    → All IsPlainRow rows
    → loop_listed addr_from_slice well out (map bytes_of rows) ≡ loop_listed (λ a. a) well out rows
unfolding loop_listed read_exporter
mariadb_loop false out [] h = refl
mariadb_loop true out [] h = refl
mariadb_loop well out (none ∷ rows) h = refl
mariadb_loop well out (some row ∷ rows) h =
    rw (slice_lem row.ip h.0.0) (mariadb_loop well _ rows h.1)

clickhouse_loop :
    (well : Bool) (out : List Exporter) (rows : List (Option (Listed Addr)))
    → All IsPlainRow rows
    → loop_listed unmap well out rows ≡ loop_listed (λ a. a) well out rows
unfolding loop_listed read_exporter
clickhouse_loop false out [] h = refl
clickhouse_loop true out [] h = refl
clickhouse_loop well out (none ∷ rows) h = refl
clickhouse_loop well out (some row ∷ rows) h = rw (h.0.1) (clickhouse_loop well _ rows h.1)

-- If the addresses of a table are as they are stored, and unmapped, the three engines list the same
-- exporters from the same rows, and fail on the same rows.
pub engines_agree :
    (rows : List (Option (Listed Addr))) (well : Bool)
    → All IsPlainRow rows
    → (list_mariadb (some (record { rows = map bytes_of rows; ended_well = well }))
        ≡ list_postgres (some (record { rows = rows; ended_well = well })))
      × (list_clickhouse (some (record { rows = rows; ended_well = well }))
          ≡ list_postgres (some (record { rows = rows; ended_well = well })))
unfolding list_postgres list_mariadb list_clickhouse list_listed
engines_agree rows well h = (mariadb_loop well [] rows h, clickhouse_loop well [] rows h)
