-- ===== src/Sink/Mariadb.antt =====
-- internal/sink/mariadb: `WriteBatch` with its rows and transaction, and the retention loop. The server
-- is a parameter; resolving exporters is as in postgres.
use Prim.Native.String.{String}
use text.Mathlib.Text.{◌==◌ as str_eq}
use netflow_collector.Base.{
  ℕ, zero, suc, ◌+◌, ◌-◌, ◌*◌, ◌%◌, ◌^◌, Bool, true, false, not, ◌&&◌, Option, none, some, List, [],
  ◌∷◌, ◌++◌, length, take, drop, ltb, if◌then◌else◌,
}
use netflow_collector.Flow.Time.{Time, trunc_micro}
use netflow_collector.Flow.Addr.{Addr, is_valid, as_slice}
use netflow_collector.Flow.AddrMap.{find}
use netflow_collector.Flow.Record.{FlowRecord}
use netflow_collector.Sink.Exporters.{Database, copy_failed, Backend, resolve_exporters}
pub mod Batches
pub mod Query
pub mod Retention
pub mod Stored

abbrev pub insert_limit : ℕ
insert_limit = 1000

abbrev pub retention_chunk : ℕ
retention_chunk = 10_000

-- An argument of a statement.
pub data Value : Type 0 where
  at : Time → Value
  number : ℕ → Value
  word : String → Value
  octets : List ℕ → Value
  null : Value

-- A multi-row INSERT IGNORE: how many groups of twenty placeholders, and the arguments.
pub record Insert : Type 0 where
  pub groups : ℕ
  pub args : List Value

abbrev pub IdMap : Type 0
IdMap = List (Addr × ℕ)

-- `ids[a]`: a missing key reads as 0.
unfoldable pub id_at : IdMap → Addr → ℕ
id_at ids a = elim (find a ids) [ none ↦ 0 | some id ↦ id ]

-- `addrBytes`, and `AsSlice` alone: the nil slice of an invalid address is sent as NULL.
unfoldable pub addr_bytes : Addr → Value
addr_bytes a = if is_valid a then octets (as_slice a) else null

abbrev pub bytes_or_null : Option (List ℕ) → Value
bytes_or_null none = null
bytes_or_null (some k) = octets k

unfoldable pub values_of : IdMap → FlowRecord → List Value → List Value
unfolding addr_bytes id_at
values_of ids r rest =
    at (trunc_micro r.received_at)
    ∷ number (id_at ids r.exporter_addr)
    ∷ word r.flow_type
    ∷ at (trunc_micro r.first_switched)
    ∷ at (trunc_micro r.last_switched)
    ∷ addr_bytes r.src_addr
    ∷ addr_bytes r.dst_addr
    ∷ number r.src_port
    ∷ number r.dst_port
    ∷ number r.protocol
    ∷ number r.tcp_flags
    ∷ number r.packets
    ∷ number r.bytes
    ∷ number r.sampling_rate
    ∷ number r.input_iface
    ∷ number r.output_iface
    ∷ number r.src_as
    ∷ number r.dst_as
    ∷ addr_bytes r.next_hop
    ∷ bytes_or_null r.dedup_key
    ∷ rest

unfoldable pub args_of : IdMap → List FlowRecord → List Value
args_of ids [] = []
args_of ids (r ∷ rs) = values_of ids r (args_of ids rs)

unfoldable pub insert_statement : List FlowRecord → IdMap → Insert
insert_statement records ids = record { groups = length records; args = args_of ids records }

-- The server: the statements on exporters (the upsert reports an id by LastInsertId, and either may
-- fail), and a transaction with a state of its own.
pub record Server : Type 1 where
  pub State : Type 0
  pub Tx : Type 0
  pub touch : ℕ → Time → State → Bool × State
  pub upsert : Addr → Time → State → Option ℕ × State
  pub begin_tx : State → Option Tx
  pub exec : Insert → Tx → Bool × Tx
  pub commit : Tx → State → Bool × State

module _ (server : Server) where
  open server use {State, Tx, touch, upsert, begin_tx, exec, commit}

  -- The statements on exporters; postgres' COPY is none of this server's.
  abbrev pub registry : Database
  registry = record {
    State = State;
    touch = touch;
    upsert = upsert;
    copy = λ cols s. (copy_failed, s);
    insert = λ cols s. (false, s);
  }

  unfoldable pub resolve_ids :
      (List (Addr × Time) → List (Addr × Time))
      → List FlowRecord
      → Backend registry
      → Option IdMap × Backend registry
  resolve_ids order records b = resolve_exporters registry order records b

  -- The loop over the chunks; `rounds` is enough if it is the number of records.
  unfoldable pub insert_all : ℕ → IdMap → List FlowRecord → Tx → Bool × Tx
  insert_all rounds ids [] t = (true, t)
  insert_all zero ids (r ∷ rs) t = (false, t)
  insert_all (suc rounds) ids (r ∷ rs) t =
      let (done, after) = exec (insert_statement (take insert_limit (r ∷ rs)) ids) t in
      let rest = insert_all rounds ids (drop insert_limit (r ∷ rs)) after in
      if done then rest else (false, after)

  -- An insert that failed leaves the transaction to be rolled back.
  unfoldable pub finish_tx : Bool × Tx → Backend registry → Bool × Backend registry
  finish_tx (false, t) b = (false, b)
  finish_tx (true, t) b = let (done, s) = commit t b.state in (done, record b { state = s })

  unfoldable pub in_tx :
      IdMap → List FlowRecord → Option Tx → Backend registry → Bool × Backend registry
  in_tx ids records none b = (false, b)
  in_tx ids records (some t) b = finish_tx (insert_all (length records) ids records t) b

  unfoldable pub after_ids :
      List FlowRecord → Option IdMap × Backend registry → Bool × Backend registry
  after_ids records (none, b) = (false, b)
  after_ids records (some ids, b) = in_tx ids records (begin_tx b.state) b

  -- Whether it returns nil, and what it leaves.
  unfoldable pub write_rows :
      (List (Addr × Time) → List (Addr × Time))
      → List FlowRecord
      → Backend registry
      → Bool × Backend registry
  write_rows order [] b = (true, b)
  write_rows order (r ∷ rs) b = after_ids (r ∷ rs) (resolve_ids order (r ∷ rs) b)

-- `New`: whether the DSN was parsed, its parseTime and location, and whether the server was opened
-- and answered.
unfoldable pub new_mariadb : Bool → Bool → Option String → Bool → Bool → Bool
new_mariadb parsed parse_time none opened ping = false
new_mariadb parsed parse_time (some loc) opened ping =
    parsed && (parse_time && str_eq loc "UTC") && opened && ping

abbrev pub day : ℕ
day = 86_400_000_000_000

-- `-time.Duration(days) * 24 * time.Hour`, as an int64's bit pattern.
unfoldable pub back : ℕ → ℕ
back days = (2 ^ 64 - days * day % 2 ^ 64) % 2 ^ 64

-- `t.Add(d)`, of a duration's bit pattern.
abbrev pub shift : Time → ℕ → Time
shift t d = if ltb d (2 ^ 63) then t + d else t - (2 ^ 64 - d)

unfoldable pub cutoff : Time → ℕ → Time
unfolding back
cutoff now days = shift now (back days)

pub data Retained : Type 0 where
  finished : Retained
  delete_failed : Retained
  unfinished : Retained  -- out of rounds

module _ {S : Type 0} (delete_old : Time → ℕ → S → Option ℕ × S) where
  unfoldable pub after_delete : Option ℕ × S → (S → Retained × S) → Retained × S
  after_delete (none, s) more = (delete_failed, s)
  after_delete (some n, s) more = if ltb n retention_chunk then (finished, s) else more s

  -- The loop of `applyRetention`; `delete_old` says how many rows it deleted, 0 if that is not known.
  unfoldable pub retain : ℕ → Time → S → Retained × S
  retain zero limit s = (unfinished, s)
  retain (suc rounds) limit s =
      after_delete (delete_old limit retention_chunk s) (retain rounds limit)

  unfoldable pub apply_retention : ℕ → Time → ℕ → S → Retained × S
  apply_retention rounds now days s = retain rounds (cutoff now days) s
