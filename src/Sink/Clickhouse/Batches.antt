-- ===== src/Sink/Clickhouse/Batches.antt =====
-- internal/sink/clickhouse/clickhouse.go: what a batch leaves in the two tables.
use netflow_collector.Base.{
  ◌≡◌, refl, ap, sym, subst, ◌∙◌, Bool, true, false, some, List, [], ◌∷◌, ◌++◌, map, All, All-map,
  Any, here, there, arith, Bool-cases, inl, inr,
}
use netflow_collector.Flow.Time.{Time}
use netflow_collector.Flow.Addr.{Addr}
use netflow_collector.Flow.AddrMap.{addr_eq, addr_eq_sound, find}
use netflow_collector.Flow.Record.{FlowRecord}
use netflow_collector.Sink.Exporters.{see_all}
use netflow_collector.Sink.Known.{Present, see_all-All}
use netflow_collector.Sink.Clickhouse.{
  exporter_id, Cells, insert_row, ExporterRow, exporter_row, Connection, touch_exporters,
  after_touch, write_cells,
}

-- What the two tables were sent: a batch that was sent adds its rows.
pub record Tables (connection : Connection) : Type 0 where
  pub exporters : connection.State → List ExporterRow
  pub records : connection.State → List Cells
  pub touched :
      (es : List ExporterRow) (s : connection.State)
      → (connection.send_exporters es s).0 ≡ true
      → (exporters (connection.send_exporters es s).1 ≡ exporters s ++ es)
        × (records (connection.send_exporters es s).1 ≡ records s)
  pub sent :
      (cs : List Cells) (s : connection.State)
      → (connection.send_records cs s).0 ≡ true
      → (exporters (connection.send_records cs s).1 ≡ exporters s)
        × (records (connection.send_records cs s).1 ≡ records s ++ cs)

-- The row of the address's exporter.
abbrev pub RowOf : Addr → ExporterRow → Type 0
RowOf a e = (e.id ≡ exporter_id a) × (e.ip_address ≡ a)

find-RowOf :
    (a : Addr) (m : List (Addr × Time)) {t : Time}
    → find a m ≡ some t
    → Any (RowOf a) (map exporter_row m)
unfolding find
find-RowOf a [] h = absurd (ground (arith, h))
find-RowOf a ((b, t) ∷ m) h = elim (Bool-cases (addr_eq b a)) [
  | inl same ↦ here (ap exporter_id (addr_eq_sound b a same), addr_eq_sound b a same)
  | inr apart ↦ there (find-RowOf a m (rw apart at h))
]

Any-append_right : {A : Type 0} {P : A → Type 0} (xs ys : List A) → Any P ys → Any P (xs ++ ys)
Any-append_right [] ys h = h
Any-append_right (x ∷ xs) ys h = there (Any-append_right xs ys h)

module _ (connection : Connection) (tables : Tables connection) where
  open connection use {State}
  open tables use {exporters, records, touched, sent}

  after_touch_lem :
      (rs : List FlowRecord) (x : Bool × State)
      → (after_touch connection rs x).0 ≡ true
      → (x.0 ≡ true)
        × (exporters (after_touch connection rs x).1 ≡ exporters x.1)
        × (records (after_touch connection rs x).1 ≡ records x.1 ++ map insert_row rs)
  unfolding after_touch
  after_touch_lem rs (false, s) h = absurd (ground (arith, h))
  after_touch_lem rs (true, s) h =
      let (same, more) = sent (map insert_row rs) s h in (refl, same, more)

  -- If walking a Go map keeps its keys, and `WriteBatch` returns nil: the table of records was sent
  -- every record of the batch, in order and nothing else, and for each of them the table of exporters
  -- has a row with its exporter's address and the id that the record's row carries.
  pub write_cells_complete :
      (order : List (Addr × Time) → List (Addr × Time)) (r : FlowRecord) (rs : List FlowRecord)
      (s : State)
      → ((a : Addr) (m : List (Addr × Time)) → Present a m → Present a (order m))
      → (write_cells connection order (r ∷ rs) s).0 ≡ true
      → (records (write_cells connection order (r ∷ rs) s).1 ≡ records s ++ map insert_row (r ∷ rs))
        × All
            (λ x.
              Any (RowOf x.exporter_addr) (exporters (write_cells connection order (r ∷ rs) s).1))
            (r ∷ rs)
  unfolding write_cells touch_exporters
  write_cells_complete order r rs s keys h =
      let es = map exporter_row (order (see_all (r ∷ rs) [])) in
      let (ok, same, more) = after_touch_lem (r ∷ rs) (connection.send_exporters es s) h in
      let (rows, before) = touched es s ok in
      (
        more ∙ ap (◌++ map insert_row (r ∷ rs)) before,
        subst (λ l. All (λ x. Any (RowOf x.exporter_addr) l) (r ∷ rs)) (sym (same ∙ rows))
            (All-map
              (λ x p.
                let (t, found) = keys x.exporter_addr (see_all (r ∷ rs) []) p in
                Any-append_right (exporters s) es (find-RowOf x.exporter_addr _ found))
              (r ∷ rs) (see_all-All (r ∷ rs) [])),
      )
