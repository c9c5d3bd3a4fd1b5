-- ===== src/Sink/Mariadb/Batches.antt =====
-- internal/sink/mariadb: what a batch offers to the table.
use netflow_collector.Base.{
  ℕ, zero, suc, ◌*◌, ◌≤◌, ◌≡◌, refl, ap, sym, ◌∙◌, Bool, true, false, Option, none, some, List, [],
  ◌∷◌, ◌++◌, append-nil, append_assoc, map, length, take, drop, length-drop, length-take,
  take-append-drop, arith, Bool-cases, inl, inr,
}
use netflow_collector.Flow.Time.{Time}
use netflow_collector.Flow.Addr.{Addr}
use netflow_collector.Flow.Record.{FlowRecord}
use netflow_collector.Sink.Exporters.{
  Backend, see_all, known, created, resolve_by, resolve_one, next_round, resolve_all,
  resolve_exporters,
}
use netflow_collector.Flow.AddrMap.{find, set}
use netflow_collector.Sink.Mariadb.{
  insert_limit, Value, Insert, IdMap, values_of, args_of, insert_statement, Server, registry,
  resolve_ids, insert_all, finish_tx, in_tx, after_ids, write_rows,
}

-- The arguments of a statement, twenty to a row.
unfoldable pub rows_of : ℕ → List Value → List (List Value)
rows_of zero args = []
rows_of (suc n) args = take 20 args ∷ rows_of n (drop 20 args)

-- A statement that the server takes: as many arguments as placeholders, and not too many.
pub record IsWellFormed (s : Insert) : Type 0 where
  pub matched : length s.args ≡ 20 * s.groups
  pub nonempty : 1 ≤ s.groups
  pub fits : length s.args ≤ 65_535

-- What a transaction offers to the table, and what the table was offered: a statement that succeeds
-- adds its rows, and so does a commit.
pub record Offers (server : Server) : Type 0 where
  pub pending : server.Tx → List (List Value)
  pub offered : server.State → List (List Value)
  pub begins : (s : server.State) (t : server.Tx) → server.begin_tx s ≡ some t → pending t ≡ []
  pub executes :
      (st : Insert) (t : server.Tx)
      → IsWellFormed st
      → (server.exec st t).0 ≡ true
      → pending (server.exec st t).1 ≡ pending t ++ rows_of st.groups st.args
  pub touches : (id : ℕ) (t : Time) (s : server.State) → offered (server.touch id t s).1 ≡ offered s
  pub upserts :
      (a : Addr) (t : Time) (s : server.State) → offered (server.upsert a t s).1 ≡ offered s
  pub commits :
      (t : server.Tx) (s : server.State)
      → (server.commit t s).0 ≡ true
      → offered (server.commit t s).1 ≡ offered s ++ pending t

length-args_of : (ids : IdMap) (rs : List FlowRecord) → length (args_of ids rs) ≡ 20 * length rs
unfolding args_of values_of
length-args_of ids [] = refl
length-args_of ids (r ∷ rs) = omega (arith, length-args_of ids rs)

rows_of-args_of :
    (ids : IdMap) (rs : List FlowRecord)
    → rows_of (length rs) (args_of ids rs) ≡ map (λ r. values_of ids r []) rs
unfolding rows_of args_of values_of
rows_of-args_of ids [] = refl
rows_of-args_of ids (r ∷ rs) = ap (values_of ids r [] ∷◌) (rows_of-args_of ids rs)

insert_statement-IsWellFormed :
    (r : FlowRecord) (rs : List FlowRecord) (ids : IdMap)
    → IsWellFormed (insert_statement (take insert_limit (r ∷ rs)) ids)
unfolding insert_statement
insert_statement-IsWellFormed r rs ids =
    let n = length-take insert_limit (r ∷ rs) in
    let m = length-args_of ids (take insert_limit (r ∷ rs)) in
    record { matched = m; nonempty = omega (arith, n); fits = omega (arith, n, m) }

map-append : {A B : Type 0} (f : A → B) (xs ys : List A) → map f (xs ++ ys) ≡ map f xs ++ map f ys
map-append f [] ys = refl
map-append f (x ∷ xs) ys = ap (f x ∷◌) (map-append f xs ys)

abbrev pub row_of : IdMap → FlowRecord → List Value
row_of ids r = values_of ids r []

module _ (server : Server) (offers : Offers server) where
  open server use {State, Tx, begin_tx, exec, commit}
  open offers use {pending, offered, begins, executes, commits, touches, upserts}

  insert_all_step :
      (rounds : ℕ) (ids : IdMap) (r : FlowRecord) (rs : List FlowRecord) (t : Tx)
      → (insert_all server (suc rounds) ids (r ∷ rs) t).0 ≡ true
      → ((exec (insert_statement (take insert_limit (r ∷ rs)) ids) t).0 ≡ true)
        × (insert_all server (suc rounds) ids (r ∷ rs) t
            ≡ insert_all server rounds ids
                (drop insert_limit (r ∷ rs))
                (exec (insert_statement (take insert_limit (r ∷ rs)) ids) t).1)
  unfolding insert_all
  insert_all_step rounds ids r rs t k =
      elim (Bool-cases (exec (insert_statement (take insert_limit (r ∷ rs)) ids) t).0) [
        | inl done ↦ (done, rw done refl)
        | inr failed ↦ absurd (ground (arith, failed, k))
      ]

  insert_all_offers :
      (rounds : ℕ) (ids : IdMap) (rs : List FlowRecord) (t : Tx)
      → length rs ≤ rounds
      → (insert_all server rounds ids rs t).0 ≡ true
      → pending (insert_all server rounds ids rs t).1 ≡ pending t ++ map (row_of ids) rs
  insert_all_offers zero ids [] t h k = unfold insert_all in sym (append-nil (pending t))
  insert_all_offers (suc rounds) ids [] t h k = unfold insert_all in sym (append-nil (pending t))
  insert_all_offers zero ids (r ∷ rs) t h k = absurd (omega (arith, h))
  insert_all_offers (suc rounds) ids (r ∷ rs) t h k =
      let (done, step) = insert_all_step rounds ids r rs t k in
      let chunk = take insert_limit (r ∷ rs) in
      let later = drop insert_limit (r ∷ rs) in
      let after = (exec (insert_statement chunk ids) t).1 in
      let sent : pending after ≡ pending t ++ map (row_of ids) chunk =
        executes (insert_statement chunk ids) t (insert_statement-IsWellFormed r rs ids) done
        ∙ (unfold insert_statement in ap (pending t ++◌) (rows_of-args_of ids chunk)) in
      ap (λ x. pending x.1) step
      ∙ insert_all_offers rounds ids later after
          (omega (arith, h, length-drop insert_limit (r ∷ rs))) (ap (λ x. x.0) (sym step) ∙ k)
      ∙ ap (◌++ map (row_of ids) later) sent
      ∙ append_assoc (pending t) (map (row_of ids) chunk) (map (row_of ids) later)
      ∙ ap (pending t ++◌) (
          sym (map-append (row_of ids) chunk later)
          ∙ ap (map (row_of ids)) (take-append-drop insert_limit (r ∷ rs)))

  finish_tx_offers :
      (x : Bool × Tx) (b : Backend (registry server))
      → (finish_tx server x b).0 ≡ true
      → (x.0 ≡ true) × (offered (finish_tx server x b).1.state ≡ offered b.state ++ pending x.1)
  unfolding finish_tx
  finish_tx_offers (false, t) b h = absurd (ground (arith, h))
  finish_tx_offers (true, t) b h = (refl, commits t b.state h)

  in_tx_offers :
      (ids : IdMap) (rs : List FlowRecord) (o : Option Tx) (b : Backend (registry server))
      → begin_tx b.state ≡ o
      → (in_tx server ids rs o b).0 ≡ true
      → offered (in_tx server ids rs o b).1.state ≡ offered b.state ++ map (row_of ids) rs
  unfolding in_tx
  in_tx_offers ids rs none b e h = absurd (ground (arith, h))
  in_tx_offers ids rs (some t) b e h =
      let (done, sent) = finish_tx_offers (insert_all server (length rs) ids rs t) b h in
      sent
      ∙ ap (offered b.state ++◌) (
          insert_all_offers (length rs) ids rs t (omega arith) done
          ∙ ap (◌++ map (row_of ids) rs) (begins b.state t e))

  -- Resolving the exporters offers nothing to the table of records.
  resolve_one_offers :
      (a : Addr) (last : Time) (o : Option ℕ) (b : Backend (registry server))
      → offered (resolve_by (registry server) o a last b).1.state ≡ offered b.state
  unfolding resolve_by known
  resolve_one_offers a last (some id) b = touches id last b.state
  resolve_one_offers a last none b = made (server.upsert a last b.state) ∙ upserts a last b.state
    where
      made :
          (x : Option ℕ × State) → offered (created (registry server) a x b).1.state ≡ offered x.1
      made (none, s) = unfold created in refl
      made (some id, s) = unfold created in refl

  next_round_offers :
      (x : Option ℕ × Backend (registry server))
      (more : ℕ → Backend (registry server) → Option IdMap × Backend (registry server))
      → ((id : ℕ) (c : Backend (registry server)) → offered (more id c).1.state ≡ offered c.state)
      → offered (next_round (registry server) x more).1.state ≡ offered x.1.state
  unfolding next_round
  next_round_offers (none, b) more h = refl
  next_round_offers (some id, b) more h = h id b

  resolve_all_offers :
      (seen : List (Addr × Time)) (ids : IdMap) (b : Backend (registry server))
      → offered (resolve_all (registry server) seen ids b).1.state ≡ offered b.state
  unfolding resolve_all resolve_one
  resolve_all_offers [] ids b = refl
  resolve_all_offers ((a, last) ∷ seen) ids b =
      next_round_offers (resolve_by (registry server) (find a b.cache) a last b) _
        (λ id c. resolve_all_offers seen (set a id ids) c)
      ∙ resolve_one_offers a last (find a b.cache) b

  after_ids_offers :
      (rs : List FlowRecord) (x : Option IdMap × Backend (registry server))
      → (after_ids server rs x).0 ≡ true
      → (ids : IdMap) × (x.0 ≡ some ids)
        × (offered (after_ids server rs x).1.state ≡ offered x.1.state ++ map (row_of ids) rs)
  unfolding after_ids
  after_ids_offers rs (none, b) h = absurd (ground (arith, h))
  after_ids_offers rs (some ids, b) h = (ids, refl, in_tx_offers ids rs (begin_tx b.state) b refl h)

  -- Under a server that adds the rows of a statement if it has as many arguments as placeholders, and
  -- at most 65535: if `WriteBatch` returns nil for a batch, its exporters were resolved, and the table
  -- was offered every record of the batch with the id of its exporter, once, in order and whole, and
  -- nothing else.
  pub write_rows_offers :
      (order : List (Addr × Time) → List (Addr × Time)) (r : FlowRecord) (rs : List FlowRecord)
      (b : Backend (registry server))
      → (write_rows server order (r ∷ rs) b).0 ≡ true
      → (ids : IdMap) × ((resolve_ids server order (r ∷ rs) b).0 ≡ some ids)
        × (offered (write_rows server order (r ∷ rs) b).1.state
            ≡ offered b.state ++ map (λ x. values_of ids x []) (r ∷ rs))
  unfolding write_rows resolve_ids resolve_exporters
  write_rows_offers order r rs b h =
      let seen = order (see_all (r ∷ rs) []) in
      let (ids, resolved, sent) =
        after_ids_offers (r ∷ rs) (resolve_all (registry server) seen [] b) h in
      (ids, resolved, sent ∙ ap (◌++ map (row_of ids) (r ∷ rs)) (resolve_all_offers seen [] b))
