-- ===== src/Pipeline/Watermark.antt =====
-- internal/pipeline/watermark.go: how far the pipeline's write order has been made durable. A
-- method is a function to the new state; the mutex makes each one atomic. The channels that `changed` has
-- held are numbered: all below `changed` are closed.
pub mod Coverage
pub mod Prefix
pub mod Failures
pub mod Await
pub mod Wake
use netflow_collector.Base.{
  ℕ, zero, suc, ◌+◌, ◌%◌, ◌^◌, Bool, true, false, Option, none, some, List, [], ◌∷◌, ◌++◌, length,
  leb, ltb, if◌then◌else◌,
}
use netflow_collector.Base.Assoc.{lookup, delete, put}

-- uint64 arithmetic wraps.
abbrev pub u64 : ℕ → ℕ
u64 n = n % 2 ^ 64

pub record Span : Type 0 where
  pub first : ℕ
  pub last : ℕ

pub record Watermark : Type 0 where
  pub written : ℕ
  pub done : List (ℕ × ℕ)
  pub failed : List Span
  pub closed : Bool
  pub changed : ℕ

abbrev pub empty : Watermark
empty = record { written = 0; done = []; failed = []; closed = false; changed = 0 }

-- Close the channel, and make another.
abbrev pub wake : Watermark → Watermark
wake w = record w { changed = w.changed + 1 }

-- The loop of `complete`. Each round deletes an entry of `done`, so its size is fuel enough.
unfoldable pub advance : ℕ → ℕ → List (ℕ × ℕ) → ℕ × List (ℕ × ℕ)
advance zero written done = (written, done)
advance (suc fuel) written done = elim (lookup (u64 (written + 1)) done) [
  | none ↦ (written, done)
  | some last ↦ advance fuel last (delete (u64 (written + 1)) done)
]

unfoldable pub complete : Watermark → Span → Bool → Watermark
complete w s ok =
    let failed' = if ok then w.failed else w.failed ++ s ∷ [] in
    let done' = put s.first s.last w.done in
    let (written', rest) = advance (length done') w.written done' in
    wake (record w { written = written'; done = rest; failed = failed' })

unfoldable pub close : Watermark → Watermark
close w = wake (record w { closed = true })

-- What one turn of the loop of `await` finds; `waiting` goes on to the select.
pub data Poll : Type 0 where
  write_failed durable canceled waiting : Poll

-- `len(w.failed) > 0 && w.failed[0].first <= seq`
unfoldable pub leads_failed : ℕ → List Span → Bool
leads_failed seq [] = false
leads_failed seq (s ∷ rest) = leb s.first seq

-- The loop over `w.failed` that fills `kept`.
unfoldable pub keep_above : ℕ → List Span → List Span
keep_above seq [] = []
keep_above seq (s ∷ rest) =
    let kept = keep_above seq rest in if ltb seq s.first then s ∷ kept else kept

unfoldable pub poll : Watermark → ℕ → Watermark × Poll
unfolding leads_failed keep_above
poll w seq =
    if leads_failed seq w.failed
    then (record w { failed = keep_above seq w.failed }, write_failed)
    else if leb seq w.written
    then (w, durable)
    else if w.closed
    then (w, canceled)
    else (w, waiting)

-- What other goroutines do to the watermark: workers complete, `Run` closes, others wait.
pub data Change : Type 0 where
  completes : Span → Bool → Change
  closes : Change
  polls : ℕ → Change

unfoldable pub change : Watermark → Change → Watermark
unfolding complete close poll
change w (completes s ok) = complete w s ok
change w closes = close w
change w (polls seq) = (poll w seq).0

unfoldable pub run : Watermark → List Change → Watermark
unfolding change
run w [] = w
run w (c ∷ cs) = run (change w c) cs

-- Where a call of `await` stands: about to lock, in its select on a channel, or returned.
pub data Waiter : Type 0 where
  looking : Waiter
  selecting : ℕ → Waiter
  returned : Poll → Waiter
  context_ended : Waiter

-- From the lock to the unlock; `changed` is read before the unlock.
unfoldable pub look : Watermark → Watermark × Poll → Watermark × Waiter
look w (v, waiting) = (v, selecting w.changed)
look w (v, write_failed) = (v, returned write_failed)
look w (v, durable) = (v, returned durable)
look w (v, canceled) = (v, returned canceled)

-- One turn of the waiter: the select goes on only if its channel is closed.
unfoldable pub turn : ℕ → Watermark × Waiter → Watermark × Waiter
unfolding poll look
turn seq (w, looking) = look w (poll w seq)
turn seq (w, selecting c) = if ltb c w.changed then (w, looking) else (w, selecting c)
turn seq (w, returned p) = (w, returned p)
turn seq (w, context_ended) = (w, context_ended)

-- The select's other case.
abbrev pub cancel : Waiter → Waiter
cancel (selecting c) = context_ended
cancel x = x

-- The scheduler lets another goroutine change the watermark, lets the waiter take a turn, or ends the
-- waiter's context.
pub data Event : Type 0 where
  others : Change → Event
  turns : Event
  ends : Event

unfoldable pub await : ℕ → Watermark × Waiter → List Event → Watermark × Waiter
unfolding turn change
await seq (w, x) [] = (w, x)
await seq (w, x) (others c ∷ es) = await seq (change w c, x) es
await seq (w, x) (turns ∷ es) = await seq (turn seq (w, x)) es
await seq (w, x) (ends ∷ es) = await seq (w, cancel x) es
