-- ===== src/Pipeline/System/Move.antt =====
-- pipeline.go: what a step can do, with the tests of the code as premises.
use netflow_collector.Base.{
  ℕ, ◌+◌, ◌<◌, ◌≡◌, ◌≢◌, refl, inl, inr, Bool, true, Option, none, some, List, [], ◌∷◌, ◌++◌,
  length, map, Bool-cases, ltb, arith,
}
use mathlib.Core.Option.{some-injective}
use mathlib.Core.Path.{subst}
use netflow_collector.Pipeline.Watermark.{u64, polls, closes, completes}
use netflow_collector.Pipeline.Buffer.{Counters, offer, intake_turn}
use netflow_collector.Pipeline.Batcher.{Batch, take_record, receive, flush, flush_pending, write}
use netflow_collector.Pipeline.System.{
  System, Phase, Action, offers, pulls, takes, flushes, ticks, cancels, drains, finishes, awaits,
  stops, SinkResult, is_ok, store, batch_at, remove_at, step, hand_over, take_head, finish,
  record_change, after_offer, after_pull,
}

module _ {R : Type 0} where
  -- A record enters the buffer.
  abbrev pub entered : System R → R → Counters → System R
  entered s r c = record s {
    pipe = record (s.pipe) {
      buf = s.pipe.buf ++ r ∷ [];
      next = u64 (s.pipe.next + 1);
      counters = c;
    };
    taken_in = s.taken_in ++ r ∷ [];
  }

  -- The batch of the pending records, with their positions.
  abbrev pub pending_batch : System R → Batch R
  pending_batch s = record {
    records = s.batcher.pending;
    range = record { first = s.batcher.first; last = s.batcher.taken };
  }

  -- The batcher hands its pending records to a worker.
  abbrev pub handed : System R → Phase → System R
  handed s p = record s {
    phase = p;
    batcher = record (s.batcher) { first = u64 (s.batcher.taken + 1); pending = [] };
    inflight = s.inflight ++ pending_batch s ∷ [];
    handed_off = s.handed_off ++ pending_batch s ∷ [];
  }

  -- A worker is done with a batch.
  abbrev pub finished : System R → ℕ → Batch R → List (SinkResult R) → System R
  finished s i b results =
      record_change
        (record s { inflight = remove_at i s.inflight; stored = store results b.records s.stored })
        (completes b.range (write (map is_ok results)).all_succeeded)

  pub data Move (s t : System R) : Type 0 where
    enter :
        (r : R) (c : Counters)
        → length s.pipe.buf < s.pipe.buffer_size
        → t ≡ entered s r c
        → Move s t
    count : (c : Counters) → t ≡ record s { pipe = record (s.pipe) { counters = c } } → Move s t
    take :
        (r : R) (rest : List R)
        → s.pipe.buf ≡ r ∷ rest
        → length s.batcher.pending < s.pipe.batch_size
        → t ≡ record s { batcher = take_record s.batcher r; pipe = receive s.pipe rest }
        → Move s t
    hand :
        (p : Phase)
        → s.batcher.pending ≢ []
        → length s.inflight < s.pipe.workers
        → t ≡ handed s p
        → Move s t
    turn :
        (p : Phase) (closing : Bool)
        → t ≡ record s { phase = p; pipe = record (s.pipe) { closing = closing } }
        → Move s t
    done :
        (i : ℕ) (b : Batch R) (results : List (SinkResult R))
        → batch_at i s.inflight ≡ some b
        → length results ≡ s.pipe.sinks
        → t ≡ finished s i b results
        → Move s t
    tell : (p : Phase) (seq : ℕ) → t ≡ record_change s (polls seq) → Move s t
    close : (p : Phase) → t ≡ record_change (record s { phase = p }) closes → Move s t

  offer-Move : (s : System R) (r : R) → Move s (after_offer s r (offer s.pipe r))
  unfolding offer after_offer
  offer-Move s r = elim (Bool-cases s.pipe.closing) [
    | inl shut ↦ count (offer s.pipe r).0.counters (ground (arith, shut))
    | inr open_ ↦ elim (Bool-cases (ltb (length s.pipe.buf) s.pipe.buffer_size)) [
      | inl room ↦ enter r (offer s.pipe r).0.counters (ground arith) (ground arith)
      | inr full ↦ count (offer s.pipe r).0.counters (ground arith)
    ]
  ]

  pull-Move : (s : System R) (r : R) → Move s (after_pull s r (intake_turn s.pipe r))
  unfolding intake_turn after_pull
  pull-Move s r = elim (Bool-cases s.pipe.closing) [
    | inl shut ↦ count (intake_turn s.pipe r).0.counters (ground (arith, shut))
    | inr open_ ↦ elim (Bool-cases (ltb (length s.pipe.buf) s.pipe.buffer_size)) [
      | inl room ↦ enter r (intake_turn s.pipe r).0.counters (ground arith) (ground arith)
      | inr full ↦ count (intake_turn s.pipe r).0.counters (ground arith)
    ]
  ]

  take-Move :
      (s t : System R) (xs : List R)
      → s.pipe.buf ≡ xs
      → length s.batcher.pending < s.pipe.batch_size
      → take_head s xs ≡ some t
      → Move s t
  unfolding take_head
  take-Move s t [] e room h = absurd (ground arith)
  take-Move s t (r ∷ rest) e room h = take r rest e room (ground arith)

  hand_over-Move :
      (s t : System R) (p : Phase) (xs : List R)
      → s.batcher.pending ≡ xs
      → hand_over s p (flush_pending s.batcher xs) ≡ some t
      → Move s t
  unfolding hand_over flush_pending
  hand_over-Move s t p [] e h = turn p s.pipe.closing (ground arith)
  hand_over-Move s t p (r ∷ rest) e h = hand p (λ n. cc) (ground arith) (ground arith)

  finish-Move :
      (s t : System R) (i : ℕ) (results : List (SinkResult R)) (o : Option (Batch R))
      → batch_at i s.inflight ≡ o
      → finish s i results o ≡ some t
      → Move s t
  unfolding finish
  finish-Move s t i results none e h = absurd (ground arith)
  finish-Move s t i results (some b) e h = done i b results e (ground arith) (ground arith)

  -- Every step is one of these moves.
  pub step-Move : (s : System R) (a : Action R) {t : System R} → step s a ≡ some t → Move s t
  unfolding step flush
  step-Move s (offers r) {t} h = subst (Move s) (some-injective _ _ h) (offer-Move s r)
  step-Move s (pulls r) {t} h = subst (Move s) (some-injective _ _ h) (pull-Move s r)
  step-Move s takes {t} h = take-Move s t s.pipe.buf refl (ground arith) (ground arith)
  step-Move s flushes {t} h = hand_over-Move s t s.phase s.batcher.pending refl (ground arith)
  step-Move s ticks {t} h = hand_over-Move s t s.phase s.batcher.pending refl (ground arith)
  step-Move s cancels {t} h = turn Phase.draining true (ground arith)
  step-Move s drains {t} h =
      hand_over-Move s t Phase.finishing s.batcher.pending refl (ground arith)
  step-Move s (finishes i results) {t} h = finish-Move s t i results (batch_at i s.inflight) refl h
  step-Move s (awaits seq) {t} h = tell s.phase seq (ground arith)
  step-Move s stops {t} h = close Phase.stopped (ground arith)
