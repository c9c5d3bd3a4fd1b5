-- ===== src/Pipeline/System/Bounds.antt =====
-- pipeline.go: the memory that `Run` holds is bounded, whatever the schedule.
use netflow_collector.Base.{
  ℕ, zero, suc, ◌≤◌, ◌≡◌, refl, some, List, [], ◌∷◌, length, length-append, Option-cases, arith,
  inl, inr,
}
use netflow_collector.Base.Int.{magnitude}
use mathlib.Core.Option.{some-injective}
use mathlib.Core.Path.{subst}
use netflow_collector.Pipeline.Buffer.{Pipeline, Options, ok, new}
use netflow_collector.Pipeline.Batcher.{Batch, take_record, receive}
use netflow_collector.Pipeline.System.{System, Action, remove_at, step, steps, start}
use netflow_collector.Pipeline.System.Move.{
  Move, enter, count, take, hand, turn, done, tell, close, step-Move,
}

module _ {R : Type 0} where
  pub record IsBounded (s : System R) : Type 0 where
    pub buffered : length s.pipe.buf ≤ s.pipe.buffer_size
    pub pending : length s.batcher.pending ≤ s.pipe.batch_size
    pub inflight : length s.inflight ≤ s.pipe.workers

  remove-le : (i : ℕ) (bs : List (Batch R)) → length (remove_at i bs) ≤ length bs
  unfolding remove_at
  remove-le i [] = omega arith
  remove-le zero (b ∷ bs) = omega arith
  remove-le (suc i) (b ∷ bs) = omega (arith, remove-le i bs)

  Move-IsBounded : {s t : System R} → IsBounded s → Move s t → IsBounded t
  unfolding take_record receive
  Move-IsBounded {s} v (enter r c room e) = rw e (record {
    buffered = omega (arith, length-append s.pipe.buf (r ∷ []));
    pending = v.pending;
    inflight = v.inflight;
  })
  Move-IsBounded v (count c e) =
      rw e (record { buffered = v.buffered; pending = v.pending; inflight = v.inflight })
  Move-IsBounded {s} v (take r rest e room f) = rw f (record {
    buffered = ground (arith, e, v.buffered);
    pending = omega (arith, length-append s.batcher.pending (r ∷ []));
    inflight = v.inflight;
  })
  Move-IsBounded {s} v (hand p some_pending free e) = rw e (record {
    buffered = v.buffered;
    pending = omega arith;
    inflight = omega (arith, length-append {0} s.inflight);
  })
  Move-IsBounded v (turn p c e) =
      rw e (record { buffered = v.buffered; pending = v.pending; inflight = v.inflight })
  Move-IsBounded {s} v (done i b results at fits e) = rw e (record {
    buffered = v.buffered;
    pending = v.pending;
    inflight = omega (arith, remove-le i s.inflight);
  })
  Move-IsBounded v (tell p seq e) =
      rw e (record { buffered = v.buffered; pending = v.pending; inflight = v.inflight })
  Move-IsBounded v (close p e) =
      rw e (record { buffered = v.buffered; pending = v.pending; inflight = v.inflight })

  -- An invariant of the moves holds along a run.
  pub steps-induction :
      (P : System R → Type 0)
      → ((s t : System R) → P s → Move s t → P t)
      → (s : System R) (acts : List (Action R)) {t : System R} → P s
      → steps s acts ≡ some t
      → P t
  unfolding steps
  steps-induction P keep s [] {t} p h = subst P (some-injective _ _ h) p
  steps-induction P keep s (a ∷ acts) {t} p h = elim (Option-cases (step s a)) [
    | inl stuck ↦ absurd (ground (arith, stuck))
    | inr (u, e) ↦ steps-induction P keep u acts (keep s u p (step-Move s a e)) (ground (arith, e))
  ]

  -- `Run` changes none of the sizes.
  pub record HasSizes (p : Pipeline R) (s : System R) : Type 0 where
    pub buffer_size : s.pipe.buffer_size ≡ p.buffer_size
    pub batch_size : s.pipe.batch_size ≡ p.batch_size
    pub workers : s.pipe.workers ≡ p.workers
    pub sinks : s.pipe.sinks ≡ p.sinks

  pub Move-HasSizes : (p : Pipeline R) {s t : System R} → HasSizes p s → Move s t → HasSizes p t
  unfolding receive
  Move-HasSizes p v (enter r c room e) = ground (arith, e, v)
  Move-HasSizes p v (count c e) = ground (arith, e, v)
  Move-HasSizes p v (take r rest e room f) = ground (arith, f, v)
  Move-HasSizes p v (hand q some_pending free e) = ground (arith, e, v)
  Move-HasSizes p v (turn q c e) = ground (arith, e, v)
  Move-HasSizes p v (done i b results at fits e) = ground (arith, e, v)
  Move-HasSizes p v (tell q seq e) = ground (arith, e, v)
  Move-HasSizes p v (close q e) = ground (arith, e, v)

  pub steps-HasSizes :
      (p : Pipeline R) (acts : List (Action R)) {s : System R}
      → steps (start p) acts ≡ some s
      → HasSizes p s
  unfolding start
  steps-HasSizes p acts {s} h =
      steps-induction (HasSizes p) (λ s t v m. Move-HasSizes p v m) (start p) acts
        (record { buffer_size = refl; batch_size = refl; workers = refl; sinks = refl }) h

  steps-IsBounded :
      (opts : Options) (sinks : ℕ) (acts : List (Action R)) {p : Pipeline R} {s : System R}
      → new opts sinks ≡ ok p
      → steps (start p) acts ≡ some s
      → IsBounded s
  unfolding new start
  steps-IsBounded opts sinks acts {p} {s} made h =
      steps-induction IsBounded (λ s t v m. Move-IsBounded v m) (start p) acts
        (record { buffered = ground (arith, made); pending = omega arith; inflight = omega arith })
        h

  -- From the start of a pipeline that `New` accepted, under every interleaving of its goroutines,
  -- the buffer holds at most BufferSize records, the pending batch at most BatchSize, and at most
  -- Workers batches are in flight.
  pub memory_bounded :
      (opts : Options) (sinks : ℕ) (acts : List (Action R)) {p : Pipeline R} {s : System R}
      → new opts sinks ≡ ok p
      → steps (start p) acts ≡ some s
      → (length s.pipe.buf ≤ magnitude opts.buffer_size)
        × (length s.batcher.pending ≤ magnitude opts.batch_size)
        × (length s.inflight ≤ magnitude opts.workers)
  unfolding new
  memory_bounded opts sinks acts {p} {s} made h =
      ground (arith, made, steps-IsBounded opts sinks acts made h, steps-HasSizes p acts h)
