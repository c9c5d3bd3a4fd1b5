-- ===== src/Pipeline/System/Durable.antt =====
-- pipeline.go and watermark.go together: what has been written when the watermark says so.
use netflow_collector.Base.{
  ℕ, zero, suc, ◌+◌, ◌≤◌, ◌<◌, ◌≡◌, ◌≢◌, refl, sym, ap, ◌∙◌, subst, inr, Bool, some, List, [], ◌∷◌,
  ◌++◌, length, map, All, All-map, All-zip, All-append, length-append, arith,
}
use netflow_collector.Pipeline.Watermark.{
  u64, Span, empty, Change, completes, closes, polls, change, run,
}
use netflow_collector.Pipeline.Watermark.Coverage.{completed, seq_limit, IsRange, Apart, AreApart}
use netflow_collector.Pipeline.Buffer.{Pipeline, Options, ok, new}
use netflow_collector.Pipeline.Batcher.{Batch, take_record, receive, write}
use netflow_collector.Pipeline.System.{
  System, Phase, SinkResult, Action, is_ok, store, batch_at, remove_at, steps, start, empty_logs,
}
use netflow_collector.Pipeline.System.Move.{
  Move, enter, count, take, hand, turn, done, tell, close, handed, finished,
}
use netflow_collector.Pipeline.System.Bounds.{steps-induction}
use netflow_collector.Pipeline.System.Order.{IsOrdered, sent}
use netflow_collector.Pipeline.System.Storage.{write_iff, Holds-store_new, length-store}
use netflow_collector.Pipeline.System.Order.{few_before, Move-IsOrdered, start-IsOrdered}
use netflow_collector.Pipeline.System.Links.{
  run-append, completed-append, IsSlice, IsSlice-grow, Kept, Kept-grow, Kept-store, tag, Link, link,
  IsLinked, All-batch_at, All-remove_at, remove_at-Apart, AllApart-append,
}

length-empty_logs : (R : Type 0) (n : ℕ) → length (empty_logs {R = R} n) ≡ n
unfolding empty_logs
length-empty_logs R zero = refl
length-empty_logs R (suc n) = omega (arith, length-empty_logs R n)

module _ {R : Type 0} where
  enter-IsLinked :
      (l : Link R) (r : R) → IsLinked l → IsLinked (record l { taken_in = l.taken_in ++ r ∷ [] })
  enter-IsLinked s r v = record {
    replayed = v.replayed;
    slices = All-map (IsSlice-grow s.taken_in r) s.inflight v.slices;
    below = v.below;
    ended_below = v.ended_below;
    flying_apart = v.flying_apart;
    ended_apart = v.ended_apart;
    crossing = v.crossing;
    kept = All-map (Kept-grow s.taken_in r s.stored) _ v.kept;
    logs = v.logs;
  }

  length-pos : (xs : List R) → xs ≢ [] → 0 < length xs
  length-pos [] h = absurd (h refl)
  length-pos (x ∷ xs) h = omega arith

  hand-IsLinked :
      (s : System R) (p : Phase)
      → length s.taken_in < seq_limit
      → IsOrdered s
      → s.batcher.pending ≢ []
      → IsLinked (link s)
      → IsLinked (link (handed s p))
  hand-IsLinked s p few o some_pending v = record {
    replayed = v.replayed;
    slices = All-append (IsSlice s.taken_in) s.inflight _ v.slices (
      record {
        before = sent s;
        after = s.pipe.buf;
        cut = o.split;
        first = o.first;
        last = o.taken;
        some_record = length-pos s.batcher.pending some_pending;
      },
      tt,
    );
    below =
        All-append (λ b. b.range.last < u64 (s.batcher.taken + 1)) s.inflight _
          (All-map (λ b h. omega (arith, next)) s.inflight v.below) (omega (arith, next), tt);
    ended_below = All-map (λ c h. omega (arith, next)) (completed [] s.history) v.ended_below;
    flying_apart = AllApart-append s.inflight _ v.flying_apart v.below;
    ended_apart = v.ended_apart;
    crossing =
        All-append (λ b. All (Apart (tag b)) (completed [] s.history)) s.inflight _ v.crossing
          (All-map (λ c h. inr h) (completed [] s.history) v.ended_below, tt);
    kept = v.kept;
    logs = v.logs;
  }
    where
      next :
          (u64 (s.batcher.taken + 1) ≡ s.batcher.taken + 1)
          × (s.batcher.first ≤ s.batcher.taken + 1)
      next = omega (
        arith,
        o.taken,
        o.first,
        ap length o.split,
        length-append (sent s) (s.batcher.pending ++ s.pipe.buf),
        length-append s.batcher.pending s.pipe.buf,
      )

  finish-IsLinked :
      (s : System R) (i : ℕ) (b : Batch R) (results : List (SinkResult R))
      → length s.taken_in < seq_limit
      → IsOrdered s
      → batch_at i s.inflight ≡ some b
      → length results ≡ s.pipe.sinks
      → IsLinked (link s)
      → IsLinked (link (finished s i b results))
  finish-IsLinked s i b results few o at fits v = record {
    replayed = ap (λ w. change w new) v.replayed ∙ sym (run-append empty s.history new);
    slices = All-remove_at (IsSlice s.taken_in) i s.inflight v.slices;
    below = All-remove_at _ i s.inflight v.below;
    ended_below =
        grown (All λ c. c.0.last < s.batcher.first)
          (All-batch_at _ i s.inflight at v.below, v.ended_below);
    flying_apart = (remove_at-Apart i s.inflight at v.flying_apart).0;
    ended_apart = grown AreApart (ranged, All-batch_at _ i s.inflight at v.crossing, v.ended_apart);
    crossing =
        grown (λ cs. All (λ d. All (Apart (tag d)) cs) (remove_at i s.inflight))
          (All-zip (λ d h k. (h, k)) _ (remove_at-Apart i s.inflight at v.flying_apart).1
            (All-remove_at _ i s.inflight v.crossing));
    kept =
        grown (All (Kept s.taken_in (store results b.records s.stored)))
          (new_kept, All-map (Kept-store s.taken_in results b.records s.stored) _ v.kept);
    logs = length-store results b.records s.stored ∙ v.logs;
  }
    where
      good : Bool
      good = (write (map is_ok results)).all_succeeded

      new : Change
      new = completes b.range good

      grown :
          (P : List (Span × Bool) → Type 0)
          → P ((b.range, good) ∷ completed [] s.history)
          → P (completed [] (s.history ++ new ∷ []))
      grown P h = subst P (sym (completed-append [] s.history new)) h

      slice : IsSlice s.taken_in b
      slice = All-batch_at (IsSlice s.taken_in) i s.inflight at v.slices

      ranged : IsRange (b.range, good)
      ranged = omega (
        arith,
        slice.first,
        slice.last,
        slice.some_record,
        All-batch_at (λ d. d.range.last < s.batcher.first) i s.inflight at v.below,
        o.first,
        ap length o.split,
        length-append (sent s) (s.batcher.pending ++ s.pipe.buf),
      )

      new_kept : Kept s.taken_in (store results b.records s.stored) (b.range, good)
      new_kept = record {
        records = λ w. b.records;
        slice = λ w. slice;
        holds = λ w.
            Holds-store_new results b.records s.stored (fits ∙ sym v.logs) ((write_iff _).0 w).1;
      }

  tell-IsLinked :
      (l : Link R) (c : Change)
      → completed (completed [] l.history) (c ∷ []) ≡ completed [] l.history
      → IsLinked l
      → IsLinked (record l { wm = change l.wm c; history = l.history ++ c ∷ [] })
  tell-IsLinked l c same v = record {
    replayed = ap (λ w. change w c) v.replayed ∙ sym (run-append empty l.history c);
    slices = v.slices;
    below = v.below;
    ended_below = grown (All λ c. c.0.last < l.first) v.ended_below;
    flying_apart = v.flying_apart;
    ended_apart = grown AreApart v.ended_apart;
    crossing = grown (λ cs. All (λ d. All (Apart (tag d)) cs) l.inflight) v.crossing;
    kept = grown (All (Kept l.taken_in l.stored)) v.kept;
    logs = v.logs;
  }
    where
      grown :
          (P : List (Span × Bool) → Type 0)
          → P (completed [] l.history)
          → P (completed [] (l.history ++ c ∷ []))
      grown P h = subst P (sym (completed-append [] l.history c ∙ same)) h

  pub Move-IsLinked :
      {s t : System R}
      → length s.taken_in < seq_limit
      → IsOrdered s
      → IsLinked (link s)
      → Move s t
      → IsLinked (link t)
  unfolding take_record receive
  Move-IsLinked {s} few o v (enter r c room e) =
      subst IsLinked (sym (ap link e)) (enter-IsLinked (link s) r v)
  Move-IsLinked few o v (count c e) = subst IsLinked (sym (ap link e)) v
  Move-IsLinked few o v (take r rest e room f) = subst IsLinked (sym (ap link f)) v
  Move-IsLinked {s} few o v (hand p some_pending free e) =
      subst IsLinked (sym (ap link e)) (hand-IsLinked s p few o some_pending v)
  Move-IsLinked few o v (turn p c e) = subst IsLinked (sym (ap link e)) v
  Move-IsLinked {s} few o v (done i b results at fits e) =
      subst IsLinked (sym (ap link e)) (finish-IsLinked s i b results few o at fits v)
  Move-IsLinked {s} few o v (tell p seq e) =
      subst IsLinked (sym (ap link e)) (tell-IsLinked (link s) (polls seq) refl v)
  Move-IsLinked {s} few o v (close p e) =
      subst IsLinked (sym (ap link e)) (tell-IsLinked (link s) closes refl v)

  pub start-IsLinked : (p : Pipeline R) → p.wm ≡ empty → IsLinked (link (start p))
  unfolding start run
  start-IsLinked p e = record {
    replayed = e;
    slices = tt;
    below = tt;
    ended_below = tt;
    flying_apart = tt;
    ended_apart = tt;
    crossing = tt;
    kept = tt;
    logs = length-empty_logs R p.sinks;
  }

  Both : System R → Type 0
  Both u = length u.taken_in < seq_limit → IsOrdered u × IsLinked (link u)

  pub steps-IsLinked :
      (opts : Options) (sinks : ℕ) (acts : List (Action R)) {p : Pipeline R} {s : System R}
      → new opts sinks ≡ ok p
      → steps (start p) acts ≡ some s
      → length s.taken_in < seq_limit
      → IsLinked (link s)
  unfolding Both new
  steps-IsLinked opts sinks acts {p} {s} made h few =
      (steps-induction Both
        (λ u t v m less.
          let (o, l) = v (few_before m less) in
          (Move-IsOrdered less o m, Move-IsLinked (few_before m less) o l m))
        (start p) acts
        (λ less. (
          start-IsOrdered p (ground (arith, made)) (ground (arith, made)),
          start-IsLinked p (ground (arith, made)),
        ))
        h few).1
