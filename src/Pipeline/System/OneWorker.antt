-- ===== src/Pipeline/System/OneWorker.antt =====
-- pipeline.go with NFC_WORKERS=1: batches complete in the order in which they were handed over.
use netflow_collector.Base.{
  ℕ, zero, suc, ◌+◌, ◌-◌, ◌≤◌, ◌<◌, ◌≡◌, refl, sym, subst, ◌⊎◌, inl, inr, Bool, true, some, List,
  [], ◌∷◌, ◌++◌, map, length, All, In, All-append, All-zip, ◌∙◌, Any-All, get_elem?, length-append,
  arith,
}
use netflow_collector.Base.Int.{pos}
use netflow_collector.Pipeline.Watermark.{
  Span, Change, completes, closes, polls, empty, poll, durable,
}
use netflow_collector.Pipeline.Watermark.Coverage.{completed, seq_limit, AreApart-ranges}
use netflow_collector.Pipeline.Watermark.Failures.{reported}
use netflow_collector.Pipeline.Watermark.Await.{InOrder, await_durable-InOrder}
use netflow_collector.Pipeline.Buffer.{Pipeline, Options, ok, new}
use netflow_collector.Pipeline.Batcher.{Batch, write, take_record, receive}
use netflow_collector.Pipeline.System.{System, Action, steps, start, batch_at, remove_at, is_ok}
use netflow_collector.Pipeline.System.Move.{Move, enter, count, take, hand, turn, done, tell, close}
use netflow_collector.Pipeline.System.Bounds.{steps-induction}
use netflow_collector.Pipeline.System.Links.{completed-append, link, IsLinked, All-batch_at, Kept}
use netflow_collector.Pipeline.System.Durable.{Move-IsLinked, start-IsLinked}
use netflow_collector.Pipeline.System.Order.{IsOrdered, few_before, Move-IsOrdered, start-IsOrdered}
use netflow_collector.Pipeline.System.AtLeastOnce.{InRanges, InRanges-of_In, In-IsSlice, Holds-In}

All-past :
    (P : Span × Bool → Type 0) (past : List (Span × Bool)) (cs : List Change)
    → All P (completed past cs)
    → All P past
All-past P past [] h = h
All-past P past (completes s b ∷ cs) h = (All-past P ((s, b) ∷ past) cs h).1
All-past P past (closes ∷ cs) h = All-past P past cs h
All-past P past (polls seq ∷ cs) h = All-past P past cs h

InOrder-append :
    (n : ℕ) (past : List (Span × Bool)) (cs : List Change) (s : Span) (b : Bool)
    → n ≤ s.first
    → InOrder n cs
    → All (λ c. c.0.first < s.first) (completed past cs)
    → InOrder n (cs ++ completes s b ∷ [])
InOrder-append n past [] s b p o h = (p, tt)
InOrder-append n past (completes t d ∷ cs) s b p o h = (
  o.0,
  InOrder-append (t.first + 1) ((t, d) ∷ past) cs s b
      (omega (arith, (All-past (λ c. c.0.first < s.first) ((t, d) ∷ past) cs h).0)) o.1 h,
)
InOrder-append n past (closes ∷ cs) s b p o h = InOrder-append n past cs s b p o h
InOrder-append n past (polls seq ∷ cs) s b p o h = InOrder-append n past cs s b p o h

InOrder-quiet :
    (n : ℕ) (cs : List Change) (c : Change)
    → ((k : ℕ) → InOrder k (c ∷ []))
    → InOrder n cs
    → InOrder n (cs ++ c ∷ [])
InOrder-quiet n [] c q h = q n
InOrder-quiet n (completes t d ∷ cs) c q h = (h.0, InOrder-quiet (t.first + 1) cs c q h.1)
InOrder-quiet n (closes ∷ cs) c q h = InOrder-quiet n cs c q h
InOrder-quiet n (polls seq ∷ cs) c q h = InOrder-quiet n cs c q h

module _ {R : Type 0} where
  -- What is in flight comes after all that is complete.
  record IsSerial (workers : ℕ) (inflight : List (Batch R)) (history : List Change) : Type 0 where
    one : workers ≡ 1
    few : length inflight ≤ 1
    behind : All (λ b. All (λ c. c.0.last < b.range.first) (completed [] history)) inflight
    ordered : InOrder 0 history

  abbrev Serial : System R → Type 0
  Serial s = IsSerial s.pipe.workers s.inflight s.history

  remove_only :
      (i : ℕ) (bs : List (Batch R)) {b : Batch R}
      → length bs ≤ 1
      → batch_at i bs ≡ some b
      → remove_at i bs ≡ []
  unfolding remove_at batch_at
  remove_only i [] h e = refl
  remove_only zero (x ∷ []) h e = refl
  remove_only (suc i) (x ∷ []) h e = absurd (ground (arith, e))
  remove_only zero (x ∷ y ∷ bs) h e = absurd (omega arith)
  remove_only (suc i) (x ∷ y ∷ bs) h e = absurd (omega arith)

  quiet-IsSerial :
      (n : ℕ) (bs : List (Batch R)) (h : List Change) (c : Change)
      → ((k : ℕ) → InOrder k (c ∷ []))
      → completed (completed [] h) (c ∷ []) ≡ completed [] h
      → IsSerial n bs h
      → IsSerial n bs (h ++ c ∷ [])
  quiet-IsSerial n bs h c q same v = record {
    one = v.one;
    few = v.few;
    behind =
        subst (λ cs. All (λ b. All (λ d. d.0.last < b.range.first) cs) bs)
          (sym (completed-append [] h c ∙ same)) v.behind;
    ordered = InOrder-quiet 0 h c q v.ordered;
  }

  Move-Serial : {s t : System R} → IsLinked (link s) → Serial s → Move s t → Serial t
  unfolding take_record receive
  Move-Serial l v (enter r c room e) = subst Serial (sym e) v
  Move-Serial l v (count c e) = subst Serial (sym e) v
  Move-Serial l v (take r rest e room f) = subst Serial (sym f) v
  Move-Serial {s} l v (hand p some_pending free e) = subst Serial (sym e) (record {
    one = v.one;
    few = omega (arith, v.one, length-append {0} s.inflight);
    behind =
        All-append (λ b. All (λ c. c.0.last < b.range.first) (completed [] s.history)) s.inflight _
          v.behind (l.ended_below, tt);
    ordered = v.ordered;
  })
  Move-Serial l v (turn p c e) = subst Serial (sym e) v
  Move-Serial {s} l v (done i b results at fits e) = subst Serial (sym e) (
      subst
        (λ bs.
          IsSerial s.pipe.workers bs
            (s.history ++ completes b.range (write (map is_ok results)).all_succeeded ∷ []))
        (sym (remove_only i s.inflight v.few at))
        (record {
          one = v.one;
          few = omega arith;
          behind = tt;
          ordered = InOrder-append 0 [] s.history b.range _ (omega arith) v.ordered (
              All-zip (λ c ranged lt. omega (arith, ranged.1)) (completed [] s.history)
                (AreApart-ranges _ l.ended_apart)
                (All-batch_at (λ d. All (λ c. c.0.last < d.range.first) (completed [] s.history)) i
                  s.inflight at v.behind));
        }))
  Move-Serial {s} l v (tell p seq e) =
      subst Serial (sym e)
        (quiet-IsSerial s.pipe.workers s.inflight s.history (polls seq) (λ k. tt) refl v)
  Move-Serial {s} l v (close p e) =
      subst Serial (sym e)
        (quiet-IsSerial s.pipe.workers s.inflight s.history closes (λ k. tt) refl v)

  Reached : System R → Type 0
  Reached u = length u.taken_in < seq_limit → IsOrdered u × IsLinked (link u) × Serial u

  steps-Reached :
      (opts : Options) (sinks : ℕ) (acts : List (Action R)) {p : Pipeline R} {s : System R}
      → opts.workers ≡ pos 1
      → new opts sinks ≡ ok p
      → steps (start p) acts ≡ some s
      → Reached s
  unfolding Reached new start
  steps-Reached opts sinks acts {p} {s} single made h =
      steps-induction Reached
        (λ u t v m less.
          let (o, l, w) = v (few_before m less) in
          (Move-IsOrdered less o m, Move-IsLinked (few_before m less) o l m, Move-Serial l w m))
        (start p) acts
        (λ less. (
          start-IsOrdered p (ground (arith, made)) (ground (arith, made)),
          start-IsLinked p (ground (arith, made)),
          record {
            one = ground (arith, made, single);
            few = omega arith;
            behind = tt;
            ordered = tt;
          },
        ))
        h

  stored_or_told :
      (s : System R) (m : ℕ) (r : R) (c : Span × Bool)
      → get_elem? s.taken_in (m - 1) ≡ some r
      → (c.0.first ≤ m) × (m ≤ c.0.last) × ((c.1 ≡ true) ⊎ In c.0 (reported [] empty s.history))
      → Kept s.taken_in s.stored c
      → All (λ log. In r log) s.stored ⊎ InRanges m (reported [] empty s.history)
  stored_or_told s m r c e (lo, hi, inl good) k = inl (
      Holds-In (k.records good) s.stored
        (In-IsSlice s.taken_in (record { records = k.records good; range = c.0 }) m (k.slice good)
          lo hi e)
        (k.holds good))
  stored_or_told s m r c e (lo, hi, inr told) k = inr (InRanges-of_In m c.0 lo hi told)

  -- With one worker, under every interleaving, with fewer than 2^64 - 1 records accepted: if a wait
  -- for `seq` says that it is durable, then the record at each position up to `seq` is stored in
  -- every sink, or some waiter was told of the failure of a range that holds it.
  pub one_worker_durable :
      (opts : Options) (sinks : ℕ) (acts : List (Action R)) (seq m : ℕ) {p : Pipeline R}
      {s : System R} {r : R}
      → opts.workers ≡ pos 1
      → new opts sinks ≡ ok p
      → steps (start p) acts ≡ some s
      → length s.taken_in < seq_limit
      → (poll s.pipe.wm seq).1 ≡ durable
      → 1 ≤ m
      → m ≤ seq
      → get_elem? s.taken_in (m - 1) ≡ some r
      → All (λ log. In r log) s.stored ⊎ InRanges m (reported [] empty s.history)
  unfolding Reached
  one_worker_durable opts sinks acts seq m {p} {s} {r} single made h few d lo hi e =
      let (o, l, w) = steps-Reached opts sinks acts single made h few in
      Any-All (λ c k kept. stored_or_told s m r c e k kept) (completed [] s.history)
        (await_durable-InOrder s.history seq m l.ended_apart w.ordered
          (subst (λ x. (poll x seq).1 ≡ durable) l.replayed d) lo hi)
        l.kept
