-- ===== src/Pipeline/System/Order.antt =====
-- pipeline.go: records leave the buffer in the order in which they entered it, and the sequence
-- numbers of `tryOffer` are their positions in that order.
use netflow_collector.Base.{
  ℕ, ◌+◌, ◌≤◌, ◌<◌, ◌≡◌, refl, sym, ap, ◌∙◌, subst, some, List, [], ◌∷◌, ◌++◌, length,
  length-append, append_assoc, append-nil, ◌≢◌, arith,
}
use netflow_collector.Pipeline.Watermark.Coverage.{seq_limit}
use netflow_collector.Pipeline.Buffer.{Pipeline, Options, ok, new}
use netflow_collector.Pipeline.Batcher.{Batch, Batcher, take_record, receive}
use netflow_collector.Pipeline.System.{System, Action, steps, start}
use netflow_collector.Pipeline.System.Move.{
  Move, enter, count, take, hand, turn, done, tell, close, pending_batch,
}
use netflow_collector.Pipeline.System.Bounds.{steps-induction}

module _ {R : Type 0} where
  abbrev pub contents : List (Batch R) → List R
  contents [] = []
  contents (b ∷ bs) = b.records ++ contents bs

  -- The records of the batches handed to workers so far.
  abbrev pub sent : System R → List R
  sent s = contents s.handed_off

  -- Each batch has some records, and its range is their positions, `n` being before the first.
  abbrev pub AreCut : ℕ → List (Batch R) → Type 0
  AreCut n [] = Unit
  AreCut n (b ∷ bs) =
      (0 < length b.records)
      × (b.range.first ≡ n + 1)
      × (b.range.last ≡ n + length b.records)
      × AreCut (n + length b.records) bs

  pub record IsOrdered (s : System R) : Type 0 where
    pub cut : AreCut 0 s.handed_off
    pub split : s.taken_in ≡ sent s ++ (s.batcher.pending ++ s.pipe.buf)
    pub first : s.batcher.first ≡ length (sent s) + 1
    pub taken : s.batcher.taken ≡ length (sent s) + length s.batcher.pending
    pub next : s.pipe.next ≡ length s.taken_in

  length-split :
      (s : System R) (v : IsOrdered s)
      → length s.taken_in ≡ length (sent s) + (length s.batcher.pending + length s.pipe.buf)
  length-split s v =
      ap length v.split
      ∙ omega (
        arith,
        length-append (sent s) (s.batcher.pending ++ s.pipe.buf),
        length-append s.batcher.pending s.pipe.buf,
      )

  Move-le : {s t : System R} → Move s t → length s.taken_in ≤ length t.taken_in
  Move-le {s} {t} (enter r c room e) =
      omega (arith, ap (λ (u : System R). length u.taken_in) e, length-append s.taken_in (r ∷ []))
  Move-le (count c e) = ground (arith, e)
  Move-le (take r rest e room f) = ground (arith, f)
  Move-le (hand p some_pending free e) = ground (arith, e)
  Move-le (turn p c e) = ground (arith, e)
  Move-le (done i b results at fits e) = ground (arith, e)
  Move-le (tell p seq e) = ground (arith, e)
  Move-le (close p e) = ground (arith, e)

  contents-append :
      (xs : List (Batch R)) (b : Batch R) → contents (xs ++ b ∷ []) ≡ contents xs ++ b.records
  contents-append [] b = append-nil b.records
  contents-append (x ∷ xs) b =
      ap (λ l. x.records ++ l) (contents-append xs b)
      ∙ sym (append_assoc x.records (contents xs) b.records)

  AreCut-append :
      (n : ℕ) (xs : List (Batch R)) (b : Batch R)
      → AreCut n xs
      → 0 < length b.records
      → b.range.first ≡ n + length (contents xs) + 1
      → b.range.last ≡ n + length (contents xs) + length b.records
      → AreCut n (xs ++ b ∷ [])
  AreCut-append n [] b h some_record first last =
      (some_record, omega (arith, first), omega (arith, last), tt)
  AreCut-append n (x ∷ xs) b h some_record first last =
      let whole = length-append x.records (contents xs) in
      (
        h.0,
        h.1,
        h.2,
        AreCut-append (n + length x.records) xs b h.3 some_record (omega (arith, first, whole))
            (omega (arith, last, whole)),
      )

  nonempty : (xs : List R) → xs ≢ [] → 0 < length xs
  nonempty [] h = absurd (h refl)
  nonempty (x ∷ xs) h = omega arith

  -- The part of the state through which records flow.
  abbrev flow_of : System R → List R × Batcher R × List R × ℕ × List (Batch R)
  flow_of s = (s.taken_in, s.batcher, s.pipe.buf, s.pipe.next, s.handed_off)

  unmoved-IsOrdered : {s t : System R} → IsOrdered s → flow_of t ≡ flow_of s → IsOrdered t
  unmoved-IsOrdered {s} {t} v e = record {
    cut =
        subst (λ (f : List R × Batcher R × List R × ℕ × List (Batch R)). AreCut 0 f.4) (sym e)
          v.cut;
    split =
        subst
          (λ (f : List R × Batcher R × List R × ℕ × List (Batch R)).
            f.0 ≡ contents f.4 ++ (f.1.pending ++ f.2))
          (sym e) v.split;
    first =
        subst
          (λ (f : List R × Batcher R × List R × ℕ × List (Batch R)).
            f.1.first ≡ length (contents f.4) + 1)
          (sym e) v.first;
    taken =
        subst
          (λ (f : List R × Batcher R × List R × ℕ × List (Batch R)).
            f.1.taken ≡ length (contents f.4) + length f.1.pending)
          (sym e) v.taken;
    next =
        subst (λ (f : List R × Batcher R × List R × ℕ × List (Batch R)). f.3 ≡ length f.0) (sym e)
          v.next;
  }

  pub Move-IsOrdered :
      {s t : System R} → length t.taken_in < seq_limit → IsOrdered s → Move s t → IsOrdered t
  unfolding take_record receive
  Move-IsOrdered {s} {t} few v (enter r c room e) = subst IsOrdered (sym e) (record {
    cut = v.cut;
    split = rw v.split (
        append_assoc (sent s) (s.batcher.pending ++ s.pipe.buf) (r ∷ [])
        ∙ ap (λ l. sent s ++ l) (append_assoc s.batcher.pending s.pipe.buf (r ∷ [])));
    first = v.first;
    taken = v.taken;
    next = omega (
      arith,
      v.next,
      length-append s.taken_in (r ∷ []),
      ap (λ (u : System R). length u.taken_in) e,
    );
  })
  Move-IsOrdered few v (count c e) = unmoved-IsOrdered v (ap flow_of e)
  Move-IsOrdered {s} {t} few v (take r rest e room f) = subst IsOrdered (sym f) (record {
    cut = v.cut;
    split =
        v.split ∙ rw e (ap (λ l. sent s ++ l) (sym (append_assoc s.batcher.pending (r ∷ []) rest)));
    first = v.first;
    taken = omega (
      arith,
      v.taken,
      length-append s.batcher.pending (r ∷ []),
      length-split s v,
      ap length e,
      ap (λ (u : System R). length u.taken_in) f,
    );
    next = v.next;
  })
  Move-IsOrdered {s} {t} few v (hand p some_pending free e) =
      let whole : contents (s.handed_off ++ pending_batch s ∷ []) ≡ sent s ++ s.batcher.pending =
        contents-append s.handed_off (pending_batch s) in
      let count = ap length whole ∙ length-append (sent s) s.batcher.pending in
      subst IsOrdered (sym e) (record {
        cut =
            AreCut-append 0 s.handed_off (pending_batch s) v.cut
              (nonempty s.batcher.pending some_pending) (omega (arith, v.first))
              (omega (arith, v.taken));
        split =
            v.split
            ∙ sym (append_assoc (sent s) s.batcher.pending s.pipe.buf)
            ∙ ap (λ l. l ++ s.pipe.buf) (sym whole);
        first =
            omega
              (arith, v.taken, count, length-split s v, ap (λ (u : System R). length u.taken_in) e);
        taken = omega (arith, v.taken, count);
        next = v.next;
      })
  Move-IsOrdered few v (turn p c e) = unmoved-IsOrdered v (ap flow_of e)
  Move-IsOrdered few v (done i b results at fits e) = unmoved-IsOrdered v (ap flow_of e)
  Move-IsOrdered few v (tell p seq e) = unmoved-IsOrdered v (ap flow_of e)
  Move-IsOrdered few v (close p e) = unmoved-IsOrdered v (ap flow_of e)

  pub few_before :
      {s t : System R} → Move s t → length t.taken_in < seq_limit → length s.taken_in < seq_limit
  few_before m few = omega (arith, Move-le m)

  pub start-IsOrdered : (p : Pipeline R) → p.buf ≡ [] → p.next ≡ 0 → IsOrdered (start p)
  unfolding start
  start-IsOrdered p e f = record { cut = tt; split = sym e; first = refl; taken = refl; next = f }

  -- Under every interleaving, as long as fewer than 2^64 - 1 records have been accepted: the
  -- records of the batches handed to workers, in the order in which they were handed over, then those
  -- pending, then those buffered are the accepted records in the order of acceptance; no batch handed
  -- over is empty, and its range names the positions of exactly its records; `first` and `taken`
  -- are the positions of the pending ones, and `next` counts all.
  pub steps-IsOrdered :
      (opts : Options) (sinks : ℕ) (acts : List (Action R)) {p : Pipeline R} {s : System R}
      → new opts sinks ≡ ok p
      → steps (start p) acts ≡ some s
      → length s.taken_in < seq_limit
      → IsOrdered s
  unfolding new
  steps-IsOrdered opts sinks acts {p} {s} made h =
      steps-induction (λ u. length u.taken_in < seq_limit → IsOrdered u)
        (λ u t v m few. Move-IsOrdered few (v (few_before m few)) m) (start p) acts
        (λ few. start-IsOrdered p (ground (arith, made)) (ground (arith, made))) h
