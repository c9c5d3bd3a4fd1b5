-- ===== src/Pipeline/Buffer/Counts.antt =====
-- pipeline.go, `Offer` and `intake.Offer`: what is counted, and what waiting means.
use netflow_collector.Base.{
  ℕ, ◌+◌, ◌≤◌, ◌<◌, ◌≡◌, ◌⊎◌, ◌↔◌, true, false, List, [], ◌∷◌, ◌++◌, length, length-append, arith,
}
use netflow_collector.Pipeline.Watermark.{u64}
use netflow_collector.Pipeline.Buffer.{
  Pipeline, Counters, accepted, must_wait, try_offer, offer, intake_turn,
}

abbrev pub total : Counters → ℕ
total c = c.ingested + (c.dropped_shutdown + c.dropped_buffer_full)

module _ {R : Type 0} where
  -- A push source that offers one record after another.
  abbrev pub offer_all : Pipeline R → List R → Pipeline R
  offer_all p [] = p
  offer_all p (r ∷ rs) = offer_all (offer p r).0 rs

  offer_counts :
      (p : Pipeline R) (r : R)
      → (total (offer p r).0.counters ≡ total p.counters + 1)
        × ((offer p r).0.counters.ingested + length p.buf
            ≡ p.counters.ingested + length (offer p r).0.buf)
  unfolding offer try_offer
  offer_counts p r = ground (arith, length-append p.buf (r ∷ []))

  -- Every record offered is counted exactly once, as ingested or as dropped, and as many are
  -- ingested as enter the buffer.
  pub offer_all_counts :
      (p : Pipeline R) (rs : List R)
      → (total (offer_all p rs).counters ≡ total p.counters + length rs)
        × ((offer_all p rs).counters.ingested + length p.buf
            ≡ p.counters.ingested + length (offer_all p rs).buf)
  offer_all_counts p [] = (omega arith, omega arith)
  offer_all_counts p (r ∷ rs) = omega (arith, offer_counts p r, offer_all_counts (offer p r).0 rs)

  -- A record is dropped only when the pipeline is closing or the buffer is full.
  pub offer_iff :
      (p : Pipeline R) (r : R)
      → ((offer p r).1 ≡ true) ↔ ((p.closing ≡ false) × (length p.buf < p.buffer_size))
  unfolding offer try_offer
  offer_iff p r = (λ h. ground arith, λ h. ground arith)

  -- The blocking offer drops nothing: it ends with the record in the buffer under the next sequence
  -- number, or with an error and the record in nobody's hands but the caller's; and it waits only
  -- while the pipeline is open and the buffer full.
  pub intake_turn_cases :
      (p : Pipeline R) (r : R)
      → ((intake_turn p r).1 ≡ accepted (u64 (p.next + 1)))
          × ((intake_turn p r).0.buf ≡ p.buf ++ r ∷ [])
          × ((intake_turn p r).0.next ≡ u64 (p.next + 1))
        ⊎ ((intake_turn p r).0 ≡ p)
          × ((intake_turn p r).1 ≡ must_wait → (p.closing ≡ false) × (p.buffer_size ≤ length p.buf))
  unfolding intake_turn try_offer
  intake_turn_cases p r = ground arith
