-- ===== src/Pipeline/Watermark/Wake.antt =====
-- watermark.go, `await`, `wake`: no waiter sleeps through the change that it waits for.
use netflow_collector.Base.{
  ℕ, ◌≤◌, ◌<◌, ◌≡◌, ◌≢◌, refl, ◌⊎◌, inl, inr, Bool, true, false, List, [], ◌∷◌, arith, ltb,
  Bool-cases, subst, sym, ap, ◌∙◌,
}
use netflow_collector.Pipeline.Watermark.{
  Span, Watermark, complete, close, leads_failed, keep_above, Poll, write_failed, durable, canceled,
  waiting, poll, Change, completes, closes, polls, change, Waiter, looking, selecting, returned,
  context_ended, look, turn, cancel, Event, others, turns, ends, await,
}
use netflow_collector.Pipeline.Watermark.Failures.{leads_failed-poll, not-leads_failed-poll}

-- There is something to return for a waiter for `seq`.
abbrev pub HasNews : ℕ → Watermark → Type 0
HasNews seq w = (seq ≤ w.written) ⊎ (w.closed ≡ true) ⊎ (leads_failed seq w.failed ≡ true)

abbrev pub is_over : Waiter → Bool
is_over looking = false
is_over (selecting c) = false
is_over (returned p) = true
is_over context_ended = true

-- Nothing to return.
record HasNone (seq : ℕ) (w : Watermark) : Type 0 where
  unwritten : w.written < seq
  unclosed : w.closed ≡ false
  unfailed : leads_failed seq w.failed ≡ false

-- A waiter in its select has nothing to return, or its channel is closed.
abbrev IsAlert : ℕ → Watermark → Waiter → Type 0
IsAlert seq w looking = Unit
IsAlert seq w (selecting c) = (c < w.changed) ⊎ ((c ≡ w.changed) × HasNone seq w)
IsAlert seq w (returned p) = Unit
IsAlert seq w context_ended = Unit

poll-HasNone : (w : Watermark) (seq : ℕ) → (poll w seq).1 ≡ waiting → HasNone seq w
unfolding poll
poll-HasNone w seq h = record {
  unwritten = ground (arith, h);
  unclosed = ground (arith, h);
  unfailed = ground (arith, h);
}

HasNews-poll : (w : Watermark) (seq : ℕ) → HasNews seq w → (poll w seq).1 ≢ waiting
unfolding poll
HasNews-poll w seq h = ground (arith, h)

keep-unfailed : (seq q : ℕ) (xs : List Span) → seq < q → leads_failed seq (keep_above q xs) ≡ false
unfolding leads_failed keep_above
keep-unfailed seq q [] h = refl
keep-unfailed seq q (x ∷ xs) h = ground (arith, keep-unfailed seq q xs h)

between :
    (seq q : ℕ) (xs : List Span) → leads_failed seq xs ≡ false → leads_failed q xs ≡ true → seq < q
unfolding leads_failed
between seq q [] h k = absurd (ground (arith, k))
between seq q (x ∷ xs) h k = ground (arith, h, k)

poll-same :
    (w : Watermark) (q : ℕ)
    → ((poll w q).0.written ≡ w.written)
      × ((poll w q).0.closed ≡ w.closed)
      × ((poll w q).0.changed ≡ w.changed)
unfolding poll
poll-same w q = (ground arith, ground arith, ground arith)

-- What another waiter takes from `failed` was not what this one waits for.
poll-unfailed :
    (w : Watermark) (seq q : ℕ)
    → leads_failed seq w.failed ≡ false
    → leads_failed seq (poll w q).0.failed ≡ false
poll-unfailed w seq q h = elim (Bool-cases (leads_failed q w.failed)) [
  | inl e ↦
      subst (λ xs. leads_failed seq xs ≡ false) (sym (leads_failed-poll w q e))
        (keep-unfailed seq q w.failed (between seq q w.failed h e))
  | inr e ↦ subst (λ xs. leads_failed seq xs ≡ false) (sym (not-leads_failed-poll w q e)) h
]

poll-none : (w : Watermark) (seq q : ℕ) → HasNone seq w → HasNone seq (poll w q).0
poll-none w seq q h =
    let (written, closed, changed) = poll-same w q in
    record {
      unwritten = omega (arith, written, h.unwritten);
      unclosed = closed ∙ h.unclosed;
      unfailed = poll-unfailed w seq q h.unfailed;
    }

-- A completion and a close wake every waiter; another waiter need not.
others-IsAlert :
    (seq : ℕ) (w : Watermark) (x : Waiter) (c : Change)
    → IsAlert seq w x
    → IsAlert seq (change w c) x
unfolding change complete close
others-IsAlert seq w looking c h = tt
others-IsAlert seq w (returned p) c h = tt
others-IsAlert seq w context_ended c h = tt
others-IsAlert seq w (selecting n) (completes s ok) (inl closed) = inl (omega arith)
others-IsAlert seq w (selecting n) (completes s ok) (inr (e, none_yet)) = inl (omega arith)
others-IsAlert seq w (selecting n) closes (inl closed) = inl (omega arith)
others-IsAlert seq w (selecting n) closes (inr (e, none_yet)) = inl (omega arith)
others-IsAlert seq w (selecting n) (polls q) (inl closed) =
    inl (omega (arith, (poll-same w q).2, closed))
others-IsAlert seq w (selecting n) (polls q) (inr (e, none_yet)) =
    inr (e ∙ sym (poll-same w q).2, poll-none w seq q none_yet)

look-IsAlert :
    (seq : ℕ) (w : Watermark) (r : Watermark × Poll)
    → r.0.changed ≡ w.changed
    → (r.1 ≡ waiting → HasNone seq r.0)
    → IsAlert seq (look w r).0 (look w r).1
unfolding look
look-IsAlert seq w (v, waiting) e h = inr (sym e, h refl)
look-IsAlert seq w (v, write_failed) e h = tt
look-IsAlert seq w (v, durable) e h = tt
look-IsAlert seq w (v, canceled) e h = tt

selecting_lem :
    (seq : ℕ) (w : Watermark) (c : ℕ) → c < w.changed → turn seq (w, selecting c) ≡ (w, looking)
unfolding turn
selecting_lem seq w c h = ground (arith, h)

sleeping_lem :
    (seq : ℕ) (w : Watermark) (c : ℕ)
    → ltb c w.changed ≡ false
    → turn seq (w, selecting c) ≡ (w, selecting c)
unfolding turn
sleeping_lem seq w c h = ground (arith, h)

turn-IsAlert :
    (seq : ℕ) (w : Watermark) (x : Waiter)
    → IsAlert seq w x
    → IsAlert seq (turn seq (w, x)).0 (turn seq (w, x)).1
unfolding turn
turn-IsAlert seq w looking h =
    look-IsAlert seq w (poll w seq) (poll-same w seq).2
      (λ e. poll-none w seq seq (poll-HasNone w seq e))
turn-IsAlert seq w (selecting c) h = elim (Bool-cases (ltb c w.changed)) [
  | inl e ↦
      subst (λ (s : Watermark × Waiter). IsAlert seq s.0 s.1)
        (sym (selecting_lem seq w c (ground (arith, e)))) tt
  | inr e ↦ subst (λ (s : Watermark × Waiter). IsAlert seq s.0 s.1) (sym (sleeping_lem seq w c e)) h
]
turn-IsAlert seq w (returned p) h = h
turn-IsAlert seq w context_ended h = h

cancel-IsAlert : (seq : ℕ) (w : Watermark) (x : Waiter) → IsAlert seq w x → IsAlert seq w (cancel x)
cancel-IsAlert seq w looking h = h
cancel-IsAlert seq w (selecting c) h = tt
cancel-IsAlert seq w (returned p) h = h
cancel-IsAlert seq w context_ended h = h

await-IsAlert :
    (seq : ℕ) (w : Watermark) (x : Waiter) (es : List Event)
    → IsAlert seq w x
    → IsAlert seq (await seq (w, x) es).0 (await seq (w, x) es).1
unfolding await
await-IsAlert seq w x [] h = h
await-IsAlert seq w x (others c ∷ es) h =
    await-IsAlert seq (change w c) x es (others-IsAlert seq w x c h)
await-IsAlert seq w x (turns ∷ es) h =
    await-IsAlert seq (turn seq (w, x)).0 (turn seq (w, x)).1 es (turn-IsAlert seq w x h)
await-IsAlert seq w x (ends ∷ es) h = await-IsAlert seq w (cancel x) es (cancel-IsAlert seq w x h)

-- What it returns is what the lock shows.
abbrev pub IsBack : ℕ → Watermark → Waiter → Type 0
IsBack seq w x = (x ≡ returned (poll w seq).1) × ((poll w seq).1 ≢ waiting)

look_returns : (w : Watermark) (r : Watermark × Poll) → r.1 ≢ waiting → (look w r).1 ≡ returned r.1
unfolding look
look_returns w (v, waiting) h = absurd (h refl)
look_returns w (v, write_failed) h = refl
look_returns w (v, durable) h = refl
look_returns w (v, canceled) h = refl

-- Two turns in a row, if nothing comes between.
abbrev pub two_turns : ℕ → Watermark × Waiter → Waiter
two_turns seq s = (turn seq (turn seq s)).1

over_stays : (seq : ℕ) (w : Watermark) (x : Waiter) → is_over x ≡ true → turn seq (w, x) ≡ (w, x)
unfolding turn
over_stays seq w looking h = absurd (ground (arith, h))
over_stays seq w (selecting c) h = absurd (ground (arith, h))
over_stays seq w (returned p) h = refl
over_stays seq w context_ended h = refl

look_over : (w : Watermark) (r : Watermark × Poll) → r.1 ≢ waiting → is_over (look w r).1 ≡ true
look_over w r h = ap is_over (look_returns w r h)

over_still : (seq : ℕ) (w : Watermark) (x : Waiter) → is_over x ≡ true → (turn seq (w, x)).1 ≡ x
over_still seq w x h = ap (λ s. s.1) (over_stays seq w x h)

looking_lem : (seq : ℕ) (w : Watermark) → turn seq (w, looking) ≡ look w (poll w seq)
unfolding turn
looking_lem seq w = refl

two_turns_lem :
    (seq : ℕ) (w : Watermark) (x : Waiter)
    → IsAlert seq w x
    → HasNews seq w
    → is_over x ≡ false
    → IsBack seq w (two_turns seq (w, x))
two_turns_lem seq w looking h news going =
    let done = HasNews-poll w seq news in
    let after = look w (poll w seq) in
    (
      ap (λ s. (turn seq s).1) (looking_lem seq w)
          ∙ over_still seq after.0 after.1 (look_over w (poll w seq) done)
          ∙ look_returns w (poll w seq) done,
      done,
    )
two_turns_lem seq w (selecting c) h news going = elim h [
  | inl awake ↦
      let done = HasNews-poll w seq news in
      (
        ap (λ s. (turn seq s).1) (selecting_lem seq w c awake)
            ∙ ap (λ s. s.1) (looking_lem seq w)
            ∙ look_returns w (poll w seq) done,
        done,
      )
  | inr n ↦ absurd (ground (arith, news, n.1))
]
two_turns_lem seq w (returned p) h news going = absurd (ground (arith, going))
two_turns_lem seq w context_ended h news going = absurd (ground (arith, going))

-- No wake-up is lost: after any interleaving of the waiter's turns with completions, a close and other
-- waiters, if `written` has reached `seq`, or the watermark is closed, or a failed range leads at or below
-- `seq`, then a waiter that is not yet over is not asleep: its next two turns return, with what it finds
-- under the lock.
pub await_returns :
    (seq : ℕ) (w : Watermark) (es : List Event)
    → HasNews seq (await seq (w, looking) es).0
    → is_over (await seq (w, looking) es).1 ≡ false
    → IsBack seq (await seq (w, looking) es).0 (two_turns seq (await seq (w, looking) es))
await_returns seq w es news going =
    two_turns_lem seq (await seq (w, looking) es).0 (await seq (w, looking) es).1
      (await-IsAlert seq w looking es tt) news going
