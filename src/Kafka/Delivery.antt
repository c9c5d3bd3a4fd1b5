-- ===== src/Kafka/Delivery.antt =====
-- internal/source/kafka/kafka.go: commits follow the order of the polls, and what `Written` confirmed.
use netflow_collector.Base.{
  ℕ, ◌≤◌, ◌≡◌, refl, ap, sym, ◌∙◌, inl, inr, true, false, ◌||◌, none, some, List, [], ◌∷◌, ◌++◌,
  All, All-append, All-map, Option-cases, subst, Bool-cases, append-nil, append_assoc, arith, ltb,
  length,
}
use mathlib.Core.Option.{some-injective}
use netflow_collector.Kafka.Session.{
  poison, offered, refused, Answer, durable, write_failed, interrupted, Fetched, PollAck, Session,
  Event, polls, hands_over, gives_up, takes, answered, ends, cancels, each_record, poll_turn,
  hand_over, give_up, conclude, take_ack, end_of, initial, step, steps,
}
use netflow_collector.Kafka.Commits.{Ascending, UpTo, within, each_record-UpTo, each_record-records}
use netflow_collector.Kafka.Underway.{
  records_of, queued, underway, IsGood, Holds, IsPrefix, fetched, AllAscending, ack_of-Holds,
  longer, poll_flow, send_flow, drop_flow, take_flow, commit_flow, cut, all_of,
}

module _ {Message : Type 0} (written : ℕ → Answer) where
  -- A message was dropped as undecodable, or `Written` confirmed a position that is not before its own.
  pub data IsSettled : Fetched Message → Type 0 where
    undecodable : {m : Message} → IsSettled (m, poison)
    confirmed :
        {m : Message} {seq : ℕ} (q : ℕ) → seq ≤ q → written q ≡ durable → IsSettled (m, offered seq)

  pub record Inv (s : Session Message) (f : List (Fetched Message)) : Type 0 where
    pub handing : Holds s.handing
    pub acks : All IsGood s.acks
    pub awaiting : Holds s.awaiting
    pub settled : All IsSettled s.committed
    pub busy : s.committing ≡ false → s.awaiting ≡ none
    pub in_order : IsPrefix s.committed f
    pub flows : s.committing ≡ true → IsPrefix (s.committed ++ underway s) f
    pub whole : s.committing ≡ true → s.polling ≡ true → s.committed ++ underway s ≡ f

  settle : (q : ℕ) → written q ≡ durable → (x : Fetched Message) → UpTo q x → IsSettled x
  settle q e (m, poison) u = undecodable
  settle q e (m, offered seq) (within le) = confirmed q le e
  settle q e (m, refused) u = elim u [ ]

  poll_turn-Inv :
      (fs : List (Fetched Message)) (s : Session Message) (f : List (Fetched Message))
      → Ascending 0 fs
      → s.handing ≡ none
      → s.polling ≡ true
      → Inv s f
      → Inv (poll_turn fs s) (f ++ fs)
  unfolding poll_turn underway
  poll_turn-Inv fs s f a e polling v = elim (Bool-cases (s.cancelled || (each_record 0 fs).stop)) [
    | inl stops ↦ rw stops (record {
      handing = v.handing;
      acks = v.acks;
      awaiting = v.awaiting;
      settled = v.settled;
      busy = v.busy;
      in_order = longer _ fs v.in_order;
      flows = λ c. longer _ fs (v.flows c);
      whole = λ c p. ground arith;
    })
    | inr goes ↦
        let open_ : (each_record 0 fs).stop ≡ false = ground (arith, goes) in
        let grown =
          poll_flow s (each_record 0 fs).last (each_record 0 fs).records e
          ∙ ap (λ l. (s.committed ++ underway s) ++ l) (each_record-records 0 fs open_) in
        rw goes (record {
          handing = ack_of-Holds _ _ (each_record-UpTo 0 fs a open_).1;
          acks = v.acks;
          awaiting = v.awaiting;
          settled = v.settled;
          busy = v.busy;
          in_order = longer _ fs v.in_order;
          flows = λ c. all_of (grown ∙ ap (λ l. l ++ fs) (v.whole c polling));
          whole = λ c p. grown ∙ ap (λ l. l ++ fs) (v.whole c polling);
        })
  ]

  hand_over-Inv :
      (ack : PollAck Message) (s t : Session Message) (f : List (Fetched Message))
      → s.handing ≡ some ack
      → hand_over ack s ≡ some t
      → Inv s f
      → Inv t f
  unfolding hand_over Holds IsGood underway
  hand_over-Inv ack s t f e h v = elim (Bool-cases (ltb (length s.acks) 64)) [
    | inl room ↦
        subst (λ u. Inv u f) (some-injective _ _ (rw room at h))
          (record {
            handing = tt;
            acks = All-append IsGood s.acks (ack ∷ []) v.acks (subst Holds e v.handing, tt);
            awaiting = v.awaiting;
            settled = v.settled;
            busy = v.busy;
            in_order = v.in_order;
            flows = λ c.
                subst (λ u. IsPrefix (s.committed ++ u) f) (sym (send_flow s ack e)) (v.flows c);
            whole = λ c p. ap (λ u. s.committed ++ u) (send_flow s ack e) ∙ v.whole c p;
          })
    | inr full ↦ absurd (ground (arith, full, h))
  ]

  give_up-Inv :
      (ack : PollAck Message) (s t : Session Message) (f : List (Fetched Message))
      → s.handing ≡ some ack
      → give_up s ≡ some t
      → Inv s f
      → Inv t f
  unfolding give_up Holds IsGood underway
  give_up-Inv ack s t f e h v = elim (Bool-cases s.cancelled) [
    | inl ended ↦
        subst (λ u. Inv u f) (some-injective _ _ (rw ended at h))
          (record {
            handing = tt;
            acks = v.acks;
            awaiting = v.awaiting;
            settled = v.settled;
            busy = v.busy;
            in_order = v.in_order;
            flows = λ c.
                cut _ ack.records (subst (λ u. IsPrefix u f) (sym (drop_flow s ack e)) (v.flows c));
            whole = λ c p. ground arith;
          })
    | inr going ↦ absurd (ground (arith, going, h))
  ]

  conclude-Inv :
      (ack : PollAck Message) (s : Session Message) (a : Answer) (f : List (Fetched Message))
      → s.awaiting ≡ some ack
      → s.committing ≡ true
      → written ack.seq ≡ a
      → Inv s f
      → Inv (conclude a ack s) f
  unfolding conclude Holds IsGood
  conclude-Inv ack s durable f e on w v = record {
    handing = v.handing;
    acks = v.acks;
    awaiting = tt;
    settled =
        All-append IsSettled s.committed ack.records v.settled
          (All-map (settle ack.seq w) ack.records (subst Holds e v.awaiting));
    busy = λ c. refl;
    in_order = cut _ _ (subst (λ u. IsPrefix u f) (sym (commit_flow s ack e)) (v.flows on));
    flows = λ c. subst (λ u. IsPrefix u f) (sym (commit_flow s ack e)) (v.flows on);
    whole = λ c p. commit_flow s ack e ∙ v.whole c p;
  }
  conclude-Inv ack s write_failed f e on w v = record {
    handing = v.handing;
    acks = v.acks;
    awaiting = tt;
    settled = v.settled;
    busy = λ c. refl;
    in_order = v.in_order;
    flows = λ c. ground arith;
    whole = λ c p. ground arith;
  }
  conclude-Inv ack s interrupted f e on w v = record {
    handing = v.handing;
    acks = v.acks;
    awaiting = tt;
    settled = v.settled;
    busy = λ c. refl;
    in_order = v.in_order;
    flows = λ c. ground arith;
    whole = λ c p. ground arith;
  }

  take_ack-Inv :
      (acks : List (PollAck Message)) (s t : Session Message) (f : List (Fetched Message))
      → s.acks ≡ acks
      → s.awaiting ≡ none
      → s.committing ≡ true
      → take_ack acks s ≡ some t
      → Inv s f
      → Inv t f
  unfolding take_ack Holds IsGood
  take_ack-Inv [] s t f e n on h v = absurd (ground arith)
  take_ack-Inv (ack ∷ acks) s t f e n on h v =
      let good = subst (All IsGood) e v.acks in
      subst (λ u. Inv u f) (some-injective _ _ h)
        (record {
          handing = v.handing;
          acks = good.1;
          awaiting = good.0;
          settled = v.settled;
          busy = λ c. ground (arith, c, on);
          in_order = v.in_order;
          flows = λ c.
              subst (λ u. IsPrefix (s.committed ++ u) f) (sym (take_flow s ack acks e n))
                (v.flows c);
          whole = λ c p. ap (λ u. s.committed ++ u) (take_flow s ack acks e n) ∙ v.whole c p;
        })

  end_of-Inv :
      (acks : List (PollAck Message)) (s t : Session Message) (f : List (Fetched Message))
      → s.awaiting ≡ none
      → end_of acks s ≡ some t
      → Inv s f
      → Inv t f
  unfolding end_of
  end_of-Inv [] s t f n h v = elim (Bool-cases s.polling) [
    | inl polling ↦ absurd (ground (arith, polling))
    | inr left ↦
        subst (λ u. Inv u f) (some-injective _ _ (rw left at h))
          (record {
            handing = v.handing;
            acks = v.acks;
            awaiting = v.awaiting;
            settled = v.settled;
            busy = λ c. n;
            in_order = v.in_order;
            flows = λ c. ground arith;
            whole = λ c p. ground arith;
          })
  ]
  end_of-Inv (ack ∷ acks) s t f n h v = absurd (ground arith)

  -- The messages that an event adds.
  step-Inv :
      (s t : Session Message) (e : Event Message) (f : List (Fetched Message))
      → AllAscending (e ∷ [])
      → step written s e ≡ some t
      → Inv s f
      → Inv t (f ++ fetched (e ∷ []))
  unfolding step fetched AllAscending underway
  step-Inv s t (polls fs) f a h v = elim (Option-cases s.handing) [
    | inl e ↦ elim (Bool-cases s.polling) [
      | inl on ↦
          let q : poll_turn fs s ≡ t = ground (arith, e, on) in
          subst (λ u. Inv u (f ++ (fs ++ []))) q
            (subst (λ l. Inv (poll_turn fs s) (f ++ l)) (sym (append-nil fs))
              (poll_turn-Inv fs s f a.0 e on v))
      | inr off ↦ absurd (ground (arith, e, off))
    ]
    | inr (ack, e) ↦ absurd (ground (arith, e))
  ]
  step-Inv s t hands_over f a h v =
      subst (Inv t) (sym (append-nil f)) (elim (Option-cases s.handing) [
        | inl e ↦ absurd (ground (arith, e))
        | inr (ack, e) ↦ hand_over-Inv ack s t f e (ground (arith, e)) v
      ])
  step-Inv s t gives_up f a h v =
      subst (Inv t) (sym (append-nil f)) (elim (Option-cases s.handing) [
        | inl e ↦ absurd (ground (arith, e))
        | inr (ack, e) ↦ give_up-Inv ack s t f e (ground (arith, e)) v
      ])
  step-Inv s t takes f a h v = subst (Inv t) (sym (append-nil f)) (elim (Option-cases s.awaiting) [
    | inl e ↦ elim (Bool-cases s.committing) [
      | inl on ↦ take_ack-Inv s.acks s t f refl e on (ground (arith, e, on)) v
      | inr off ↦ absurd (ground (arith, e, off))
    ]
    | inr (ack, e) ↦ absurd (ground (arith, e))
  ])
  step-Inv s t answered f a h v =
      subst (Inv t) (sym (append-nil f)) (elim (Option-cases s.awaiting) [
        | inl e ↦ absurd (ground (arith, e))
        | inr (ack, e) ↦ elim (Bool-cases s.committing) [
          | inl on ↦
              let q : conclude (written ack.seq) ack s ≡ t = ground (arith, e) in
              subst (λ u. Inv u f) q (conclude-Inv ack s (written ack.seq) f e on refl v)
          | inr off ↦ absurd (ground (arith, e, v.busy off))
        ]
      ])
  step-Inv s t ends f a h v = subst (Inv t) (sym (append-nil f)) (elim (Option-cases s.awaiting) [
    | inl e ↦ end_of-Inv s.acks s t f e (ground (arith, e)) v
    | inr (ack, e) ↦ absurd (ground (arith, e))
  ])
  step-Inv s t cancels f a h v = subst (Inv t) (sym (append-nil f)) (
      subst (λ u. Inv u f) (some-injective _ _ h)
        (record {
          handing = v.handing;
          acks = v.acks;
          awaiting = v.awaiting;
          settled = v.settled;
          busy = v.busy;
          in_order = v.in_order;
          flows = v.flows;
          whole = v.whole;
        }))

  AllAscending-cons :
      (e : Event Message) (es : List (Event Message))
      → AllAscending (e ∷ es)
      → AllAscending (e ∷ []) × AllAscending es
  unfolding AllAscending
  AllAscending-cons (polls fs) es a = ((a.0, tt), a.1)
  AllAscending-cons hands_over es a = (tt, a)
  AllAscending-cons gives_up es a = (tt, a)
  AllAscending-cons takes es a = (tt, a)
  AllAscending-cons answered es a = (tt, a)
  AllAscending-cons ends es a = (tt, a)
  AllAscending-cons cancels es a = (tt, a)

  fetched-cons :
      (e : Event Message) (es : List (Event Message))
      → fetched (e ∷ []) ++ fetched es ≡ fetched (e ∷ es)
  unfolding fetched
  fetched-cons (polls fs) es = append_assoc fs [] (fetched es)
  fetched-cons hands_over es = refl
  fetched-cons gives_up es = refl
  fetched-cons takes es = refl
  fetched-cons answered es = refl
  fetched-cons ends es = refl
  fetched-cons cancels es = refl

  steps-Inv :
      (s t : Session Message) (es : List (Event Message)) (f : List (Fetched Message))
      → AllAscending es
      → steps written s es ≡ some t
      → Inv s f
      → Inv t (f ++ fetched es)
  unfolding steps fetched
  steps-Inv s t [] f a h v =
      subst (λ u. Inv u (f ++ [])) (some-injective _ _ h) (subst (Inv s) (sym (append-nil f)) v)
  steps-Inv s t (e ∷ es) f a h v = elim (Option-cases (step written s e)) [
    | inl stuck ↦ absurd (ground (arith, stuck))
    | inr (u, ran) ↦
        let (a0, a1) = AllAscending-cons e es a in
        let rest : steps written u es ≡ some t = ground (arith, ran) in
        subst (Inv t)
          (append_assoc f (fetched (e ∷ [])) (fetched es) ∙ ap (λ l. f ++ l) (fetched-cons e es))
          (steps-Inv u t es (f ++ fetched (e ∷ [])) a1 rest (step-Inv s u e f a0 ran v))
  ]

  initial-Inv : Inv initial []
  unfolding initial Holds underway records_of queued
  initial-Inv = record {
    handing = tt;
    acks = tt;
    awaiting = tt;
    settled = tt;
    busy = λ c. refl;
    in_order = ([], refl);
    flows = λ c. ([], refl);
    whole = λ c p. refl;
  }

  -- In a session whose polls were given growing positions, whatever the interleaving of the poll loop
  -- and the committer: each message handed to CommitRecords was either undecodable or lies at a
  -- position not after one that `Written` confirmed.
  pub committed_settled :
      (es : List (Event Message)) (t : Session Message)
      → AllAscending es
      → steps written initial es ≡ some t
      → All IsSettled t.committed
  committed_settled es t a h = (steps-Inv initial t es [] a h initial-Inv).settled

  -- The messages handed to CommitRecords are, in order and with none left out, the first of those polled.
  pub committed_prefix :
      (es : List (Event Message)) (t : Session Message)
      → AllAscending es
      → steps written initial es ≡ some t
      → IsPrefix t.committed (fetched es)
  committed_prefix es t a h = (steps-Inv initial t es [] a h initial-Inv).in_order
