-- ===== src/Netflow/Isolation.antt =====
-- internal/source/netflow/decode.go: an exporter's templates depend on its own datagrams alone.
use netflow_collector.Base.{
  ℕ, Bool, true, false, ◌≡◌, refl, ap, ◌∙◌, subst, Option, some, List, [], ◌∷◌, length, ltb, ◌==◌,
  if◌then◌else◌, arith, Bool-cases, inl, inr,
}
use netflow_collector.Flow.Time.{Time}
use netflow_collector.Flow.AddrMap.{addr_eq, find, addr_eq_sound, find-set}
use netflow_collector.Flow.Addr.{Addr}
use netflow_collector.Netflow.V5.{uint_16}
use netflow_collector.Netflow.Decoder.{
  or_new, Goflow, Decoder, templates_for, decode_templated, decode,
}

module _ (goflow : Goflow) where
  open goflow use {System, decode_legacy, decode_message}

  -- What a datagram teaches the system that reads it.
  unfoldable pub learned : System → List ℕ → System
  learned s b =
      if ltb (length b) 2
      then s
      else if uint_16 b 0 == 9
      then (decode_message b s).1
      else if uint_16 b 0 == 10
      then (decode_message b s).1
      else s

  unfoldable pub run : Decoder goflow → List (List ℕ × Addr × Time) → Decoder goflow
  run d [] = d
  run d ((b, e, t) ∷ ds) = run (decode goflow d b e t).1 ds

  -- The system of one exporter, fed its own datagrams only.
  unfoldable pub feed : Addr → System → List (List ℕ × Addr × Time) → System
  feed a s [] = s
  feed a s ((b, e, t) ∷ ds) = feed a (if addr_eq e a then learned s b else s) ds

  pub open_ended :
      (b : Bool) (o : Option System) (s new : System)
      → or_new goflow (if b then some s else o) new ≡ (if b then s else or_new goflow o new)
  unfolding or_new
  open_ended true o s new = refl
  open_ended false o s new = refl

  stored :
      (d : Decoder goflow) (b : List ℕ) (e a : Addr) (t : Time)
      → templates_for goflow (decode_templated goflow d b e t).1 a ≡ (
          if addr_eq e a
          then (decode_message b (templates_for goflow d e)).1
          else templates_for goflow d a)
  unfolding decode_templated templates_for
  stored d b e a t = rw (find-set a e (decode_message b (templates_for goflow d e)).1 d.templates) (
      open_ended (addr_eq e a) (find a d.templates) (decode_message b (templates_for goflow d e)).1
        (d.new_system a))

  stored_own :
      (d : Decoder goflow) (b : List ℕ) (e a : Addr) (t : Time)
      → templates_for goflow (decode_templated goflow d b e t).1 a ≡ (
          if addr_eq e a
          then (decode_message b (templates_for goflow d a)).1
          else templates_for goflow d a)
  stored_own d b e a t = elim (Bool-cases (addr_eq e a)) [
    | inl same ↦
        subst
          (λ x. templates_for goflow (decode_templated goflow d b e t).1 a ≡ (
            if addr_eq e a
            then (decode_message b (templates_for goflow d x)).1
            else templates_for goflow d a))
          (addr_eq_sound e a same) (stored d b e a t)
    | inr other ↦ stored d b e a t ∙ rw other refl
  ]

  pub decode-learned :
      (d : Decoder goflow) (b : List ℕ) (e a : Addr) (t : Time)
      → templates_for goflow (decode goflow d b e t).1 a
        ≡ (if addr_eq e a then learned (templates_for goflow d a) b else templates_for goflow d a)
  unfolding decode learned
  decode-learned d b e a t = ground (arith, stored_own d b e a t)

  -- After any datagrams of any exporters, the template system of an exporter is the one that its own
  -- datagrams of version 9 and 10 leave when they are read in order: no other exporter's touch it.
  pub run_isolated :
      (d : Decoder goflow) (a : Addr) (ds : List (List ℕ × Addr × Time))
      → templates_for goflow (run d ds) a ≡ feed a (templates_for goflow d a) ds
  unfolding run feed
  run_isolated d a [] = refl
  run_isolated d a ((b, e, t) ∷ ds) =
      run_isolated (decode goflow d b e t).1 a ds ∙ ap (λ s. feed a s ds) (decode-learned d b e a t)
