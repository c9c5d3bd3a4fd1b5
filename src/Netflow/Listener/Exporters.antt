-- ===== src/Netflow/Listener/Exporters.antt =====
-- internal/source/netflow/netflow.go: exporters do not disturb each other.
use netflow_collector.Base.{
  ℕ, ◌≡◌, refl, sym, ap, subst, ◌∙◌, Bool, false, Option, none, some, List, [], ◌∷◌, ◌++◌,
  append-nil, All, if◌then◌else◌, arith, Bool-cases, inl, inr, Text,
}
use netflow_collector.Flow.Time.{Time, trunc_micro}
use netflow_collector.Flow.Addr.{Addr}
use netflow_collector.Flow.AddrMap.{addr_eq, addr_eq_sound}
use netflow_collector.Flow.Record.{FlowRecord}
use netflow_collector.Netflow.V5.{Records, ok, err}
use netflow_collector.Netflow.Templated.{Packet}
use netflow_collector.Netflow.Decoder.{
  Goflow, Decoder, templates_for, templated_records, decode_templated, decode,
}
use netflow_collector.Netflow.Isolation.{decode-learned}
use netflow_collector.Netflow.Listener.Origin.{From, templated-exporter, decode_v5-From}
use netflow_collector.Netflow.Listener.{
  exporter_addr, Datagram, Input, received, read_failed, stored, Store, Listener, send,
  take_records, handle, listen,
}

-- The records of one exporter.
unfoldable pub only : Addr → List FlowRecord → List FlowRecord
only a [] = []
only a (r ∷ rs) = let rest = only a rs in if addr_eq r.exporter_addr a then r ∷ rest else rest

only-append : (a : Addr) (rs ss : List FlowRecord) → only a (rs ++ ss) ≡ only a rs ++ only a ss
unfolding only
only-append a [] ss = refl
only-append a (r ∷ rs) ss = ground (arith, only-append a rs ss)

only_other :
    (a e : Addr) (rs : List FlowRecord)
    → addr_eq e a ≡ false
    → All (λ r. r.exporter_addr ≡ e) rs
    → only a rs ≡ []
unfolding only
only_other a e [] h k = refl
only_other a e (r ∷ rs) h k = rw (k.0, h, only_other a e rs h k.1) refl

-- The events that are left when the datagrams of other exporters are not sent.
unfoldable pub of_exporter : Addr → List Input → List Input
of_exporter a [] = []
of_exporter a (received g cut ∷ es) =
    let rest = of_exporter a es in
    if addr_eq (exporter_addr g.from) a then received g cut ∷ rest else rest
of_exporter a (read_failed b ∷ es) = read_failed b ∷ of_exporter a es
of_exporter a (stored key value ∷ es) = stored key value ∷ of_exporter a es

-- The event does not end the loop.
abbrev pub IsGoing : Input → Type 0
IsGoing (received g none) = Unit
IsGoing (received g (some n)) = ⊥
IsGoing (read_failed b) = b ≡ false
IsGoing (stored key value) = Unit

module _ (goflow : Goflow) where
  decode-From :
      (d : Decoder goflow) (b : List ℕ) (e : Addr) (t : Time) → From e (decode goflow d b e t).0
  unfolding decode decode_templated
  decode-From d b e t = ground (
    arith,
    decode_v5-From goflow.decode_legacy b e t,
    templated_lem (goflow.decode_message b (templates_for goflow d e)).0,
  )
    where
      templated_lem : (o : Option Packet) → From e (templated_records goflow o e t)
      templated_lem none = unfold templated_records in tt
      templated_lem (some p) = unfold templated_records in templated-exporter p e t

  decode_same :
      (d d' : Decoder goflow) (b : List ℕ) (e : Addr) (t : Time)
      → templates_for goflow d e ≡ templates_for goflow d' e
      → (decode goflow d b e t).0 ≡ (decode goflow d' b e t).0
  unfolding decode decode_templated
  decode_same d d' b e t h = ground (arith, h)

  learned_same :
      (d d' : Decoder goflow) (b : List ℕ) (e a : Addr) (t : Time)
      → templates_for goflow d a ≡ templates_for goflow d' a
      → templates_for goflow (decode goflow d b e t).1 a
        ≡ templates_for goflow (decode goflow d' b e t).1 a
  learned_same d d' b e a t h =
      decode-learned goflow d b e a t ∙ rw h refl ∙ sym (decode-learned goflow d' b e a t)

  -- Two listeners that one exporter cannot tell apart.
  record IsAlike (a : Addr) (l l' : Listener goflow) : Type 0 where
    systems : templates_for goflow l.dec a ≡ templates_for goflow l'.dec a
    records : only a l.out ≡ only a l'.out

  take_records_dec :
      (cut : Option ℕ) (rs : Records) (l : Listener goflow)
      → (take_records goflow cut rs l).1.dec ≡ l.dec
  unfolding take_records
  take_records_dec cut (ok rs) l = refl
  take_records_dec cut (err e) l = refl

  take_records_going :
      (rs : Records) (l : Listener goflow) → (take_records goflow none rs l).0 ≡ false
  unfolding take_records send
  take_records_going (ok rs) l = refl
  take_records_going (err e) l = refl

  take_records_same :
      (a : Addr) (rs : Records) (l l' : Listener goflow)
      → only a l.out ≡ only a l'.out
      → only a (take_records goflow none rs l).1.out ≡ only a (take_records goflow none rs l').1.out
  unfolding take_records send
  take_records_same a (ok rs) l l' h = rw (only-append, only-append, h) refl
  take_records_same a (err e) l l' h = h

  take_records_other :
      (a e : Addr) (rs : Records) (l : Listener goflow)
      → addr_eq e a ≡ false
      → From e rs
      → only a (take_records goflow none rs l).1.out ≡ only a l.out
  unfolding take_records send
  take_records_other a e (ok rs) l h k =
      only-append a l.out rs ∙ rw (only_other a e rs h k) (append-nil (only a l.out))
  take_records_other a e (err x) l h k = refl

  module _ (store : Store goflow) where
    open store use {apply_local}

    handle_going :
        (l : Listener goflow) (e : Input) → IsGoing e → (handle goflow store l e).0 ≡ false
    unfolding handle
    handle_going l (received g none) h = take_records_going _ _
    handle_going l (received g (some n)) h = absurd h
    handle_going l (read_failed b) h = h
    handle_going l (stored key value) h = refl

    handle_own :
        (a : Addr) (l l' : Listener goflow) (g : Datagram)
        → exporter_addr g.from ≡ a
        → IsAlike a l l'
        → IsAlike a
            (handle goflow store l (received g none)).1
            (handle goflow store l' (received g none)).1
    unfolding handle
    handle_own a l l' g own k =
        let e = exporter_addr g.from in
        let t = trunc_micro g.at in
        let known : templates_for goflow l.dec e ≡ templates_for goflow l'.dec e =
          subst (λ x. templates_for goflow l.dec x ≡ templates_for goflow l'.dec x) (sym own)
            k.systems in
        let rs = (decode goflow l.dec g.bytes e t).0 in
        let after = record l { dec = (decode goflow l.dec g.bytes e t).1 } in
        let after' = record l' { dec = (decode goflow l'.dec g.bytes e t).1 } in
        record {
          systems =
              ap (λ d. templates_for goflow d a) (take_records_dec none rs after)
              ∙ learned_same l.dec l'.dec g.bytes e a t k.systems
              ∙ ap (λ d. templates_for goflow d a) (sym (take_records_dec none _ after'));
          records =
              take_records_same a rs after after' k.records
              ∙ ap (λ x. only a (take_records goflow none x after').1.out)
                  (decode_same l.dec l'.dec g.bytes e t known);
        }

    handle_other :
        (a : Addr) (l l' : Listener goflow) (g : Datagram)
        → addr_eq (exporter_addr g.from) a ≡ false
        → IsAlike a l l'
        → IsAlike a (handle goflow store l (received g none)).1 l'
    unfolding handle
    handle_other a l l' g apart k =
        let e = exporter_addr g.from in
        let t = trunc_micro g.at in
        let rs = (decode goflow l.dec g.bytes e t).0 in
        let after = record l { dec = (decode goflow l.dec g.bytes e t).1 } in
        record {
          systems =
              ap (λ d. templates_for goflow d a) (take_records_dec none rs after)
              ∙ decode-learned goflow l.dec g.bytes e a t
              ∙ rw apart k.systems;
          records =
              take_records_other a e rs after apart (decode-From l.dec g.bytes e t) ∙ k.records;
        }

    handle_stored :
        (a : Addr) (l l' : Listener goflow) (key value : Text)
        → IsAlike a l l'
        → IsAlike a
            (handle goflow store l (stored key value)).1
            (handle goflow store l' (stored key value)).1
    unfolding handle
    handle_stored a l l' key value k = record {
      systems = apply_local l.dec l'.dec key value a k.systems;
      records = k.records;
    }

    handle_failed :
        (a : Addr) (l l' : Listener goflow) (b : Bool)
        → IsAlike a l l'
        → IsAlike a
            (handle goflow store l (read_failed b)).1
            (handle goflow store l' (read_failed b)).1
    unfolding handle
    handle_failed a l l' b k = k

    listen_going :
        (a : Addr) (l : Listener goflow) (e : Input) (es : List Input)
        → IsGoing e
        → only a (listen goflow store l (e ∷ es)).out
          ≡ only a (listen goflow store (handle goflow store l e).1 es).out
    unfolding listen
    listen_going a l e es h = rw (handle_going l e h) refl

    listen_alike :
        (a : Addr) (es : List Input) (l l' : Listener goflow)
        → All IsGoing es
        → IsAlike a l l'
        → only a (listen goflow store l es).out
          ≡ only a (listen goflow store l' (of_exporter a es)).out
    unfolding of_exporter
    listen_alike a [] l l' h k = unfold listen in k.records
    listen_alike a (received g none ∷ es) l l' h k =
        listen_going a l (received g none) es h.0
        ∙ elim (Bool-cases (addr_eq (exporter_addr g.from) a)) [
          | inl same ↦ rw same (
              listen_alike a es _ _ h.1
                (handle_own a l l' g (addr_eq_sound (exporter_addr g.from) a same) k)
              ∙ sym (listen_going a l' (received g none) (of_exporter a es) h.0))
          | inr apart ↦ rw apart (listen_alike a es _ l' h.1 (handle_other a l l' g apart k))
        ]
    listen_alike a (received g (some n) ∷ es) l l' h k = absurd h.0
    listen_alike a (read_failed b ∷ es) l l' h k =
        listen_going a l (read_failed b) es h.0
        ∙ listen_alike a es _ _ h.1 (handle_failed a l l' b k)
        ∙ sym (listen_going a l' (read_failed b) (of_exporter a es) h.0)
    listen_alike a (stored key value ∷ es) l l' h k =
        listen_going a l (stored key value) es tt
        ∙ listen_alike a es _ _ h.1 (handle_stored a l l' key value k)
        ∙ sym (listen_going a l' (stored key value) (of_exporter a es) tt)

    -- As long as neither the context nor the socket ends: the records that the listener sends for one
    -- exporter are those that it would send if the datagrams of all other exporters had never come,
    -- whatever came between, templates of the store and failed reads included.
    pub exporter_isolated :
        (a : Addr) (l : Listener goflow) (es : List Input)
        → All IsGoing es
        → only a (listen goflow store l es).out
          ≡ only a (listen goflow store l (of_exporter a es)).out
    exporter_isolated a l es h = listen_alike a es l l h (record { systems = refl; records = refl })
