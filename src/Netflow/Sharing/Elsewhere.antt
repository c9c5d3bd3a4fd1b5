-- ===== src/Netflow/Sharing/Elsewhere.antt =====
-- internal/source/netflow/templates.go: what one instance publishes, another applies.
use netflow_collector.Base.{
  ℕ, ◌+◌, ◌<◌, ◌≤◌, ◌^◌, ◌≡◌, refl, sym, ap, ◌∙◌, Bool, true, false, Option, none, some, List, [],
  ◌∷◌, ◌++◌, append-nil, append_assoc, length, length-append, lt→ltb, if◌then◌else◌, arith, Text,
}
use netflow_collector.Flow.Addr.{Addr}
use netflow_collector.Flow.AddrMap.{addr_eq, addr_eq_refl, addr_eq_sound}
use netflow_collector.Netflow.V5.{Packet5}
use netflow_collector.Netflow.Templated.{Packet}
use netflow_collector.Netflow.Decoder.{Goflow, Decoder, templates_for}
use netflow_collector.Netflow.Sharing.Local.{shared, install-installed}
use netflow_collector.Netflow.Sharing.Keys.{
  parse_template_key-template_key, decode_template-encode_template,
}
use netflow_collector.Netflow.Sharing.{
  IsPlain, AddrText, Json, Entry, publish_queue, template_key, Template, encode_template, Systems,
  PublishingSystem, TemplateSystem, publishing, enqueue_value, enqueue, if_added, add_template,
  install, apply,
}

module _ (addrs : AddrText) (json : Json) (systems : Systems json) where
  open systems use {System, add}

  enqueue_value_le :
      (queue : List Entry) (key : Text) (o : Option Text)
      → length queue ≤ publish_queue
      → length (enqueue_value addrs json systems queue key o) ≤ publish_queue
  unfolding enqueue_value
  enqueue_value_le queue key none h = h
  enqueue_value_le queue key (some v) h =
      ground (arith, length-append queue (record { key = key; value = v } ∷ []))

  enqueue-room :
      (queue : List Entry) (key : Text) (tpl : Template json) {v : Text}
      → length queue < publish_queue
      → encode_template json tpl ≡ some v
      → enqueue addrs json systems queue key tpl ≡ queue ++ (record { key = key; value = v } ∷ [])
  unfolding enqueue enqueue_value
  enqueue-room queue key tpl room e = rw (e, lt→ltb (length queue) publish_queue room) refl

  -- A call of AddTemplate by the decoder.
  pub record Call : Type 0 where
    pub version : ℕ
    pub domain : ℕ
    pub id : ℕ
    pub template : Template json

  abbrev pub added : Call → System → Bool × System
  added c s = add c.version c.domain c.id c.template s

  -- The system after these calls.
  unfoldable pub feed_calls : System → List Call → System
  feed_calls s [] = s
  feed_calls s (c ∷ cs) = feed_calls (added c s).1 cs

  -- The numbers have their widths, the template can be encoded, and goflow2 takes each.
  abbrev pub IsTaken : System → List Call → Type 0
  IsTaken s [] = Unit
  IsTaken s (c ∷ cs) =
      (c.version < 2 ^ 16)
      × (c.domain < 2 ^ 32)
      × (c.id < 2 ^ 16)
      × ((v : Text) × (encode_template json c.template ≡ some v))
      × ((added c s).0 ≡ true)
      × IsTaken (added c s).1 cs

  abbrev pub add_call :
      PublishingSystem addrs json systems
      → List Entry
      → Call
      → Bool × PublishingSystem addrs json systems × List Entry
  add_call p queue c = add_template addrs json systems p queue c.version c.domain c.id c.template

  unfoldable pub learn :
      PublishingSystem addrs json systems
      → List Entry
      → List Call
      → PublishingSystem addrs json systems × List Entry
  learn p queue [] = (p, queue)
  learn p queue (c ∷ cs) = let (_, q, more) = add_call p queue c in learn q more cs

  if_added_lem :
      (p : PublishingSystem addrs json systems) (queue : List Entry) (key : Text)
      (tpl : Template json) (x : Bool × System)
      → x.0 ≡ true
      → if_added addrs json systems p queue key tpl x
        ≡ (true, record p { inner = x.1 }, enqueue addrs json systems queue key tpl)
  if_added_lem p queue key tpl (true, s) e = refl
  if_added_lem p queue key tpl (false, s) e = absurd (ground arith)

  add_call_lem :
      (p : PublishingSystem addrs json systems) (queue : List Entry) (c : Call) {v : Text}
      → length queue < publish_queue
      → encode_template json c.template ≡ some v
      → (added c p.inner).0 ≡ true
      → add_call p queue c ≡ (
        true,
        record p { inner = (added c p.inner).1 },
        queue
            ++ (record { key = template_key addrs p.exporter c.version c.domain c.id; value = v }
                ∷ []),
      )
  unfolding add_template
  add_call_lem p queue c room e ok =
      if_added_lem p queue _ c.template (added c p.inner) ok
      ∙ ap (λ q. (true, record p { inner = (added c p.inner).1 }, q))
          (enqueue-room queue _ c.template room e)

  module _ (decode_legacy : List ℕ → Option Packet5)
      (decode_message : List ℕ
        → TemplateSystem addrs json systems
        → Option Packet × TemplateSystem addrs json systems) where
    abbrev here : Goflow
    here = shared addrs json systems decode_legacy decode_message

    abbrev pub apply_entry : Decoder here → Entry → Decoder here
    apply_entry d e = apply addrs json systems decode_legacy decode_message d e.key e.value

    unfoldable pub apply_all : Decoder here → List Entry → Decoder here
    apply_all d [] = d
    apply_all d (e ∷ es) = apply_all (apply_entry d e) es

    install_lem :
        (d : Decoder here) (e : Addr) (c : Call) (a : Addr) (t : TemplateSystem addrs json systems)
        {p : PublishingSystem addrs json systems}
        → t ≡ publishing p
        → templates_for here
            (install addrs json systems decode_legacy decode_message d e c.version c.domain c.id
              c.template t)
            a
          ≡ (if addr_eq e a
              then publishing (record p { inner = (added c p.inner).1 })
              else templates_for here d a)
    install_lem d e c a t h =
        install-installed addrs json systems decode_legacy decode_message d e c.version c.domain
          c.id c.template t a
        ∙ rw h refl

    apply_lem :
        (d : Decoder here) (e : Addr) (c : Call) (a : Addr) {v : Text}
        {p : PublishingSystem addrs json systems}
        → IsPlain e
        → c.version < 2 ^ 16
        → c.domain < 2 ^ 32
        → c.id < 2 ^ 16
        → encode_template json c.template ≡ some v
        → templates_for here d e ≡ publishing p
        → templates_for here
            (apply addrs json systems decode_legacy decode_message d
              (template_key addrs e c.version c.domain c.id)
              v)
            a
          ≡ (if addr_eq e a
              then publishing (record p { inner = (added c p.inner).1 })
              else templates_for here d a)
    unfolding apply
    apply_lem d e c a h hv hd hi encoded known =
        rw
          (
            parse_template_key-template_key addrs e c.version c.domain c.id h hv hd hi,
            decode_template-encode_template json c.template encoded,
          )
          (install_lem d e c a (templates_for here d e) known)

    learn_cons :
        (p : PublishingSystem addrs json systems) (queue : List Entry) (c : Call) (cs : List Call)
        {v : Text}
        → length queue < publish_queue
        → encode_template json c.template ≡ some v
        → (added c p.inner).0 ≡ true
        → learn p queue (c ∷ cs)
          ≡ learn
              (record p { inner = (added c p.inner).1 })
              (queue
                ++ (record {
                  key = template_key addrs p.exporter c.version c.domain c.id;
                  value = v;
                }
                    ∷ []))
              cs
    unfolding learn
    learn_cons p queue c cs room e ok = rw (add_call_lem p queue c room e ok) refl

    -- One instance learns templates of an exporter with a plain address; goflow2 takes each, and the
    -- queue has room for all. Then entries for them are queued, in order, and another instance that
    -- shares templates and applies these entries adds the same templates, in the same order and
    -- under the same version, domain and id, to its own system of that exporter, and to no other.
    pub learned_elsewhere :
        (p p' : PublishingSystem addrs json systems) (queue : List Entry) (cs : List Call)
        (d : Decoder here) (a : Addr)
        → IsPlain p.exporter
        → IsTaken p.inner cs
        → length queue + length cs ≤ publish_queue
        → templates_for here d p.exporter ≡ publishing p'
        → (es : List Entry) × ((learn p queue cs).1 ≡ queue ++ es)
          × (templates_for here (apply_all d es) a ≡ (
              if addr_eq p.exporter a
              then publishing (record p' { inner = feed_calls p'.inner cs })
              else templates_for here d a))
    unfolding learn apply_all feed_calls
    learned_elsewhere p p' queue [] d a h taken room known =
        ([], sym (append-nil queue), nothing (addr_eq p.exporter a) refl)
      where
        nothing :
            (b : Bool)
            → addr_eq p.exporter a ≡ b
            → templates_for here d a ≡ (if b then publishing p' else templates_for here d a)
        nothing true e = ap (templates_for here d) (sym (addr_eq_sound p.exporter a e)) ∙ known
        nothing false e = refl
    learned_elsewhere p p' queue (c ∷ cs) d a h (hv, hd, hi, (v, encoded), ok, later) room known =
        let e : Entry = record {
          key = template_key addrs p.exporter c.version c.domain c.id;
          value = v;
        } in
        let q = record p { inner = (added c p.inner).1 } in
        let q' = record p' { inner = (added c p'.inner).1 } in
        let next = apply_entry d e in
        let step : (b : Addr)
            → templates_for here next b
              ≡ (if addr_eq p.exporter b then publishing q' else templates_for here d b) =
          λ b. apply_lem d p.exporter c b h hv hd hi encoded known in
        let (es, queued, rest) =
          learned_elsewhere q q' (queue ++ (e ∷ [])) cs next a h later
            (omega (arith, length-append queue (e ∷ [])))
            (step p.exporter ∙ rw (addr_eq_refl p.exporter) refl) in
        (
          e ∷ es,
          ap (λ x. x.1) (learn_cons p queue c cs (omega arith) encoded ok)
              ∙ queued
              ∙ append_assoc queue (e ∷ []) es,
          rest ∙ rw (step a) (ground arith),
        )
