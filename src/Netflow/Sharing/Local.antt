-- ===== src/Netflow/Sharing/Local.antt =====
-- internal/source/netflow/templates.go: the template store, as the listener uses it.
use netflow_collector.Base.{
  ℕ, ◌≡◌, refl, sym, ◌∙◌, Option, none, some, List, if◌then◌else◌, Bool-cases, inl, inr,
}
use netflow_collector.Flow.Addr.{Addr}
use netflow_collector.Flow.AddrMap.{addr_eq, addr_eq_sound, find, find-set}
use netflow_collector.Netflow.V5.{Packet5}
use netflow_collector.Netflow.Templated.{Packet}
use netflow_collector.Netflow.Decoder.{Goflow, Decoder, templates_for}
use netflow_collector.Netflow.Isolation.{open_ended}
use netflow_collector.Netflow.Listener.{Store}
use netflow_collector.Netflow.Sharing.{
  AddrText, Json, parse_template_key, Template, decode_template, Systems, TemplateSystem, own,
  publishing, goflow, install, apply_to, apply,
}

module _ (addrs : AddrText) (json : Json) (systems : Systems json) where
  open systems use {add}

  module _ (decode_legacy : List ℕ → Option Packet5)
      (decode_message : List ℕ
        → TemplateSystem addrs json systems
        → Option Packet × TemplateSystem addrs json systems) where
    abbrev pub shared : Goflow
    shared = goflow addrs json systems decode_legacy decode_message

    -- What a stored template makes of the system that it is for.
    abbrev pub installed :
        ℕ
        → ℕ
        → ℕ
        → Template json
        → TemplateSystem addrs json systems
        → TemplateSystem addrs json systems
    installed version domain id tpl (own s) = own s
    installed version domain id tpl (publishing p) =
        publishing (record p { inner = (add version domain id tpl p.inner).1 })

    pub install-installed :
        (d : Decoder shared) (e : Addr) (version domain id : ℕ) (tpl : Template json)
        (t : TemplateSystem addrs json systems) (a : Addr)
        → templates_for shared
            (install addrs json systems decode_legacy decode_message d e version domain id tpl t)
            a
          ≡ (if addr_eq e a then installed version domain id tpl t else templates_for shared d a)
    unfolding templates_for
    install-installed d e version domain id tpl (own s) a =
        rw (find-set a e (own s) d.templates)
          (open_ended shared (addr_eq e a) (find a d.templates) _ (d.new_system a))
    install-installed d e version domain id tpl (publishing p) a =
        rw (find-set a e (installed version domain id tpl (publishing p)) d.templates)
          (open_ended shared (addr_eq e a) (find a d.templates) _ (d.new_system a))

    apply_to_local :
        (d d' : Decoder shared) (k : Option (Addr × ℕ × ℕ × ℕ)) (o : Option (Template json))
        (a : Addr)
        → templates_for shared d a ≡ templates_for shared d' a
        → templates_for shared (apply_to addrs json systems decode_legacy decode_message d k o) a
          ≡ templates_for shared (apply_to addrs json systems decode_legacy decode_message d' k o) a
    apply_to_local d d' none o a h = h
    apply_to_local d d' (some k) none a h = h
    apply_to_local d d' (some (e, version, domain, id)) (some tpl) a h =
        install-installed d e version domain id tpl (templates_for shared d e) a
        ∙ elim (Bool-cases (addr_eq e a)) [
          | inl same ↦ rw (same, addr_eq_sound e a same, h) refl
          | inr apart ↦ rw (apart) h
        ]
        ∙ sym (install-installed d' e version domain id tpl (templates_for shared d' e) a)

    -- The listener's view of `apply`: each exporter's system depends on itself and on what is stored.
    pub shared_store : Store shared
    shared_store = record {
      apply = apply addrs json systems decode_legacy decode_message;
      apply_local = λ d d' key value a h.
          unfold apply in
          apply_to_local d d' (parse_template_key addrs key) (decode_template json value) a h;
    }
