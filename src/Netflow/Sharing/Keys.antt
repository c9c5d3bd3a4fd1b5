-- ===== src/Netflow/Sharing/Keys.antt =====
-- internal/source/netflow/templates.go: keys and envelopes are read back.
use Prim.Native.String.{String}
use netflow_collector.Base.{
  ℕ, ◌<◌, ◌^◌, ◌≡◌, refl, ap, ◌∙◌, Option, none, some, [], ◌∷◌, ◌++◌, arith, Text, Lacks, split,
  decimal, split-append, split-Lacks, decimal-Lacks, parse_uint-decimal,
}
use netflow_collector.Flow.Addr.{Addr}
use netflow_collector.Netflow.Sharing.{
  IsPlain, AddrText, Json, template_key, parse_template_key, Template, plain, nfv9_options,
  ipfix_options, other, encode_template, decode_template, in_envelope,
}

split_four :
    (a b c d : Text)
    → Lacks b'/' a
    → Lacks b'/' b
    → Lacks b'/' c
    → Lacks b'/' d
    → split b'/' (a ++ (b'/' ∷ (b ++ (b'/' ∷ (c ++ (b'/' ∷ d)))))) ≡ a ∷ b ∷ c ∷ d ∷ []
split_four a b c d ha hb hc hd =
    split-append b'/' a _ ha
    ∙ ap (a ∷◌) (
        split-append b'/' b _ hb
        ∙ ap (b ∷◌) (split-append b'/' c _ hc ∙ ap (c ∷◌) (split-Lacks b'/' d hd)))

module _ (addrs : AddrText) where
  open addrs use {string_of, parse_addr, parse_addr-string_of, string_of-Lacks}

  -- A key is read back as the exporter, version, domain and id that it was made of, if the exporter
  -- is an address without a zone and the numbers have the widths of their types.
  pub parse_template_key-template_key :
      (e : Addr) (version domain id : ℕ)
      → IsPlain e
      → version < 2 ^ 16
      → domain < 2 ^ 32
      → id < 2 ^ 16
      → parse_template_key addrs (template_key addrs e version domain id)
        ≡ some (e, version, domain, id)
  unfolding parse_template_key template_key
  parse_template_key-template_key e version domain id h hv hd hi =
      rw
        (
          split_four (string_of e) (decimal version) (decimal domain) (decimal id)
              (string_of-Lacks e h) (decimal-Lacks b'/' version (omega arith))
              (decimal-Lacks b'/' domain (omega arith)) (decimal-Lacks b'/' id (omega arith)),
          parse_addr-string_of e h,
          parse_uint-decimal 16 version (omega arith) hv,
          parse_uint-decimal 32 domain (omega arith) hd,
          parse_uint-decimal 16 id (omega arith) hi,
        )
        refl

module _ (json : Json) where
  open json use {
    marshal_record, marshal_nfv9, marshal_ipfix, unmarshal_record, marshal_envelope,
    unmarshal_envelope, record_law, nfv9_law, ipfix_law, envelope_law,
  }

  some_of_envelope :
      (kind : String) (o : Option Text) {t : Text}
      → in_envelope json kind o ≡ some t
      → (r : Text) × (o ≡ some r) × (unmarshal_envelope t ≡ some (kind, r))
  some_of_envelope kind none h = absurd (ground arith)
  some_of_envelope kind (some r) h = (r, refl, envelope_law kind r _ h)

  -- What was encoded is decoded.
  pub decode_template-encode_template :
      (tpl : Template json) {t : Text}
      → encode_template json tpl ≡ some t
      → decode_template json t ≡ some tpl
  unfolding encode_template decode_template
  decode_template-encode_template (plain r) h =
      let (b, marshalled, e) = some_of_envelope "template" (marshal_record r) h in
      rw (e, record_law r b marshalled) refl
  decode_template-encode_template (nfv9_options r) h =
      let (b, marshalled, e) = some_of_envelope "nfv9-options" (marshal_nfv9 r) h in
      rw (e, nfv9_law r b marshalled) refl
  decode_template-encode_template (ipfix_options r) h =
      let (b, marshalled, e) = some_of_envelope "ipfix-options" (marshal_ipfix r) h in
      rw (e, ipfix_law r b marshalled) refl
  decode_template-encode_template (other r) h = absurd (ground arith)
