-- ===== src/Netflow/Sharing.antt =====
-- internal/source/netflow/templates.go: templates learned here are published, those of the store are
-- applied. Keys are texts as lists of bytes.
use Prim.Native.String.{String}
use text.Mathlib.Text.{◌==◌ as str_eq}
use netflow_collector.Base.{
  ℕ, suc, ◌<◌, ◌^◌, ◌≡◌, Bool, true, false, Option, none, some, List, [], ◌∷◌, ◌++◌, length, ltb,
  if◌then◌else◌, Text, Lacks, split, decimal, parse_uint,
}
use netflow_collector.Flow.Addr.{Addr, invalid}
use netflow_collector.Flow.AddrMap.{set}
use netflow_collector.Netflow.V5.{Packet5}
use netflow_collector.Netflow.Templated.{Packet}
use netflow_collector.Netflow.Decoder.{Goflow, Decoder, templates_for}
pub mod Keys
pub mod Elsewhere
pub mod Local

-- A valid address without a zone.
abbrev pub IsPlain : Addr → Type 0
IsPlain invalid = ⊥
IsPlain (Addr.v4 n) = Unit
IsPlain (Addr.v6 n zone) = zone ≡ ""

-- net/netip: `Addr.String` and `ParseAddr`.
pub record AddrText : Type 0 where
  pub string_of : Addr → Text
  pub parse_addr : Text → Option Addr
  pub parse_addr-string_of : (a : Addr) → IsPlain a → parse_addr (string_of a) ≡ some a
  pub string_of-Lacks : (a : Addr) → IsPlain a → Lacks b'/' (string_of a)

-- encoding/json on goflow2's template records and on the envelope: unmarshalling undoes marshalling.
pub record Json : Type 1 where
  pub Record : Type 0
  pub Nfv9Options : Type 0
  pub IpfixOptions : Type 0
  pub Other : Type 0
  pub marshal_record : Record → Option Text
  pub marshal_nfv9 : Nfv9Options → Option Text
  pub marshal_ipfix : IpfixOptions → Option Text
  pub unmarshal_record : Text → Option Record
  pub unmarshal_nfv9 : Text → Option Nfv9Options
  pub unmarshal_ipfix : Text → Option IpfixOptions
  pub marshal_envelope : String → Text → Option Text
  pub unmarshal_envelope : Text → Option (String × Text)
  pub record_law : (r : Record) (t : Text) → marshal_record r ≡ some t → unmarshal_record t ≡ some r
  pub nfv9_law : (r : Nfv9Options) (t : Text) → marshal_nfv9 r ≡ some t → unmarshal_nfv9 t ≡ some r
  pub ipfix_law :
      (r : IpfixOptions) (t : Text) → marshal_ipfix r ≡ some t → unmarshal_ipfix t ≡ some r
  pub envelope_law :
      (k : String) (r t : Text) → marshal_envelope k r ≡ some t → unmarshal_envelope t ≡ some (k, r)

pub record Entry : Type 0 where
  pub key : Text
  pub value : Text

abbrev pub publish_queue : ℕ
publish_queue = 1024

module _ (addrs : AddrText) where
  open addrs use {string_of, parse_addr}

  unfoldable pub template_key : Addr → ℕ → ℕ → ℕ → Text
  template_key exporter version domain id =
      string_of exporter
      ++ (b'/' ∷ (decimal version ++ (b'/' ∷ (decimal domain ++ (b'/' ∷ decimal id)))))

  -- The four parts of a key, with the addresses and numbers that could be read.
  abbrev key_of : Option Addr → Option ℕ → Option ℕ → Option ℕ → Option (Addr × ℕ × ℕ × ℕ)
  key_of (some e) (some v) (some d) (some i) = some (e, v, d, i)
  key_of (some e) (some v) (some d) none = none
  key_of (some e) (some v) none i = none
  key_of (some e) none d i = none
  key_of none v d i = none

  abbrev parse_parts : List Text → Option (Addr × ℕ × ℕ × ℕ)
  parse_parts (e ∷ v ∷ d ∷ i ∷ []) =
      key_of (parse_addr e) (parse_uint 16 v) (parse_uint 32 d) (parse_uint 16 i)
  parse_parts (e ∷ v ∷ d ∷ i ∷ x ∷ more) = none
  parse_parts (e ∷ v ∷ d ∷ []) = none
  parse_parts (e ∷ v ∷ []) = none
  parse_parts (e ∷ []) = none
  parse_parts [] = none

  unfoldable pub parse_template_key : Text → Option (Addr × ℕ × ℕ × ℕ)
  parse_template_key key = parse_parts (split b'/' key)

module _ (json : Json) where
  open json use {
    Record, Nfv9Options, IpfixOptions, Other, marshal_record, marshal_nfv9, marshal_ipfix,
    unmarshal_record, unmarshal_nfv9, unmarshal_ipfix, marshal_envelope, unmarshal_envelope,
  }

  -- What the decoder hands to AddTemplate.
  pub data Template : Type 0 where
    plain : Record → Template
    nfv9_options : Nfv9Options → Template
    ipfix_options : IpfixOptions → Template
    other : Other → Template

  abbrev pub in_envelope : String → Option Text → Option Text
  in_envelope kind none = none
  in_envelope kind (some r) = marshal_envelope kind r

  unfoldable pub encode_template : Template → Option Text
  encode_template (plain r) = in_envelope "template" (marshal_record r)
  encode_template (nfv9_options r) = in_envelope "nfv9-options" (marshal_nfv9 r)
  encode_template (ipfix_options r) = in_envelope "ipfix-options" (marshal_ipfix r)
  encode_template (other t) = none

  abbrev through {ℓ} : {A : Type ℓ} → (A → Template) → Option A → Option Template
  through f none = none
  through f (some a) = some (f a)

  abbrev of_kind : Option (String × Text) → Option Template
  of_kind none = none
  of_kind (some (kind, r)) =
      if str_eq kind "template"
      then through plain (unmarshal_record r)
      else if str_eq kind "nfv9-options"
      then through nfv9_options (unmarshal_nfv9 r)
      else if str_eq kind "ipfix-options"
      then through ipfix_options (unmarshal_ipfix r)
      else none

  -- The value is the one that Unmarshal has filled in.
  unfoldable pub decode_template : Text → Option Template
  decode_template b = of_kind (unmarshal_envelope b)

  -- goflow2's own template system; each call says whether it succeeded.
  pub record Systems : Type 1 where
    pub System : Type 0
    pub create : System
    pub add : ℕ → ℕ → ℕ → Template → System → Bool × System
    pub get : ℕ → ℕ → ℕ → System → Option Template
    pub remove : ℕ → ℕ → ℕ → System → Option Template × System

module _ (addrs : AddrText) (json : Json) (systems : Systems json) where
  open systems use {System, create, add, get, remove}

  pub record PublishingSystem : Type 0 where
    pub inner : System
    pub exporter : Addr

  -- The dynamic types behind NetFlowTemplateSystem.
  pub data TemplateSystem : Type 0 where
    own : System → TemplateSystem
    publishing : PublishingSystem → TemplateSystem

  unfoldable pub shared_system : Addr → TemplateSystem
  shared_system exporter = publishing (record { inner = create; exporter = exporter })

  unfoldable pub enqueue_value : List Entry → Text → Option Text → List Entry
  enqueue_value queue key none = queue
  enqueue_value queue key (some value) =
      if ltb (length queue) publish_queue
      then queue ++ (record { key = key; value = value } ∷ [])
      else queue

  unfoldable pub enqueue : List Entry → Text → Template json → List Entry
  unfolding enqueue_value
  enqueue queue key tpl = enqueue_value queue key (encode_template json tpl)

  abbrev pub if_added :
      PublishingSystem
      → List Entry
      → Text
      → Template json
      → Bool × System
      → Bool × PublishingSystem × List Entry
  if_added p queue key tpl (false, s) = (false, record p { inner = s }, queue)
  if_added p queue key tpl (true, s) = (true, record p { inner = s }, enqueue queue key tpl)

  -- AddTemplate, with the queue of the instance.
  unfoldable pub add_template :
      PublishingSystem
      → List Entry
      → ℕ
      → ℕ
      → ℕ
      → Template json
      → Bool × PublishingSystem × List Entry
  add_template p queue version domain id tpl =
      if_added p queue (template_key addrs p.exporter version domain id) tpl
        (add version domain id tpl p.inner)

  unfoldable pub get_template : PublishingSystem → ℕ → ℕ → ℕ → Option (Template json)
  get_template p version domain id = get version domain id p.inner

  unfoldable pub remove_template :
      PublishingSystem → ℕ → ℕ → ℕ → Option (Template json) × PublishingSystem
  remove_template p version domain id =
      let (tpl, s) = remove version domain id p.inner in (tpl, record p { inner = s })

  module _ (decode_legacy : List ℕ → Option Packet5)
      (decode_message : List ℕ → TemplateSystem → Option Packet × TemplateSystem) where
    abbrev pub goflow : Goflow
    goflow = record {
      System = TemplateSystem;
      decode_legacy = decode_legacy;
      decode_message = decode_message;
    }

    abbrev pub install :
        Decoder goflow → Addr → ℕ → ℕ → ℕ → Template json → TemplateSystem → Decoder goflow
    install d e version domain id tpl (own s) = record d { templates = set e (own s) d.templates }
    install d e version domain id tpl (publishing p) =
        let after = (add version domain id tpl p.inner).1 in
        record d { templates = set e (publishing (record p { inner = after })) d.templates }

    abbrev pub apply_to :
        Decoder goflow → Option (Addr × ℕ × ℕ × ℕ) → Option (Template json) → Decoder goflow
    apply_to d none tpl = d
    apply_to d (some k) none = d
    apply_to d (some (e, version, domain, id)) (some tpl) =
        install d e version domain id tpl (templates_for goflow d e)

    unfoldable pub apply : Decoder goflow → Text → Text → Decoder goflow
    apply d key value = apply_to d (parse_template_key addrs key) (decode_template json value)

    -- `newDecoder`, and what WithTemplateStore makes of it.
    unfoldable pub new_decoder : Bool → Decoder goflow
    unfolding shared_system
    new_decoder true = record { templates = []; new_system = shared_system }
    new_decoder false = record { templates = []; new_system = λ _. own create }

    -- `New`, with whether a template store is shared: none is its error, for a missing address.
    unfoldable pub new_source : String → Bool → Option (Decoder goflow)
    unfolding new_decoder
    new_source addr sharing = if str_eq addr "" then none else some (new_decoder sharing)

-- `publish`, until the queue is empty: an entry whose Put fails is dropped.
unfoldable pub publish : {S : Type 0} → (Text → Text → S → Bool × S) → List Entry → S → S
publish put [] s = s
publish put (e ∷ es) s = publish put es (put e.key e.value s).1
