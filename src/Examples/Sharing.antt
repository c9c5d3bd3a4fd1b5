-- ===== src/Examples/Sharing.antt =====
-- Two instances that share templates, a replay of two partitions, and two exporters at one listener.
use Prim.Native.String.{String}
use text.Mathlib.Text.{◌==◌ as str_eq}
use text.Mathlib.TextEquality.{eq_iff}
use netflow_collector.Base.{
  ℕ, ◌+◌, ◌-◌, ◌≡◌, refl, ap, true, false, Option, none, some, List, [], ◌∷◌, ◌==◌, if◌then◌else◌,
  arith, Text, Lacks,
}
use netflow_collector.Base.Int.{pos}
use netflow_collector.Flow.Addr.{Addr, invalid, unmap, addr_from_slice}
use netflow_collector.Flow.AddrMap.{addr_eq, find}
use netflow_collector.Netflow.Decoder.{Goflow, Decoder, templates_for, or_new}
use netflow_collector.Netflow.V5.{Packet5}
use netflow_collector.Netflow.Templated.{Packet, nfv9}
use netflow_collector.Netflow.Sharing.{
  IsPlain, AddrText, Json, Entry, Template, plain, nfv9_options, Systems, PublishingSystem,
  TemplateSystem, publishing, new_decoder, shared_system, encode_template,
}
use netflow_collector.Netflow.Sharing.Elsewhere.{
  Call, feed_calls, learn, apply_all, learned_elsewhere,
}
use netflow_collector.Netflow.Sharing.Local.{shared, shared_store}
use netflow_collector.Netflow.Listener.{
  Datagram, udp, exporter_addr, Store, Input, received, read_failed, stored, Listener, listen,
}
use netflow_collector.Netflow.Listener.Exporters.{only, of_exporter, exporter_isolated}
use netflow_collector.TemplateStore.{StoredRecord, Fetches, watch}
use netflow_collector.TemplateStore.Remaining.{reached, all_settled, delivered}
use netflow_collector.TemplateStore.Synced.{watch_synced}

-- An address as a tag and a number that is no separator.
abbrev text_of : Addr → Text
text_of invalid = []
text_of (Addr.v4 n) = 52 ∷ (128 + n) ∷ []
text_of (Addr.v6 n zone) = 54 ∷ (128 + n) ∷ []

abbrev addr_of : Text → Option Addr
addr_of (c ∷ n ∷ []) = some (if c == 52 then Addr.v4 (n - 128) else Addr.v6 (n - 128) "")
addr_of _ = none

addr_of-text_of : (a : Addr) → IsPlain a → addr_of (text_of a) ≡ some a
addr_of-text_of invalid h = absurd h
addr_of-text_of (Addr.v4 n) h = ap (λ m. some (Addr.v4 m)) (omega arith)
addr_of-text_of (Addr.v6 n zone) h = rw h (ap (λ m. some (Addr.v6 m "")) (omega arith))

text_of-Lacks : (a : Addr) → IsPlain a → Lacks b'/' (text_of a)
text_of-Lacks invalid h = absurd h
text_of-Lacks (Addr.v4 n) h = ground arith
text_of-Lacks (Addr.v6 n zone) h = ground arith

abbrev addrs : AddrText
addrs = record {
  string_of = text_of;
  parse_addr = addr_of;
  parse_addr-string_of = addr_of-text_of;
  string_of-Lacks = text_of-Lacks;
}

abbrev number : Text → Option ℕ
number (n ∷ []) = some n
number _ = none

abbrev wrap : String → Text → Option Text
wrap kind r =
    if str_eq kind "template"
    then some (1 ∷ r)
    else if str_eq kind "nfv9-options"
    then some (2 ∷ r)
    else if str_eq kind "ipfix-options"
    then some (3 ∷ r)
    else none

abbrev unwrap : Text → Option (String × Text)
unwrap [] = none
unwrap (c ∷ r) =
    if c == 1
    then some ("template", r)
    else if c == 2
    then some ("nfv9-options", r)
    else some ("ipfix-options", r)

unwrap-wrap : (kind : String) (r t : Text) → wrap kind r ≡ some t → unwrap t ≡ some (kind, r)
unwrap-wrap kind r t h =
    ground (arith, eq_iff kind "template", eq_iff kind "nfv9-options", eq_iff kind "ipfix-options")

number_lem : (n : ℕ) (t : Text) → some (n ∷ []) ≡ some t → number t ≡ some n
number_lem n t h = ground (arith, h)

abbrev json : Json
json = record {
  Record = ℕ;
  Nfv9Options = ℕ;
  IpfixOptions = ℕ;
  Other = Unit;
  marshal_record = λ n. some (n ∷ []);
  marshal_nfv9 = λ n. some (n ∷ []);
  marshal_ipfix = λ n. some (n ∷ []);
  unmarshal_record = number;
  unmarshal_nfv9 = number;
  unmarshal_ipfix = number;
  marshal_envelope = wrap;
  unmarshal_envelope = unwrap;
  record_law = number_lem;
  nfv9_law = number_lem;
  ipfix_law = number_lem;
  envelope_law = unwrap-wrap;
}

-- A system that keeps the calls.
abbrev systems : Systems json
systems = record {
  System = List (ℕ × ℕ × ℕ × Template json);
  create = [];
  add = λ v d i t s. (true, (v, d, i, t) ∷ s);
  get = λ v d i s. none;
  remove = λ v d i s. (none, s);
}

abbrev calls : List (Call addrs json systems)
calls =
    record { version = 10; domain = 7; id = 256; template = plain 5 }
    ∷ record { version = 9; domain = 0; id = 257; template = nfv9_options 6 }
    ∷ []

abbrev edge : PublishingSystem addrs json systems
edge = record { inner = []; exporter = Addr.v4 1 }

abbrev no_packet5 : List ℕ → Option Packet5
no_packet5 b = none

abbrev keep :
    List ℕ → TemplateSystem addrs json systems → Option Packet × TemplateSystem addrs json systems
keep b s = (some (nfv9 0 0 []), s)

abbrev instance_here : Goflow
instance_here = shared addrs json systems no_packet5 keep

abbrev other_instance : Decoder instance_here
other_instance = new_decoder addrs json systems no_packet5 keep true

other_instance-edge : templates_for instance_here other_instance (Addr.v4 1) ≡ publishing edge
unfolding templates_for new_decoder shared_system find or_new
other_instance-edge = refl

learned_elsewhere_example :
    (es : List Entry) × ((learn addrs json systems edge [] calls).1 ≡ es)
    × (templates_for instance_here
          (apply_all addrs json systems no_packet5 keep other_instance es)
          (Addr.v4 1)
        ≡ publishing (record edge { inner = feed_calls addrs json systems [] calls }))
unfolding addr_eq encode_template
learned_elsewhere_example =
    learned_elsewhere addrs json systems no_packet5 keep edge edge [] calls other_instance
      (Addr.v4 1) tt
      (
        omega arith,
        omega arith,
        omega arith,
        (1 ∷ 5 ∷ [], refl),
        refl,
        (omega arith, omega arith, omega arith, (2 ∷ 6 ∷ [], refl), refl, tt),
      )
      (omega arith) other_instance-edge

abbrev listener : Listener instance_here
listener = record { dec = other_instance; out = []; decode_errors = 0 }

abbrev from : ℕ → Datagram
from n = record { bytes = 0 ∷ 9 ∷ []; from = udp (10 ∷ 0 ∷ 0 ∷ n ∷ []); at = 5 }

abbrev events : List Input
events =
    received (from 1) none
    ∷ stored [] []
    ∷ received (from 2) none
    ∷ read_failed false
    ∷ received (from 1) none
    ∷ []

abbrev store_here : Store instance_here
store_here = shared_store addrs json systems no_packet5 keep

exporter_isolated_example :
    only (Addr.v4 167_772_161) (listen instance_here store_here listener events).out
    ≡ only
        (Addr.v4 167_772_161)
        (listen instance_here store_here listener (
          received (from 1) none
          ∷ stored [] []
          ∷ read_failed false
          ∷ received (from 1) none
          ∷ [])).out
unfolding of_exporter exporter_addr addr_eq unmap addr_from_slice
exporter_isolated_example =
    exporter_isolated instance_here store_here (Addr.v4 167_772_161) listener events
      (tt, (tt, (tt, (refl, (tt, tt)))))

abbrev at_offset : ℕ → ℕ → StoredRecord
at_offset p n = record { partition = p; offset = n; key = []; value = n ∷ [] }

abbrev polls : List Fetches
polls =
    record { ended = false; canceled = []; records = at_offset 0 0 ∷ at_offset 1 4 ∷ [] }
    ∷ record { ended = false; canceled = true ∷ []; records = at_offset 0 1 ∷ [] }
    ∷ record { ended = true; canceled = []; records = at_offset 0 2 ∷ [] }
    ∷ []

watch_synced_example :
    ((watch true (some ((0, pos 2) ∷ (1, pos 5) ∷ (2, pos 0) ∷ [])) polls).1.applied
      ≡ ([], 0 ∷ []) ∷ ([], 4 ∷ []) ∷ ([], 1 ∷ []) ∷ [])
    × ((watch true (some ((0, pos 2) ∷ (1, pos 5) ∷ (2, pos 0) ∷ [])) polls).1.synced ≡ 1)
unfolding delivered all_settled reached
watch_synced_example =
    watch_synced ((0, pos 2) ∷ (1, pos 5) ∷ (2, pos 0) ∷ []) polls
      ((refl, (refl, tt)), ((refl, tt), (tt, tt)))
