-- ===== src/Kafka/Dedup.antt =====
-- internal/source/kafka/kafka.go: `Decode` and `DedupKey`.
use netflow_collector.Base.{Option, none, ◌+◌, ℕ, some, List, [], ◌∷◌, take}
use netflow_collector.Flow.Time.{Time, unix_micro, trunc_micro}
use netflow_collector.Flow.Addr.{as_16, to_bytes}
use netflow_collector.Flow.Record.{FlowRecord}
use netflow_collector.Wire.{Codec, Decoded, ok, err, decode}

-- The 61 bytes that are digested: exporter, first switched, addresses, ports and protocol.
unfoldable pub key_bytes : ℕ → ℕ → ℕ → ℕ → ℕ → ℕ → ℕ → List ℕ
key_bytes e t s d sport dport protocol = to_bytes 16 e (
    to_bytes 8 t
      (to_bytes 16 s (to_bytes 16 d (to_bytes 2 sport (to_bytes 2 dport (protocol ∷ []))))))

unfoldable pub natural_key : FlowRecord → List ℕ
natural_key r =
    key_bytes (as_16 r.exporter_addr) (unix_micro (trunc_micro r.first_switched)) (as_16 r.src_addr)
      (as_16 r.dst_addr) r.src_port r.dst_port r.protocol

-- `Source.decode`: the record, or none and one more decode error.
unfoldable pub count_errors : Decoded → ℕ → Option FlowRecord × ℕ
count_errors (ok r) errors = (some r, errors)
count_errors (err e) errors = (none, errors + 1)

-- `crypto/sha256.Sum256` is a parameter.
module _ (sum_256 : List ℕ → List ℕ) where
  unfoldable pub dedup_key : FlowRecord → List ℕ
  dedup_key r = take 16 (sum_256 (natural_key r))

  unfoldable pub stamp : Decoded → Decoded
  unfolding dedup_key
  stamp (ok r) = ok (record r { dedup_key = some (dedup_key r) })
  stamp (err e) = err e

  module _ (codec : Codec) where
    open codec use {Body}

    unfoldable pub decode_message : Body → Time → Decoded
    unfolding stamp decode
    decode_message body record_time = stamp (decode codec body record_time)
