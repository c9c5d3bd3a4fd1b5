-- ===== src/Sink/Cursor.antt =====
-- internal/sink/postgres/postgres.go: the page token.
use Prim.Native.String.{String}
use netflow_collector.Base.{
  ℕ, ◌+◌, ◌-◌, ◌*◌, ◌%◌, ◌^◌, ◌<◌, ◌≤◌, ◌≡◌, ◌≢◌, Option, some, ltb, if◌then◌else◌, arith,
}
use netflow_collector.Flow.Time.{Time}
use netflow_collector.Netflow.Numbers.{epoch}

-- Both numbers are int64s; `t` is given by its bit pattern, `seq` is never negative.
pub record Cursor : Type 0 where
  pub t : ℕ
  pub seq : ℕ

-- `UnixNano` of an instant, as an int64's bit pattern.
abbrev pub unix_nano : Time → ℕ
unix_nano at = (at + 2 ^ 64 * 1_000_000_000 - epoch) % 2 ^ 64

-- `time.Unix(0, c.T)`
abbrev pub at_of : Cursor → Time
at_of c = if ltb c.t (2 ^ 63) then epoch + c.t else epoch - (2 ^ 64 - c.t)

-- The years 1678 to 2262, outside of which `UnixNano` is not defined.
pub record HasNanos (at : Time) : Type 0 where
  pub low : epoch ≤ at + 2 ^ 63
  pub high : at < epoch + 2 ^ 63

-- encoding/json and encoding/base64 at `cursor`: a token is not empty, and is decoded to what was encoded.
pub record Tokens : Type 0 where
  pub encode_cursor : Cursor → String
  pub decode_cursor : String → Option Cursor
  pub decode-encode : (c : Cursor) → decode_cursor (encode_cursor c) ≡ some c
  pub encode-nonempty : (c : Cursor) → encode_cursor c ≢ ""

pub at_of-unix_nano :
    (at : Time) (seq : ℕ) → HasNanos at → at_of (record { t = unix_nano at; seq = seq }) ≡ at
at_of-unix_nano at seq h = ground (arith, h)
