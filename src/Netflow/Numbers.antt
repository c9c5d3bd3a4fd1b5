-- ===== src/Netflow/Numbers.antt =====
-- internal/source/netflow/decode.go: numbers, addresses and times in a datagram.
use netflow_collector.Base.{
  ℕ, zero, suc, ◌+◌, ◌-◌, ◌*◌, ◌/◌, ◌%◌, ◌^◌, ◌<◌, ◌≡◌, refl, ap, List, [], ◌∷◌, All, ltb,
  if◌then◌else◌, ◌==◌, arith, ◌∙◌,
}
use netflow_collector.Flow.Time.{Time, second, millisecond, trunc_micro, unix_offset}
use netflow_collector.Flow.Addr.{Addr, invalid, of_bytes, to_bytes, addr_from_slice}

-- The loop of `beUint`, on a uint64.
unfoldable pub be_from : ℕ → List ℕ → ℕ
be_from n [] = n
be_from n (c ∷ cs) = be_from (n * 256 % 2 ^ 64 + c) cs

unfoldable pub be_uint : List ℕ → ℕ
be_uint b = be_from 0 b

abbrev pub addr : List ℕ → Addr
addr b = addr_from_slice b

-- The four bytes of a uint32 are its value again.
abbrev pub ipv4 : ℕ → Addr
ipv4 n = Addr.v4 n

unfoldable pub next_hop_4 : ℕ → Addr
next_hop_4 n = if n == 0 then invalid else ipv4 n

-- `ms` is a uint32: the duration does not overflow.
abbrev pub uptime_to_time : Time → ℕ → Time
uptime_to_time boot ms = trunc_micro (boot + ms * millisecond)

-- The Unix epoch as an instant.
abbrev pub epoch : Time
epoch = (2 ^ 63 + unix_offset) * second

-- `time.UnixMilli(int64(ms))`, of a uint64.
abbrev pub unix_milli : ℕ → Time
unix_milli ms =
    if ltb ms (2 ^ 63) then epoch + ms * millisecond else epoch - (2 ^ 64 - ms) * millisecond

-- The NTP format: 32 bits of seconds since 1900 and 32 bits of fraction. The float64 product is exact
-- (53 bits hold 32 bits times 10^9), so its conversion is the floor.
abbrev pub ntp_to_time : ℕ → Time
ntp_to_time v =
    trunc_micro
      (epoch + v / 2 ^ 32 * second - 2_208_988_800 * second + v % 2 ^ 32 * second / 2 ^ 32)

be_from-of_bytes :
    (m : ℕ) (b : List ℕ) → All (λ c. c < 256) b → be_from (m % 2 ^ 64) b ≡ of_bytes m b % 2 ^ 64
unfolding be_from
be_from-of_bytes m [] h = refl
be_from-of_bytes m (c ∷ cs) h =
    ap (λ n. be_from n cs) (omega (arith, h.0)) ∙ be_from-of_bytes (m * 256 + c) cs h.1

-- `beUint` reads bytes as a big-endian number modulo 2^64: exactly, where there are at most eight.
pub be_uint_lem : (b : List ℕ) → All (λ c. c < 256) b → be_uint b ≡ of_bytes 0 b % 2 ^ 64
unfolding be_uint
be_uint_lem b h = be_from-of_bytes 0 b h

pub of_bytes-to_bytes :
    (n x : ℕ) (rest : List ℕ) → x < 256 ^ n → of_bytes 0 (to_bytes n x rest) ≡ of_bytes x rest
unfolding to_bytes
of_bytes-to_bytes zero x rest h = ap (λ y. of_bytes y rest) (omega arith)
of_bytes-to_bytes (suc n) x rest h =
    of_bytes-to_bytes n (x / 256) (x % 256 ∷ rest) (omega arith)
    ∙ ap (λ y. of_bytes y rest) (omega arith)
