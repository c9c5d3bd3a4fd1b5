-- ===== src/Flow/Addr.antt =====
-- net/netip.Addr: the invalid zero Addr, an IPv4 address (32 bits) or an IPv6 address (128 bits)
-- with its zone, empty for most.
use Prim.Native.String.{String}
use text.Mathlib.Text.{◌==◌ as str_eq}
use netflow_collector.Base.{
  ℕ, zero, suc, ◌+◌, ◌*◌, ◌/◌, ◌%◌, ◌^◌, ◌≡◌, refl, Bool, true, false, ◌&&◌, List, [], ◌∷◌, ◌==◌,
  length, if◌then◌else◌, arith,
}

pub data Addr : Type 0 where
  invalid : Addr
  v4 : ℕ → Addr
  v6 : ℕ → String → Addr

unfoldable pub is_valid : Addr → Bool
is_valid invalid = false
is_valid (v4 n) = true
is_valid (v6 n zone) = true

-- `Unmap`: an IPv4-mapped IPv6 address becomes the IPv4 address.
unfoldable pub unmap : Addr → Addr
unmap invalid = invalid
unmap (v4 n) = v4 n
unmap (v6 n zone) = if n / 2 ^ 32 == 0xffff then v4 (n % 2 ^ 32) else v6 n zone

unfoldable pub is_unspecified : Addr → Bool
is_unspecified invalid = false
is_unspecified (v4 n) = n == 0
is_unspecified (v6 n zone) = (n == 0) && str_eq zone ""

-- `As16`, as a 128-bit number.
unfoldable pub as_16 : Addr → ℕ
as_16 invalid = 0
as_16 (v4 n) = 0xffff * 2 ^ 32 + n
as_16 (v6 n zone) = n

-- Big-endian bytes to a number.
abbrev pub of_bytes : ℕ → List ℕ → ℕ
of_bytes acc [] = acc
of_bytes acc (b ∷ bs) = of_bytes (acc * 256 + b) bs

-- The `n` big-endian bytes of a number, before `rest`.
unfoldable pub to_bytes : ℕ → ℕ → List ℕ → List ℕ
to_bytes zero x rest = rest
to_bytes (suc n) x rest = to_bytes n (x / 256) (x % 256 ∷ rest)

-- `AddrFromSlice`: the invalid Addr unless there are 4 or 16 bytes.
unfoldable pub addr_from_slice : List ℕ → Addr
addr_from_slice bs =
    if length bs == 4
    then v4 (of_bytes 0 bs)
    else if length bs == 16
    then v6 (of_bytes 0 bs) ""
    else invalid

-- `AsSlice`
unfoldable pub as_slice : Addr → List ℕ
unfolding to_bytes
as_slice invalid = []
as_slice (v4 n) = to_bytes 4 n []
as_slice (v6 n zone) = to_bytes 16 n []

-- Unmapping twice is unmapping once.
pub unmap-unmap : (a : Addr) → unmap (unmap a) ≡ unmap a
unfolding unmap
unmap-unmap invalid = refl
unmap-unmap (v4 n) = refl
unmap-unmap (v6 n zone) = ground arith

pub is_valid-unmap : (a : Addr) → is_valid (unmap a) ≡ is_valid a
unfolding unmap is_valid
is_valid-unmap invalid = refl
is_valid-unmap (v4 n) = refl
is_valid-unmap (v6 n zone) = ground arith

-- Unmapping does not change the 16-byte form.
pub as_16-unmap : (a : Addr) → as_16 (unmap a) ≡ as_16 a
unfolding unmap as_16
as_16-unmap invalid = refl
as_16-unmap (v4 n) = refl
as_16-unmap (v6 n zone) = ground arith
