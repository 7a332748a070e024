-- ===== src/Transfer/Words.antt =====
-- The integers of the frame, as the programs move them on a little-endian host: htonl and ntohl swap
-- the bytes, htonll_u64 and ntohll_u64 swap the halves as well, and memcpy copies the bytes from the
-- lowest one up.
use nss_i_assignments.Base.{
  ℕ, zero, suc, ◌+◌, ◌*◌, ◌/◌, ◌%◌, ◌^◌, ◌<◌, ◌≡◌, refl, [], ◌∷◌, Bytes, length, arith,
}

-- memcpy of an integer of n bytes into the frame, and back.
unfoldable pub to_bytes : ℕ → ℕ → Bytes
to_bytes zero v = []
to_bytes (suc n) v = (v % 256) ∷ to_bytes n (v / 256)

unfoldable pub from_bytes : Bytes → ℕ
from_bytes [] = 0
from_bytes (b ∷ bs) = b + 256 * from_bytes bs

-- htonl and ntohl
unfoldable pub swap32 : ℕ → ℕ
swap32 v = v % 256 * 2 ^ 24 + v / 2 ^ 8 % 256 * 2 ^ 16 + v / 2 ^ 16 % 256 * 2 ^ 8 + v / 2 ^ 24 % 256

unfoldable pub htonll_u64 : ℕ → ℕ
htonll_u64 v =
    let hi = swap32 (v / 2 ^ 32 % 2 ^ 32) in let lo = swap32 (v % 2 ^ 32) in lo * 2 ^ 32 + hi

unfoldable pub ntohll_u64 : ℕ → ℕ
ntohll_u64 v =
    let hi = swap32 (v / 2 ^ 32 % 2 ^ 32) in let lo = swap32 (v % 2 ^ 32) in lo * 2 ^ 32 + hi

pub length-to_bytes : (n v : ℕ) → length (to_bytes n v) ≡ n
unfolding to_bytes
length-to_bytes zero v = refl
length-to_bytes (suc n) v = omega (arith, length-to_bytes n (v / 256))

pub swap32-lt : (v : ℕ) → swap32 v < 2 ^ 32
unfolding swap32
swap32-lt v = omega arith

pub swap32-swap32 : (v : ℕ) → v < 2 ^ 32 → swap32 (swap32 v) ≡ v
unfolding swap32
swap32-swap32 v h = omega arith

-- ntohll_u64 undoes htonll_u64 on every 64-bit integer.
pub ntohll_u64-htonll_u64 : (v : ℕ) → v < 2 ^ 64 → ntohll_u64 (htonll_u64 v) ≡ v
unfolding ntohll_u64 htonll_u64 swap32
ntohll_u64-htonll_u64 v h =
    let hi = v / 2 ^ 32 % 2 ^ 32 in
    let lo = v % 2 ^ 32 in
    omega (
      arith,
      swap32-lt hi,
      swap32-lt lo,
      swap32-swap32 hi (omega arith),
      swap32-swap32 lo (omega arith),
    )

-- Four bytes, and eight, come back.
pub from_bytes-to_bytes_four : (v : ℕ) → v < 2 ^ 32 → from_bytes (to_bytes 4 v) ≡ v
unfolding to_bytes from_bytes
from_bytes-to_bytes_four v h = omega arith

pub from_bytes-to_bytes_eight : (v : ℕ) → v < 2 ^ 64 → from_bytes (to_bytes 8 v) ≡ v
unfolding to_bytes from_bytes
from_bytes-to_bytes_eight v h = omega arith

pub htonll_u64-lt : (v : ℕ) → htonll_u64 v < 2 ^ 64
unfolding htonll_u64
htonll_u64-lt v = omega (arith, swap32-lt (v / 2 ^ 32 % 2 ^ 32), swap32-lt (v % 2 ^ 32))
