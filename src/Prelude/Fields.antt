-- ===== src/Prelude/Fields.antt =====
-- Reading and setting the bit fields of a word by `&` and `|`.
use Prim.Native.Nat.{ℕ, ◌+◌, ◌*◌, ◌/◌, ◌%◌, ◌^◌, ◌<◌, bit_and, bit_or}
use mathlib.Core.Path.{◌≡◌}
use native.Mathlib.Nat.{one-le-pow, mod-lt, div-add-mod'}
use native.Mathlib.Omega.{arith}
use os_c.Prelude.Bits.{low_mask, bit_and-zero, bit_or-zero, zero-bit_or, bit_and-low_mask_fits}
use os_c.Prelude.Bits.{bit_and_split, bit_or_split}

-- `x & ((1 << w) - 1)` is the remainder.
pub bit_and_low : (w x : ℕ) → bit_and x (low_mask w) ≡ x % 2 ^ w
bit_and_low w x = ground (
  arith,
  one-le-pow w 2,
  div-add-mod' x (2 ^ w),
  mod-lt x {m = 2 ^ w} (omega (arith, one-le-pow w 2)),
  bit_and_split w (x / 2 ^ w) (x % 2 ^ w) 0 (low_mask w),
  bit_and-zero (x / 2 ^ w),
  bit_and-low_mask_fits w (x % 2 ^ w),
)

-- `x & (((1 << w) - 1) << k)` keeps the `w` bits from bit `k` on.
pub bit_and_field : (k w x : ℕ) → bit_and x (low_mask w * 2 ^ k) ≡ x / 2 ^ k % 2 ^ w * 2 ^ k
bit_and_field k w x = ground (
  arith,
  one-le-pow k 2,
  div-add-mod' x (2 ^ k),
  mod-lt x {m = 2 ^ k} (omega (arith, one-le-pow k 2)),
  bit_and_split k (x / 2 ^ k) (x % 2 ^ k) (low_mask w) 0,
  bit_and-zero (x % 2 ^ k),
  bit_and_low w (x / 2 ^ k),
)

-- The union of a word whose set bits lie in `w` bits from bit `k` on with one that has none there.
pub bit_or_gap :
    (k w f hi lo : ℕ)
    → f < 2 ^ w
    → lo < 2 ^ k
    → bit_or (f * 2 ^ k) (hi * 2 ^ w * 2 ^ k + lo) ≡ (hi * 2 ^ w + f) * 2 ^ k + lo
bit_or_gap k w f hi lo hf hlo = ground (
  arith,
  one-le-pow k 2,
  one-le-pow w 2,
  bit_or_split k f 0 (hi * 2 ^ w) lo,
  bit_or_split w 0 f hi 0,
  zero-bit_or lo,
  zero-bit_or hi,
  bit_or-zero f,
)
