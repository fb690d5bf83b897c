-- ===== src/Pic/Mask.antt =====
-- src/pic.c: the masks of the interrupt lines, as bits of the byte at a controller's data port.
use os_c.Prelude.{
  ℕ, zero, suc, ◌+◌, ◌-◌, ◌*◌, ◌/◌, ◌%◌, ◌^◌, ◌<◌, ◌≡◌, ap, ltb, false, [], ◌∷◌, u8, bit_and,
  bit_or, arith,
}
use os_c.Prelude.Bits.{
  bit_or_split, bit_and_split, bit_or-digit, bit_and-digit, bit_or-zero, low_mask,
  bit_and-low_mask_fits,
}
use os_c.Prelude.Fields.{bit_and_low}
use native.Mathlib.Nat.{add-mul, div-add-mod', mod-lt, one-le-pow}
use os_c.Printf.Outcome.{ok}
use os_c.Pic.{irq_set_mask, irq_clear_mask, irq_port, irq_bit}

-- whether a line is masked
abbrev pub masked : ℕ → ℕ → ℕ
masked mask line = mask / 2 ^ line % 2

bit_or-one : (q : ℕ) → bit_or q 1 ≡ q + (1 - q % 2)
bit_or-one q = omega (arith, bit_or-digit q 1, bit_or-zero (q / 2))

set_bit : (line mask : ℕ) → bit_or mask (2 ^ line) ≡ mask + (1 - masked mask line) * 2 ^ line
set_bit line mask = ground (
  arith,
  one-le-pow line 2,
  div-add-mod' mask (2 ^ line),
  mod-lt mask {m = 2 ^ line} (omega (arith, one-le-pow line 2)),
  bit_or_split line (mask / 2 ^ line) (mask % 2 ^ line) 1 0,
  bit_or-one (mask / 2 ^ line),
  add-mul (mask / 2 ^ line) (1 - masked mask line) (2 ^ line),
  bit_or-zero (mask % 2 ^ line),
)

-- `~(1 << line)` has every bit but that one
clear_bit_at :
    (line rest mask : ℕ)
    → bit_and mask (2 * low_mask rest * 2 ^ line + low_mask line)
      ≡ mask / 2 ^ line / 2 % 2 ^ rest * 2 * 2 ^ line + mask % 2 ^ line
clear_bit_at line rest mask = ground (
  arith,
  one-le-pow line 2,
  div-add-mod' mask (2 ^ line),
  mod-lt mask {m = 2 ^ line} (omega (arith, one-le-pow line 2)),
  bit_and_split line (mask / 2 ^ line) (mask % 2 ^ line) (2 * low_mask rest) (low_mask line),
  bit_and-digit (mask / 2 ^ line) (2 * low_mask rest),
  bit_and_low rest (mask / 2 ^ line / 2),
  bit_and-low_mask_fits line (mask % 2 ^ line),
)

pub Clears : ℕ → ℕ → Type 0
Clears mask line = bit_and mask (2 ^ 32 - 1 - 2 ^ line) ≡ mask - masked mask line * 2 ^ line

clear_bit : (line mask : ℕ) → line < 8 → mask < 256 → Clears mask line
unfolding Clears
clear_bit zero mask p q = omega (arith, clear_bit_at 0 31 mask)
clear_bit (suc zero) mask p q = omega (arith, clear_bit_at 1 30 mask)
clear_bit (suc (suc zero)) mask p q = omega (arith, clear_bit_at 2 29 mask)
clear_bit (suc (suc (suc zero))) mask p q = omega (arith, clear_bit_at 3 28 mask)
clear_bit (suc (suc (suc (suc zero)))) mask p q = omega (arith, clear_bit_at 4 27 mask)
clear_bit (suc (suc (suc (suc (suc zero))))) mask p q = omega (arith, clear_bit_at 5 26 mask)
clear_bit (suc (suc (suc (suc (suc (suc zero)))))) mask p q = omega (arith, clear_bit_at 6 25 mask)
clear_bit (suc (suc (suc (suc (suc (suc (suc zero))))))) mask p q =
    omega (arith, clear_bit_at 7 24 mask)
clear_bit (suc (suc (suc (suc (suc (suc (suc (suc n)))))))) mask p q = omega arith

set_bit-bound :
    (line mask : ℕ) → line < 8 → mask < 256 → mask + (1 - masked mask line) * 2 ^ line < 256
set_bit-bound zero mask p q = omega arith
set_bit-bound (suc zero) mask p q = omega arith
set_bit-bound (suc (suc zero)) mask p q = omega arith
set_bit-bound (suc (suc (suc zero))) mask p q = omega arith
set_bit-bound (suc (suc (suc (suc zero)))) mask p q = omega arith
set_bit-bound (suc (suc (suc (suc (suc zero))))) mask p q = omega arith
set_bit-bound (suc (suc (suc (suc (suc (suc zero)))))) mask p q = omega arith
set_bit-bound (suc (suc (suc (suc (suc (suc (suc zero))))))) mask p q = omega arith
set_bit-bound (suc (suc (suc (suc (suc (suc (suc (suc n)))))))) mask p q = omega arith

-- For a line below 16 and a mask of a byte at the port of its controller, `irq_set_mask` writes to
-- that port the mask with the line's bit added if it was not set, and `irq_clear_mask` the mask
-- with the bit taken off if it was set.
pub irq_mask-bit :
    (read : ℕ → ℕ) (irq : ℕ)
    → irq < 16
    → read (irq_port irq) < 256
    → let mask = read (irq_port irq) in
      let line = irq % 8 in
      (irq_set_mask read irq ≡ ok ((irq_port irq, mask + (1 - masked mask line) * 2 ^ line) ∷ []))
      × (irq_clear_mask read irq ≡ ok ((irq_port irq, mask - masked mask line * 2 ^ line) ∷ []))
unfolding irq_set_mask irq_clear_mask Clears
irq_mask-bit read irq p q =
    let mask = read (irq_port irq) in
    let line : irq_bit irq ≡ irq % 8 = ground (arith, p) in
    let fits : ltb 30 (irq % 8) ≡ false = ground arith in
    let set = set_bit (irq % 8) mask in
    let clear = clear_bit (irq % 8) mask (omega arith) q in
    let low = set_bit-bound (irq % 8) mask (omega arith) q in
    let set_low : u8 (bit_or mask (2 ^ (irq % 8)))
        ≡ mask + (1 - masked mask (irq % 8)) * 2 ^ (irq % 8) =
      omega (arith, set, low) in
    let clear_low : u8 (bit_and mask (2 ^ 32 - 1 - 2 ^ (irq % 8)))
        ≡ mask - masked mask (irq % 8) * 2 ^ (irq % 8) =
      omega (arith, clear, q) in
    (
      rw (line, fits) (ap (λ v. ok ((irq_port irq, v) ∷ [])) set_low),
      rw (line, fits) (ap (λ v. ok ((irq_port irq, v) ∷ [])) clear_low),
    )
