-- ===== src/FrameAllocator/Area.antt =====
-- How many areas of the memory map start above an address: what `switch_area` has left to take.
use os_c.Prelude.{ℕ, zero, suc, ◌+◌, ◌≤◌, ◌<◌, ◌≡◌, arith, ltb, if◌then◌else◌}
use mathlib.Core.Path.{subst}
use os_c.Multiboot.{MemoryMapEntry}
use native.Mathlib.Decide.{dec_lt}

module _ (maps : ℕ → MemoryMapEntry) where
  pub count_above : ℕ → ℕ → ℕ
  count_above addr zero = 0
  count_above addr (suc n) = (if ltb addr (maps n).base_addr then 1 else 0) + count_above addr n

  pub count_above-le : (addr n : ℕ) → count_above addr n ≤ n
  unfolding count_above
  count_above-le addr zero = omega arith
  count_above-le addr (suc n) = ground (arith, count_above-le addr n)

  count_above_anti : (a b n : ℕ) → a ≤ b → count_above b n ≤ count_above a n
  unfolding count_above
  count_above_anti a b zero h = omega arith
  count_above_anti a b (suc n) h = ground (arith, count_above_anti a b n h)

  -- An area above `a` counts there, and not above itself.
  pub count_above_falls :
      (a b j n : ℕ) → j < n → a < b → b ≡ (maps j).base_addr → count_above b n < count_above a n
  unfolding count_above
  count_above_falls a b j zero p h e = absurd (omega arith)
  count_above_falls a b j (suc n) p h e = elim (dec_lt j n) [
    | yes lt ↦ ground (arith, count_above_falls a b j n lt h e)
    | no ge ↦
        let here : b ≡ (maps n).base_addr =
          subst (λ k. b ≡ (maps k).base_addr) (let same : j ≡ n = omega arith in same) e in
        ground (arith, count_above_anti a b n, here)
  ]
