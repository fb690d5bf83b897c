-- ===== src/FrameAllocator/Select.antt =====
-- What the loops over the memory map select: an eligible entry of the least base address.
use os_c.Prelude.{
  ℕ, zero, suc, ◌+◌, ◌≤◌, ◌<◌, ◌≡◌, refl, ◌⊎◌, inl, inr, ltb, leb, arith, page_size, Bool-cases,
  ◌∙◌,
}
use mathlib.Core.Path.{subst}
use native.Mathlib.Nat.{le_trans}
use native.Mathlib.Decide.{dec_lt}
use os_c.Multiboot.{MemoryMapEntry}
use os_c.FrameAllocator.{Choice, choose, select_area}

-- an area that the loops may take: a page long, and from `min_addr` on
pub record IsEligible (min_addr : ℕ) (e : MemoryMapEntry) : Type 0 where
  pub above : min_addr ≤ e.base_addr
  pub room : page_size ≤ e.length

-- `c` is the entry that was chosen among those of index `i` to `j`.
pub record IsChosen (maps : ℕ → MemoryMapEntry) (min_addr i j : ℕ) (c : Choice) : Type 0 where
  pub from : i ≤ c.index
  pub below : c.index < j
  pub eligible : IsEligible min_addr (maps c.index)
  pub addr_eq : c.addr ≡ (maps c.index).base_addr

module _ (maps : ℕ → MemoryMapEntry) (min_addr : ℕ) where
  select_le : (n i : ℕ) (best : Choice) → (select_area maps min_addr n i best).addr ≤ best.addr
  unfolding select_area choose
  select_le zero i best = omega arith
  select_le (suc n) i best = ground (arith, select_le n (i + 1) (choose min_addr (maps i) i best))

  choose_le :
      (i : ℕ) (best : Choice)
      → IsEligible min_addr (maps i)
      → (choose min_addr (maps i) i best).addr ≤ (maps i).base_addr
  unfolding choose
  choose_le i best e = ground arith

  -- No eligible entry that was looked at lies lower than the one selected.
  pub select_least :
      (n i j : ℕ) (best : Choice)
      → i ≤ j
      → j < i + n
      → IsEligible min_addr (maps j)
      → (select_area maps min_addr n i best).addr ≤ (maps j).base_addr
  unfolding select_area
  select_least zero i j best p q e = absurd (omega arith)
  select_least (suc n) i j best p q e = elim (dec_lt i j) [
    | yes lt ↦
        select_least n (i + 1) j (choose min_addr (maps i) i best) (omega arith) (omega arith) e
    | no ge ↦
        let same : j ≡ i = omega arith in
        let here : IsEligible min_addr (maps i) =
          subst (λ k. IsEligible min_addr (maps k)) same e in
        rw same
          (le_trans (select_le n (i + 1) (choose min_addr (maps i) i best)) (choose_le i best here))
  ]

  -- one round takes the entry or leaves the choice
  choose_cases :
      (i : ℕ) (best : Choice)
      → let c = choose min_addr (maps i) i best in
        (c ≡ best) ⊎ (IsChosen maps min_addr i (suc i) c × (c.addr < best.addr))
  unfolding choose
  choose_cases i best = elim (Bool-cases (leb min_addr (maps i).base_addr)) [
    | inr p ↦ inl (rw p)
    | inl p ↦ elim (Bool-cases (leb page_size (maps i).length)) [
      | inr q ↦ inl (rw (p, q))
      | inl q ↦ elim (Bool-cases (ltb (maps i).base_addr best.addr)) [
        | inr r ↦ inl (rw (p, q, r))
        | inl r ↦ inr (rw (p, q, r) (ground arith, ground arith))
      ]
    ]
  ]

  -- The loop keeps what it was started with, or selects an eligible entry that lies lower.
  pub select_from :
      (n i j : ℕ) (best : Choice)
      → i + n ≡ j
      → let c = select_area maps min_addr n i best in
        (c ≡ best) ⊎ (IsChosen maps min_addr i j c × (c.addr < best.addr))
  unfolding select_area
  select_from zero i j best e = inl refl
  select_from (suc n) i j best e = elim (choose_cases i best) [
    | inl kept ↦ elim (select_from n (i + 1) j (choose min_addr (maps i) i best) (omega arith)) [
      | inl same ↦ inl (same ∙ kept)
      | inr (c, lt) ↦ inr (ground arith, ground arith)
    ]
    | inr (c, lt) ↦ elim (select_from n (i + 1) j (choose min_addr (maps i) i best) (omega arith)) [
      | inl same ↦ inr (rw same (ground arith), rw same lt)
      | inr (c', lt') ↦ inr (ground arith, ground arith)
    ]
  ]
