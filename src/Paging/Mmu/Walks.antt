-- ===== src/Paging/Mmu/Walks.antt =====
-- src/paging.c, the recursive mapping: the pages under which the processor finds the tables.
use os_c.Prelude.{ℕ, ◌+◌, ◌-◌, ◌*◌, ◌/◌, ◌%◌, ◌^◌, ◌<◌, ◌≡◌, arith, some}
use os_c.Paging.{get_p4_index, get_p3_index, get_p2_index, get_p1_index}
use os_c.Paging.Index.{index-digit}
use os_c.Paging.Mmu.{Leads, LeadsOn, Mmu}

-- The last entry of the processor's top table leads to the table in the frame `top`, whose last entry
-- leads to itself: the two are one, or `top` is a new table that is being filled.
pub record Recursive (m : ℕ → ℕ) (root top : ℕ) : Type 0 where
  pub first : LeadsOn m root 511 top
  pub again : LeadsOn m top 511 top

-- Through that entry the tables of every page are mapped.
module _ (x : Mmu) (m : ℕ → ℕ) (root top : ℕ) (r : Recursive m root top) where
  pub walk-p4 : x.walk m root (2 ^ 52 - 1) ≡ some top
  walk-p4 = x.walks m root (2 ^ 52 - 1) top top top top r.first r.again r.again r.again.leads

  pub walk-p3 :
      (i4 t3 : ℕ) → i4 < 512 → LeadsOn m top i4 t3 → x.walk m root (2 ^ 52 - 2 ^ 9 + i4) ≡ some t3
  walk-p3 i4 t3 p l =
      let q = 2 ^ 52 - 2 ^ 9 + i4 in
      let d4 : q / 2 ^ 27 % 512 ≡ 511 = omega arith in
      let d3 : q / 2 ^ 18 % 512 ≡ 511 = omega arith in
      let d2 : q / 2 ^ 9 % 512 ≡ 511 = omega arith in
      let d1 : q % 512 ≡ i4 = omega arith in
      x.walks m root q top top top t3 (rw d4 r.first) (rw d3 r.again) (rw d2 r.again)
        (rw d1 l.leads)

  pub walk-p2 :
      (i4 i3 t3 t2 : ℕ)
      → i4 < 512
      → i3 < 512
      → LeadsOn m top i4 t3
      → LeadsOn m t3 i3 t2
      → x.walk m root (2 ^ 52 - 2 ^ 18 + i4 * 2 ^ 9 + i3) ≡ some t2
  walk-p2 i4 i3 t3 t2 p q l4 l3 =
      let page = 2 ^ 52 - 2 ^ 18 + i4 * 2 ^ 9 + i3 in
      let d4 : page / 2 ^ 27 % 512 ≡ 511 = omega arith in
      let d3 : page / 2 ^ 18 % 512 ≡ 511 = omega arith in
      let d2 : page / 2 ^ 9 % 512 ≡ i4 = omega arith in
      let d1 : page % 512 ≡ i3 = omega arith in
      x.walks m root page top top t3 t2 (rw d4 r.first) (rw d3 r.again) (rw d2 l4) (rw d1 l3.leads)

  pub walk-p1 :
      (i4 i3 i2 t3 t2 t1 : ℕ)
      → i4 < 512
      → i3 < 512
      → i2 < 512
      → LeadsOn m top i4 t3
      → LeadsOn m t3 i3 t2
      → LeadsOn m t2 i2 t1
      → x.walk m root (2 ^ 52 - 2 ^ 27 + i4 * 2 ^ 18 + i3 * 2 ^ 9 + i2) ≡ some t1
  walk-p1 i4 i3 i2 t3 t2 t1 p q s l4 l3 l2 =
      let page = 2 ^ 52 - 2 ^ 27 + i4 * 2 ^ 18 + i3 * 2 ^ 9 + i2 in
      let d4 : page / 2 ^ 27 % 512 ≡ 511 = omega arith in
      let d3 : page / 2 ^ 18 % 512 ≡ i4 = omega arith in
      let d2 : page / 2 ^ 9 % 512 ≡ i3 = omega arith in
      let d1 : page % 512 ≡ i2 = omega arith in
      x.walks m root page top t3 t2 t1 (rw d4 r.first) (rw d3 l4) (rw d2 l3) (rw d1 l2.leads)

-- the tables that the processor walks through for a page, and its frame
pub record Translates (m : ℕ → ℕ) (top page u3 u2 u1 f : ℕ) : Type 0 where
  pub p4 : LeadsOn m top (get_p4_index page) u3
  pub p3 : LeadsOn m u3 (get_p3_index page) u2
  pub p2 : LeadsOn m u2 (get_p2_index page) u1
  pub p1 : Leads m u1 (get_p1_index page) f

pub walk-page :
    (x : Mmu) (m : ℕ → ℕ) (root page t3 t2 t1 f : ℕ)
    → Translates m root page t3 t2 t1 f
    → x.walk m root page ≡ some f
walk-page x m root page t3 t2 t1 f t =
    let (d4, d3, d2, d1) = index-digit page in
    x.walks m root page t3 t2 t1 f (rw (← d4) t.p4) (rw (← d3) t.p3) (rw (← d2) t.p2)
      (rw (← d1) t.p1)
