-- ===== src/Paging/Walk.antt =====
-- src/paging.c, `translate` and `unmap_page`: what the walk through the tables finds.
use os_c.Prelude.{
  ℕ, ◌+◌, ◌-◌, ◌*◌, ◌/◌, ◌%◌, ◌^◌, ◌<◌, ◌≤◌, ◌≡◌, ◌⊎◌, ap, ◌==◌, ltb, leb, ◌||◌, true, false, none,
  bit_and, page_size, arith,
}
use os_c.Prelude.Fields.{bit_and_low}
use os_c.Memory.{read64, read64-write64}
use os_c.FrameAllocator.{get_frame_for_addr}
use os_c.Printf.Outcome.{ok}
use os_c.Paging.{
  translate_page, physical_address, translate, unmap_page, set_unused, get_physical_frame,
  get_page_for_vaddr, get_p4_index, get_p3_index, get_p2_index, deref, entry_at, huge_bit,
}
use os_c.Paging.Entry.{mask-field}
use os_c.Paging.Recursive.{
  IsMapped, p2_table, descended-p3, descended-p2, descended-p1, p1_entry-page,
}

-- the entry of a page in its last table
abbrev pub p1_entry : ℕ → ℕ
p1_entry page = 2 ^ 64 - 2 ^ 39 + 8 * (page % 2 ^ 36)

-- The third entry is no huge page.
abbrev pub IsSmall : (ℕ → ℕ) → ℕ → Type 0
IsSmall m page = bit_and (read64 m (entry_at (p2_table page) (get_p2_index page))) huge_bit ≡ 0

deref-table : (q : ℕ) → 0 < q → deref (q * 2 ^ 12) ≡ ok (q * 2 ^ 12)
deref-table q p = ground (arith, p)

translate_page-mapped :
    (m : ℕ → ℕ) (page : ℕ)
    → IsMapped m page
    → IsSmall m page
    → translate_page m page ≡ ok (get_physical_frame m (p1_entry page))
unfolding translate_page
translate_page-mapped m page t small = rw (
  descended-p3 m page t,
  deref-table (2 ^ 52 - 2 ^ 9 + get_p4_index page) (omega arith),
  descended-p2 m page t,
  deref-table (2 ^ 52 - 2 ^ 18 + get_p4_index page * 2 ^ 9 + get_p3_index page) (omega arith),
  small,
  descended-p1 m page t,
  deref-table
      (2 ^ 52 - 2 ^ 27 + get_p4_index page * 2 ^ 18 + get_p3_index page * 2 ^ 9 + get_p2_index page)
      (omega arith),
  p1_entry-page page,
)

-- An address that the processor accepts.
abbrev pub IsCanonical : ℕ → Type 0
IsCanonical vaddr = (vaddr < 0x0000800000000000) ⊎ (0xffff800000000000 ≤ vaddr)

-- For a canonical address, if the entries of its page in the upper three tables are present, the
-- third not with the huge bit, and so is the one in the last, `translate` gives the frame that is
-- named by bits 12 to 51 of the entry at 2 ^ 64 - 2 ^ 39 + 8 * (page modulo 2 ^ 36), with the
-- address's place in its page.
pub translate-mapped :
    (m : ℕ → ℕ) (vaddr : ℕ)
    → IsCanonical vaddr
    → IsMapped m (vaddr / page_size)
    → IsSmall m (vaddr / page_size)
    → read64 m (p1_entry (vaddr / page_size)) % 2 ≡ 1
    → translate m vaddr
      ≡ ok (read64 m (p1_entry (vaddr / page_size)) / 2 ^ 12 % 2 ^ 40 * 2 ^ 12 + vaddr % page_size)
unfolding translate get_page_for_vaddr get_physical_frame physical_address get_frame_for_addr
translate-mapped m vaddr canonical t small present =
    let page = vaddr / page_size in
    let word = read64 m (p1_entry page) in
    let tested : (ltb vaddr 0x0000800000000000 || leb 0xffff800000000000 vaddr) ≡ true =
      ground (arith, canonical) in
    let there : (bit_and word 1 == 0) ≡ false = ground (arith, bit_and_low 1 word, present) in
    rw (tested, translate_page-mapped m page t small, there, mask-field word)
      (ap (λ a. ok a) (omega arith))

-- For a page whose entries in the upper three tables are present, `unmap_page` clears the entry of
-- the page at 2 ^ 64 - 2 ^ 39 + 8 * (page modulo 2 ^ 36), and then finds no frame to give back,
-- since it reads the entry that it has just cleared.
pub unmap_page-mapped :
    (m : ℕ → ℕ) (page : ℕ)
    → IsMapped m page
    → unmap_page page m ≡ ok (set_unused (p1_entry page) m, none)
unfolding unmap_page get_physical_frame set_unused
unmap_page-mapped m page t =
    let cleared = read64-write64 m (p1_entry page) 0 (omega arith) in
    rw (
      descended-p3 m page t,
      deref-table (2 ^ 52 - 2 ^ 9 + get_p4_index page) (omega arith),
      descended-p2 m page t,
      deref-table (2 ^ 52 - 2 ^ 18 + get_p4_index page * 2 ^ 9 + get_p3_index page) (omega arith),
      descended-p1 m page t,
      deref-table
          (2 ^ 52
            - 2 ^ 27
            + get_p4_index page * 2 ^ 18
            + get_p3_index page * 2 ^ 9
            + get_p2_index page)
          (omega arith),
      p1_entry-page page,
      cleared,
    )
