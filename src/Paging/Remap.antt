-- ===== src/Paging/Remap.antt =====
-- src/paging.c, `remap_kernel`: the frames that are mapped to themselves, with their flags, in the order
-- in which `identity_map_page` is called for them.
use os_c.Prelude.{
  refl, Bool, false, ℕ, zero, suc, ◌+◌, ◌-◌, ◌*◌, ◌/◌, ◌%◌, ◌^◌, ◌<◌, ◌≤◌, ◌≡◌, ap, ◌∙◌, true, not,
  ◌⊎◌, ltb, leb, ◌==◌, if◌then◌else◌, List, [], ◌∷◌, ◌++◌, add64, sub64, bit_or, page_size, arith,
}
use os_c.Multiboot.{
  ElfSectionHeader, MultibootData, elf_section_is_allocated, elf_section_is_writable,
  elf_section_is_exectuable,
}
use os_c.FrameAllocator.{get_frame_for_addr}
use os_c.Printf.Outcome.{Result, ok, out_of_fuel, ◌>>=◌, ◌>>◌, assert}
use os_c.Paging.{present_bit, writeable_bit}

abbrev pub no_exec_bit : ℕ
no_exec_bit = 0x8000000000000000

unfoldable pub section_flags : ElfSectionHeader → ℕ
section_flags section =
    let flags =
      if not (elf_section_is_exectuable section)
      then bit_or present_bit no_exec_bit
      else present_bit in
    if elf_section_is_writable section then bit_or flags writeable_bit else flags

-- the rounds of `while(addr < end_addr)`
unfoldable pub section_frames : ℕ → ℕ → ℕ → ℕ → Result (List (ℕ × ℕ))
section_frames zero addr end_addr flags = if ltb addr end_addr then out_of_fuel else ok []
section_frames (suc fuel) addr end_addr flags =
    let rest = section_frames fuel (add64 addr page_size) end_addr flags in
    if ltb addr end_addr
    then (do frames ← rest; ok ((get_frame_for_addr addr, flags) ∷ frames))
    else ok []

-- a round for every page that the section touches is enough
abbrev pub section_rounds : ElfSectionHeader → ℕ
section_rounds section = section.sh_size / page_size + 1

unfoldable pub remap_section : ElfSectionHeader → Result (List (ℕ × ℕ))
remap_section section =
    let addr = section.sh_addr in
    let end_addr = sub64 (add64 section.sh_addr section.sh_size) 1 in
    let mapped =
      assert (addr % page_size == 0)
      >> (assert (leb addr end_addr)
          >> section_frames (section_rounds section) addr end_addr (section_flags section)) in
    if not (elf_section_is_allocated section) then ok [] else mapped

unfoldable pub remap_sections : (ℕ → ElfSectionHeader) → ℕ → ℕ → Result (List (ℕ × ℕ))
remap_sections sections zero i = ok []
remap_sections sections (suc n) i = do
  frames ← remap_section (sections i)
  rest ← remap_sections sections n (i + 1)
  ok (frames ++ rest)

-- the pages of the multiboot structure
unfoldable pub multiboot_frames : ℕ → ℕ → ℕ → List (ℕ × ℕ)
multiboot_frames zero addr end_addr = []
multiboot_frames (suc fuel) addr end_addr =
    let rest = multiboot_frames fuel (addr + page_size) end_addr in
    if leb addr end_addr
    then (get_frame_for_addr addr, bit_or present_bit no_exec_bit) ∷ rest
    else []

-- What is mapped to itself besides the sections: the screen, and the multiboot structure. The end of that
-- is `data.start + data.start->total_size`, where `data.start` points to a structure of eight bytes.
abbrev pub other_frames : MultibootData → List (ℕ × ℕ)
other_frames mb =
    let start = mb.start.address in
    let size = mb.start.total_size in
    (get_frame_for_addr 0xb8000, bit_or (bit_or writeable_bit present_bit) no_exec_bit)
    ∷ multiboot_frames (8 * size / page_size + 1) start (start + 8 * size)

-- Everything that is mapped to itself.
unfoldable pub remap_frames : MultibootData → Result (List (ℕ × ℕ))
remap_frames mb = do
  sections ← remap_sections mb.elf_symbols.sectionheaders mb.elf_symbols.num 0
  ok (sections ++ other_frames mb)

-- frames one after the other
unfoldable pub run : ℕ → ℕ → ℕ → List (ℕ × ℕ)
run zero first flags = []
run (suc n) first flags = (first, flags) ∷ run n (first + 1) flags

section_frames-run :
    (n fuel first end_addr flags : ℕ)
    → n ≤ fuel
    → (end_addr ≤ (first + n) * page_size)
    → (n ≡ 0) ⊎ ((first + n) * page_size < end_addr + page_size)
    → end_addr + page_size < 2 ^ 64
    → section_frames fuel (first * page_size) end_addr flags ≡ ok (run n first flags)
unfolding section_frames run get_frame_for_addr
section_frames-run zero zero first end_addr flags p q r s = ground arith
section_frames-run zero (suc fuel) first end_addr flags p q r s = ground arith
section_frames-run (suc n) zero first end_addr flags p q r s = elim p [ ]
section_frames-run (suc n) (suc fuel) first end_addr flags p q r s =
    let more : ltb (first * page_size) end_addr ≡ true = ground arith in
    let up : add64 (first * page_size) page_size ≡ (first + 1) * page_size = ground arith in
    let at : first * page_size / page_size ≡ first = omega arith in
    rw (
      more,
      up,
      at,
      section_frames-run n fuel (first + 1) end_addr flags (omega arith) (omega arith)
          (ground arith) s,
    )

-- A section that is mapped: whole pages from its first on, below the end of the address space.
pub record IsSection (section : ElfSectionHeader) : Type 0 where
  pub allocated : elf_section_is_allocated section ≡ true
  pub aligned : section.sh_addr % page_size ≡ 0
  pub nonempty : 0 < section.sh_size
  pub room : section.sh_addr + section.sh_size + page_size < 2 ^ 64

-- For an allocated section that is not empty, starts at a page and ends a page or more below 2 ^
-- 64, `remap_kernel` maps the frames one after the other from that of its first byte on: as many as
-- hold all its bytes but the last, so that a last page of one byte is left out.
pub remap_section-run :
    (section : ElfSectionHeader)
    → IsSection section
    → remap_section section
      ≡ ok (
          run
            ((section.sh_size - 1 + (page_size - 1)) / page_size)
            (section.sh_addr / page_size)
            (section_flags section))
unfolding remap_section
remap_section-run section is =
    let addr = section.sh_addr in
    let size = section.sh_size in
    let nonempty = is.nonempty in
    let room = is.room in
    let aligned = is.aligned in
    let end_addr : sub64 (add64 addr size) 1 ≡ addr + size - 1 = omega (arith, nonempty, room) in
    let whole : (addr % page_size == 0) ≡ true = ground (arith, aligned) in
    let ordered : leb addr (addr + size - 1) ≡ true = ground (arith, nonempty) in
    let first : addr ≡ addr / page_size * page_size = omega (arith, aligned) in
    rw (is.allocated, end_addr, whole, ordered)
      (ap (λ a. section_frames (section_rounds section) a (addr + size - 1) (section_flags section))
          first
        ∙ section_frames-run ((size - 1 + (page_size - 1)) / page_size) (section_rounds section)
            (addr / page_size) (addr + size - 1) (section_flags section) (omega (arith, nonempty))
            (omega (arith, nonempty, aligned)) (ground (arith, nonempty, aligned))
            (omega (arith, room)))

-- The flags of a section are the present bit, with the writeable bit exactly if the section is
-- writable, and with the bit against execution exactly if it is not executable.
pub section_flags-sum :
    (section : ElfSectionHeader)
    → section_flags section
      ≡ present_bit
        + (if elf_section_is_writable section then writeable_bit else 0)
        + (if elf_section_is_exectuable section then 0 else no_exec_bit)
unfolding section_flags
section_flags-sum section = go (elf_section_is_writable section) (elf_section_is_exectuable section)
  where
    go :
        (w x : Bool)
        → (let flags = if not x then bit_or present_bit no_exec_bit else present_bit in
            if w then bit_or flags writeable_bit else flags)
          ≡ present_bit + (if w then writeable_bit else 0) + (if x then 0 else no_exec_bit)
    go true true = refl
    go true false = refl
    go false true = refl
    go false false = refl
