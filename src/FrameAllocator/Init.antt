-- ===== src/FrameAllocator/Init.antt =====
-- `init_allocator`: the first area, and the frames of the kernel and of the boot loader's structure.
use os_c.Prelude.{
  ℕ, zero, suc, ◌+◌, ◌/◌, ◌≤◌, ◌<◌, ◌≡◌, ◌≢◌, ◌⊎◌, inl, inr, refl, sym, true, some, All, All-mono,
  Option-cases, arith, page_size, ◌^◌, add64, ap,
}
use mathlib.Core.Path.{subst}
use native.Mathlib.Decide.{dec_lt}
use os_c.Multiboot.{MemoryMapEntry, MemoryMap, ElfSectionHeader, MultibootData}
use os_c.FrameAllocator.{
  Allocator, current_entry, Choice, uint64_max, Extent, extend, kernel_extent, count_entries,
  init_counted, init_allocator, get_frame_for_addr, first_area,
}
use os_c.FrameAllocator.Select.{IsEligible, IsChosen, select_from, select_least}
use os_c.FrameAllocator.Inv.{Fits, IsValid, is_reserved}
use os_c.FrameAllocator.Sequence.{allocations, allocations-Ascends}

-- What the allocator relies on in a memory map of `n` entries: no area reaches past the end of the
-- address space, and one of them is a page long.
pub record IsUsable (maps : ℕ → MemoryMapEntry) (n : ℕ) : Type 0 where
  pub fits : (i : ℕ) → i < n → Fits (maps i)
  pub some_area : (j : ℕ) × (j < n) × IsEligible 0 (maps j)

first_area-IsChosen :
    (m : MemoryMap) (n : ℕ)
    → IsUsable m.memory_maps n
    → IsChosen m.memory_maps 0 0 n (first_area m n)
first_area-IsChosen m n u =
    let (j, lt, e) = u.some_area in
    elim (select_from m.memory_maps 0 n 0 n (record { addr = uint64_max; index = 0 })
      (omega arith)) [
        | inl same ↦ absurd (
            omega (
              arith,
              select_least m.memory_maps 0 n 0 j (record { addr = uint64_max; index = 0 })
                  (omega arith) (omega arith) e,
              ap (λ (c : Choice). c.addr) same,
              u.fits j lt,
              e.room,
            ))
        | inr (c, lt) ↦ c
      ]

-- The cursor is at the first frame, and the area at the least base address.
pub record Started (d : MultibootData) (a : Allocator) : Type 0 where
  pub valid : IsValid a
  pub cursor : a.next_free_frame ≡ 0
  pub least :
      (j : ℕ)
      → j < a.num_entries
      → IsEligible 0 (d.memory_map.memory_maps j)
      → (current_entry a).base_addr ≤ (d.memory_map.memory_maps j).base_addr

init_counted-Started :
    (d : MultibootData) (n : ℕ)
    → IsUsable d.memory_map.memory_maps (init_counted d n).num_entries
    → Started d (init_counted d n)
unfolding init_counted
init_counted-Started d n u =
    let c = first_area-IsChosen d.memory_map n u in
    record {
      valid = record {
        fits = u.fits;
        current = λ ne. c.eligible;
        index_le = omega (arith, c.below);
        next_le = omega arith;
      };
      cursor = refl;
      least = λ j lt e. omega (
        arith,
        c.addr_eq,
        select_least d.memory_map.memory_maps 0 n 0 j (record { addr = uint64_max; index = 0 })
            (omega arith) (omega arith) e,
      );
    }

module _ (headers : ℕ → ElfSectionHeader) where
  kernel_extent-grows :
      (n i : ℕ) (k : Extent)
      → ((kernel_extent headers n i k).first ≤ k.first)
        × (k.last ≤ (kernel_extent headers n i k).last)
  unfolding kernel_extent extend
  kernel_extent-grows zero i k = omega arith
  kernel_extent-grows (suc n) i k =
      ground (arith, kernel_extent-grows n (i + 1) (extend (headers i) k))

  extend-covers :
      (h : ElfSectionHeader) (k : Extent)
      → 0 < h.sh_size
      → ((extend h k).first ≤ h.sh_addr) × (add64 h.sh_size h.sh_addr ≤ (extend h k).last)
  unfolding extend
  extend-covers h k p = ground arith

  -- The extent covers every section that is not empty.
  kernel_extent-covers :
      (n i j : ℕ) (k : Extent)
      → i ≤ j
      → j < i + n
      → 0 < (headers j).sh_size
      → ((kernel_extent headers n i k).first ≤ (headers j).sh_addr)
        × (add64 (headers j).sh_size (headers j).sh_addr ≤ (kernel_extent headers n i k).last)
  unfolding kernel_extent
  kernel_extent-covers zero i j k p q s = absurd (omega arith)
  kernel_extent-covers (suc n) i j k p q s = elim (dec_lt i j) [
    | yes lt ↦ kernel_extent-covers n (i + 1) j (extend (headers i) k) (omega arith) (omega arith) s
    | no ge ↦
        let same : j ≡ i = omega arith in
        let s' : 0 < (headers i).sh_size = rw same at s in
        rw same (
          omega (
            arith,
            kernel_extent-grows n (i + 1) (extend (headers i) k),
            extend-covers (headers i) k s',
          ))
  ]

-- `x` is an address of the section. (Its end does not wrap.)
pub record InSection (h : ElfSectionHeader) (x : ℕ) : Type 0 where
  pub from : h.sh_addr ≤ x
  pub to : x < h.sh_addr + h.sh_size
  pub fits : h.sh_addr + h.sh_size < 2 ^ 64

pub record InMultiboot (d : MultibootData) (x : ℕ) : Type 0 where
  pub from : d.start.address ≤ x
  pub to : x < d.start.address + d.start.total_size
  pub fits : d.start.address + d.start.total_size < 2 ^ 64

-- an address that `init_allocator` means to keep: of a section of the kernel, or of the structure
-- that the boot loader left
abbrev pub Kept : MultibootData → ℕ → Type 0
Kept d x =
    ((j : ℕ) × (j < d.elf_symbols.num) × InSection (d.elf_symbols.sectionheaders j) x)
    ⊎ InMultiboot d x

init_counted-reserves :
    (d : MultibootData) (n x : ℕ) → Kept d x → is_reserved (init_counted d n) (x / page_size) ≡ true
unfolding init_counted get_frame_for_addr
init_counted-reserves d n x (inl (j, lt, s)) = ground (
  arith,
  kernel_extent-covers d.elf_symbols.sectionheaders d.elf_symbols.num 0 j
      (record { first = uint64_max; last = 0 }) (omega arith) (omega arith)
      (omega (arith, s.from, s.to)),
)
init_counted-reserves d n x (inr s) = ground arith

module _ (d : MultibootData) {a : Allocator} (booted : init_allocator d ≡ some a) where
  init_allocator-counted : (n : ℕ) × (count_entries d.memory_map ≡ some n) × (a ≡ init_counted d n)
  unfolding init_allocator
  init_allocator-counted = elim (Option-cases (count_entries d.memory_map)) [
    | inl e ↦ absurd (ground arith)
    | inr (n, e) ↦ (n, e, ground arith)
  ]

  -- If `init_allocator` returns on a memory map whose entries end within 2 ^ 64 and of which one is
  -- at least a page long, the allocator is in its invariant, with the cursor at the frame 0 and the
  -- area that has the least base address among those of a page or more.
  pub init_allocator-IsValid : IsUsable d.memory_map.memory_maps a.num_entries → Started d a
  init_allocator-IsValid u =
      let (n, c, e) = init_allocator-counted in
      subst (λ b. IsUsable d.memory_map.memory_maps b.num_entries → Started d b) (sym e)
        (init_counted-Started d n) u

  -- Every address that is to be kept lies in a reserved frame.
  pub init_allocator-reserves : (x : ℕ) → Kept d x → is_reserved a (x / page_size) ≡ true
  init_allocator-reserves x k =
      let (n, c, e) = init_allocator-counted in rw e (init_counted-reserves d n x k)

  -- After `init_allocator` on a memory map whose entries end within 2 ^ 64 and of which one is at
  -- least a page long, no number of allocations hands out a frame that holds a byte of a section of
  -- the kernel or of the boot loader's structure (where these end below 2 ^ 64).
  pub allocations-spare :
      (count x : ℕ)
      → IsUsable d.memory_map.memory_maps a.num_entries
      → Kept d x
      → All (λ n. n ≢ x / page_size) (allocations count a)
  allocations-spare count x u k =
      All-mono (allocations count a) (λ n free e. cc (init_allocator-reserves x k))
        (allocations-Ascends count (init_allocator-IsValid u).valid).1
