-- ===== src/Paging/Mmu/Fill/Pages.antt =====
-- src/paging.c, `remap_kernel`: which pages the frames in the lists are those of.
use os_c.Prelude.{
  ℕ, zero, suc, ◌+◌, ◌-◌, ◌*◌, ◌/◌, ◌<◌, ◌≤◌, ◌≡◌, ◌∙◌, refl, sym, ap, true, leb, List, [], ◌∷◌,
  ◌++◌, All, page_size, bit_or, arith,
}
use mathlib.Core.Path.{subst}
use os_c.Multiboot.{ElfSectionHeader, MultibootData}
use os_c.FrameAllocator.{get_frame_for_addr}
use os_c.Printf.Outcome.{ok, ◌>>=◌, >>=-eq-ok}
use os_c.Paging.{present_bit}
use os_c.Paging.Remap.{
  no_exec_bit, IsSection, remap_section, remap_sections, multiboot_frames, other_frames,
  remap_frames, run, section_flags, remap_section-run,
}

All-front {ℓ κ} : {A : Type ℓ} (P : A → Type κ) (xs ys : List A) → All P (xs ++ ys) → All P xs
All-front P [] ys p = tt
All-front P (x ∷ xs) ys (p, ps) = (p, All-front P xs ys ps)

All-back {ℓ κ} : {A : Type ℓ} (P : A → Type κ) (xs ys : List A) → All P (xs ++ ys) → All P ys
All-back P [] ys p = p
All-back P (x ∷ xs) ys (p, ps) = All-back P xs ys ps

same_list : {xs ys : List (ℕ × ℕ)} → ok xs ≡ ok ys → xs ≡ ys
same_list same = cc

-- the frames of the first section, and those of the rest
pub split_sections :
    (sections : ℕ → ElfSectionHeader) (n j : ℕ) (frames : List (ℕ × ℕ))
    → remap_sections sections (suc n) j ≡ ok frames
    → (fs : List (ℕ × ℕ)) × (gs : List (ℕ × ℕ)) × (remap_section (sections j) ≡ ok fs)
      × (remap_sections sections n (j + 1) ≡ ok gs)
      × (fs ++ gs ≡ frames)
unfolding remap_sections
split_sections sections n j frames listed =
    let (fs, first, more) =
      >>=-eq-ok (remap_section (sections j))
        (λ fs. remap_sections sections n (j + 1) >>= λ gs. ok (fs ++ gs)) listed in
    let (gs, rest, whole) =
      >>=-eq-ok (remap_sections sections n (j + 1)) (λ gs. ok (fs ++ gs)) more in
    (fs, gs, first, rest, same_list whole)

multiboot_frames-more :
    (fuel addr end_addr : ℕ)
    → addr ≤ end_addr
    → multiboot_frames (suc fuel) addr end_addr
      ≡ (get_frame_for_addr addr, bit_or present_bit no_exec_bit)
        ∷ multiboot_frames fuel (addr + page_size) end_addr
unfolding multiboot_frames
multiboot_frames-more fuel addr end_addr within =
    let more : leb addr end_addr ≡ true = ground (arith, within) in rw more refl

-- What holds of the frames in a list holds of all these pages.
module _ (Q : ℕ → Type 0) where
  abbrev OnFrame : ℕ × ℕ → Type 0
  OnFrame q = Q q.0

  run-at : (n first flags k : ℕ) → All OnFrame (run n first flags) → k < n → Q (first + k)
  unfolding run
  run-at zero first flags k p low = elim low [ ]
  run-at (suc n) first flags zero p low = subst Q (omega arith) p.0
  run-at (suc n) first flags (suc k) p low =
      subst Q (omega arith) (run-at n (first + 1) flags k p.1 (omega arith))

  section_at :
      (sections : ℕ → ElfSectionHeader) (n j i : ℕ) (frames : List (ℕ × ℕ))
      → remap_sections sections n j ≡ ok frames
      → All OnFrame frames
      → i < n
      → (fs : List (ℕ × ℕ)) × (remap_section (sections (j + i)) ≡ ok fs) × All OnFrame fs
  section_at sections zero j i frames listed p low = elim low [ ]
  section_at sections (suc n) j zero frames listed p low =
      let (fs, gs, first, rest, both) = split_sections sections n j frames listed in
      let at : remap_section (sections (j + 0)) ≡ ok fs =
        ap (λ k. remap_section (sections k)) (omega arith) ∙ first in
      (fs, at, All-front OnFrame fs gs (subst (All OnFrame) (sym both) p))
  section_at sections (suc n) j (suc i) frames listed p low =
      let (fs, gs, first, rest, both) = split_sections sections n j frames listed in
      let all = All-back OnFrame fs gs (subst (All OnFrame) (sym both) p) in
      let (hs, at, on) = section_at sections n (j + 1) i gs rest all (omega arith) in
      (hs, ap (λ k. remap_section (sections k)) (omega arith) ∙ at, on)

  multiboot-at :
      (fuel addr end_addr k : ℕ)
      → All OnFrame (multiboot_frames fuel addr end_addr)
      → k < fuel
      → addr + k * page_size ≤ end_addr
      → Q (addr / page_size + k)
  unfolding get_frame_for_addr
  multiboot-at zero addr end_addr k p low within = elim low [ ]
  multiboot-at (suc fuel) addr end_addr zero p low within =
      let here = subst (All OnFrame) (multiboot_frames-more fuel addr end_addr (omega arith)) p in
      subst Q (omega arith) here.0
  multiboot-at (suc fuel) addr end_addr (suc k) p low within =
      let later = subst (All OnFrame) (multiboot_frames-more fuel addr end_addr (omega arith)) p in
      subst Q (omega arith)
        (multiboot-at fuel (addr + page_size) end_addr k later.1 (omega arith) (omega arith))

  -- every page of an allocated section up to its last byte but one, the screen's, and those from
  -- the start of the multiboot structure on, over eight times its size
  pub record OnPages (mb : MultibootData) : Type 0 where
    pub sections :
        (i k : ℕ)
        → i < mb.elf_symbols.num
        → IsSection (mb.elf_symbols.sectionheaders i)
        → k < ((mb.elf_symbols.sectionheaders i).sh_size - 1 + (page_size - 1)) / page_size
        → Q ((mb.elf_symbols.sectionheaders i).sh_addr / page_size + k)
    pub screen : Q 0xb8
    pub multiboot :
        (k : ℕ) → k * page_size ≤ 8 * mb.start.total_size → Q (mb.start.address / page_size + k)

  pub remap_frames-OnPages :
      (mb : MultibootData) (frames : List (ℕ × ℕ))
      → remap_frames mb ≡ ok frames
      → All OnFrame frames
      → OnPages mb
  unfolding remap_frames get_frame_for_addr
  remap_frames-OnPages mb frames listed p =
      let symbols = mb.elf_symbols in
      let start = mb.start.address in
      let size = mb.start.total_size in
      let (fs, sections, whole) =
        >>=-eq-ok (remap_sections symbols.sectionheaders symbols.num 0)
          (λ fs. ok (fs ++ other_frames mb)) listed in
      let all : All OnFrame (fs ++ other_frames mb) =
        subst (All OnFrame) (sym (same_list whole)) p in
      let others = All-back OnFrame fs (other_frames mb) all in
      record {
        sections = λ i k low is within.
            let (gs, at, on) =
              section_at symbols.sectionheaders symbols.num 0 i fs sections
                (All-front OnFrame fs (other_frames mb) all) low in
            let section = symbols.sectionheaders i in
            let listed' =
              sym (
                ap (λ j. remap_section (symbols.sectionheaders j)) (omega arith)
                ∙ remap_section-run section is)
              ∙ at in
            run-at _ (section.sh_addr / page_size) (section_flags section) k
              (subst (All OnFrame) (sym (same_list listed')) on) within;
        screen = others.0;
        multiboot = λ k within.
            multiboot-at (8 * size / page_size + 1) start (start + 8 * size) k others.1
              (omega arith) (omega arith);
      }
