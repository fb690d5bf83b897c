-- ===== src/Paging/Mmu/Fill/Sections.antt =====
-- src/paging.c, `remap_kernel`: the loops over the sections and over the other frames.
use os_c.Prelude.{ℕ, zero, suc, ◌+◌, ◌≡◌, ◌∙◌, refl, sym, ap, some, List, [], ◌∷◌, ◌++◌}
use os_c.FrameAllocator.{Allocator}
use os_c.Multiboot.{ElfSectionHeader, MultibootData}
use os_c.Printf.Outcome.{Result, ok, ◌>>=◌, >>=-eq-ok, >>=-ext, >>=-assoc}
use os_c.Paging.Remap.{remap_section, remap_sections, remap_frames, other_frames}
use os_c.Paging.Mmu.{Mmu, Machine, machine, identity_map_page}
use os_c.Paging.Mmu.Walks.{Recursive}
use os_c.Paging.Mmu.Remap.{Printed, say_section, identity_map_all, map_sections, map_kernel}
use os_c.Paging.Mmu.Fill.Pages.{split_sections, OnPages, remap_frames-OnPages}
use os_c.Paging.Mmu.Fill.{CanFill, Filled, identity_map_all-fills}

same_machine : {s s' : Machine} → ok s ≡ ok s' → s ≡ s'
same_machine same = cc

>>=-then {ℓ κ} :
    {A : Type ℓ} {B : Type κ} (r : Result A) (next : A → Result B) {a : A} {out : Result B}
    → r ≡ ok a
    → next a ≡ out
    → (r >>= next) ≡ out
>>=-then r next returned rest = ap (λ q. q >>= next) returned ∙ rest

module _ (x : Mmu) where
  identity_map_all-++ :
      (fs gs : List (ℕ × ℕ)) (s : Machine)
      → identity_map_all x (fs ++ gs) s ≡ (identity_map_all x fs s >>= identity_map_all x gs)
  unfolding identity_map_all
  identity_map_all-++ [] gs s = refl
  identity_map_all-++ ((frame, flags) ∷ fs) gs s =
      >>=-ext (identity_map_page x frame flags s) (identity_map_all x (fs ++ gs))
        (λ s'. identity_map_all x fs s' >>= identity_map_all x gs)
        (λ s' done. identity_map_all-++ fs gs s')
      ∙ sym (
          >>=-assoc (identity_map_page x frame flags s) (identity_map_all x fs)
            (identity_map_all x gs))

  -- the state between two lists
  split_all :
      (fs gs : List (ℕ × ℕ)) (s s' : Machine)
      → identity_map_all x (fs ++ gs) s ≡ ok s'
      → (s1 : Machine) × (identity_map_all x fs s ≡ ok s1) × (identity_map_all x gs s1 ≡ ok s')
  split_all fs gs s s' done =
      >>=-eq-ok (identity_map_all x fs s) (identity_map_all x gs)
        (sym (identity_map_all-++ fs gs s) ∙ done)

  -- The loop maps the frames of all sections, one section after the other.
  map_sections-all :
      (sections : ℕ → ElfSectionHeader) (n i : ℕ) (frames : List (ℕ × ℕ)) (s s' : Machine)
      (printed : Printed)
      → remap_sections sections n i ≡ ok frames
      → identity_map_all x frames s ≡ ok s'
      → (said : Printed) × (map_sections x sections n i (s, printed) ≡ ok (s', said))
  unfolding map_sections remap_sections identity_map_all
  map_sections-all sections zero i frames s s' printed listed done =
      let none : [] ≡ frames = cc in
      let same : ok s ≡ ok s' = ap (λ fs. identity_map_all x fs s) none ∙ done in
      (printed, rw (← same_machine same) refl)
  map_sections-all sections (suc n) i frames s s' printed listed done =
      let (fs, gs, first, rest, both) = split_sections sections n i frames listed in
      let (s1, before, after) = split_all fs gs s s' (rw both done) in
      let (said, looped) =
        map_sections-all sections n (i + 1) gs s1 s' (say_section (sections i) printed) rest
          after in
      (
        said,
        >>=-then (remap_section (sections i)) _ first
            (>>=-then (identity_map_all x fs s) _ before looped),
      )

-- For a processor that walks the tables as documented and whose top table's entry 511 leads to a
-- table that leads to itself by its entry 511 (the same table, or a new one that is being filled),
-- and sections that meet the assertions, so that `remap_frames` lists their frames, the screen's
-- and those of the multiboot structure: if, frame by frame, the tables of the frame's page are
-- there or can be added as `map_page_to_frame` asks, in frames of the depths 3, 2 and 1, and the
-- page's own entry is unused, then the loops of `remap_kernel` return, whatever was printed before.
-- Afterwards the walk from the filled table leads from the page of every listed frame to that
-- frame, and from every page that was mapped through tables of these depths to its frame as before.
-- So it leads to the frame of the same number from these pages: for a section that is allocated, is
-- not empty, starts at a page and ends a page or more below 2 ^ 64, those of its bytes but the last
-- (a last page of one byte is not among them); the page of 0xb8000; and those that follow the start
-- of the multiboot structure within eight times its size.
pub map_kernel-fills :
    (x : Mmu) (kind : ℕ → ℕ) (root top : ℕ) (m : ℕ → ℕ) (a : Allocator) (mb : MultibootData)
    (frames : List (ℕ × ℕ)) (printed : Printed)
    → Recursive m root top
    → remap_frames mb ≡ ok frames
    → CanFill x kind root top m a frames
    → (s' : Machine) × (said : Printed) × (map_kernel x mb (machine m root a, printed)
        ≡ ok (s', said))
      × Filled x kind root top m s'.memory frames
      × OnPages (λ page. x.walk s'.memory top page ≡ some page) mb
unfolding map_kernel remap_frames
map_kernel-fills x kind root top m a mb frames printed r listed can =
    let symbols = mb.elf_symbols in
    let (s', done, filled) = identity_map_all-fills x kind root top m a frames r can in
    let (fs, sections, whole) =
      >>=-eq-ok (remap_sections symbols.sectionheaders symbols.num 0)
        (λ fs. ok (fs ++ other_frames mb)) listed in
    let both : fs ++ other_frames mb ≡ frames = cc in
    let (s1, before, after) =
      split_all x fs (other_frames mb) (machine m root a) s' (rw both done) in
    let (said, looped) =
      map_sections-all x symbols.sectionheaders symbols.num 0 fs (machine m root a) s1 printed
        sections before in
    (
      s',
      said,
      >>=-then (map_sections x symbols.sectionheaders symbols.num 0 (machine m root a, printed)) _
          looped (>>=-then (identity_map_all x (other_frames mb) s1) _ after refl),
      filled,
      remap_frames-OnPages (λ page. x.walk s'.memory top page ≡ some page) mb frames listed
          filled.mapped,
    )
