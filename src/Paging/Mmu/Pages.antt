-- ===== src/Paging/Mmu/Pages.antt =====
-- src/paging.c, `map_page` and `identity_map_page`; and the pages that were mapped before.
use os_c.Prelude.{
  ℕ, ◌/◌, ◌%◌, ◌^◌, ◌<◌, ◌≡◌, ◌≢◌, ◌⊎◌, ◌∙◌, some, ap, inl, inr, true, ltb, leb, ◌||◌, page_size,
  arith,
}
use os_c.FrameAllocator.{Allocator, Status, allocate_frame, get_frame_start_addr}
use os_c.Printf.Outcome.{ok}
use os_c.Paging.{get_page_for_vaddr, get_p4_index, get_p3_index, get_p2_index, get_p1_index}
use os_c.Paging.Index.{indices-page}
use os_c.Paging.Entry.{flag_word}
use os_c.Paging.Mmu.{
  Mmu, Machine, machine, map_given, map_page_to_frame, map_page, identity_map_page,
}
use os_c.Paging.Mmu.Tables.{LeadsOn-same}
use os_c.Paging.Mmu.Walks.{Recursive, Translates, walk-page}
use os_c.Paging.Mmu.Map.{Levels, Mapped, map_page_to_frame-maps}

-- A page that was mapped before is still mapped, if its own entry is another, and the new page's
-- last table is none of its upper ones.
pub Mapped-others :
    (x : Mmu) (m : ℕ → ℕ) (root top page t3 t2 t1 frame hi lo : ℕ) (s' : Machine)
    (other u3 u2 u1 f : ℕ)
    → Mapped x m root top page t3 t2 t1 frame hi lo s'
    → Translates m top other u3 u2 u1 f
    → t1 ≢ top
    → t1 ≢ u3
    → t1 ≢ u2
    → (t1 ≢ u1) ⊎ (get_p1_index page ≢ get_p1_index other)
    → Translates s'.memory top other u3 u2 u1 f
Mapped-others x m root top page t3 t2 t1 frame hi lo s' other u3 u2 u1 f mapped t not4 not3 not2
      not1 =
    let m' = s'.memory in
    let (i4, i3, i2, i1, sum) = indices-page other in
    let same4 = mapped.kept top (get_p4_index other) i4 t.p4.leads.present (inl not4) in
    let same3 = mapped.kept u3 (get_p3_index other) i3 t.p3.leads.present (inl not3) in
    let same2 = mapped.kept u2 (get_p2_index other) i2 t.p2.leads.present (inl not2) in
    let same1 = mapped.kept u1 (get_p1_index other) i1 t.p1.present not1 in
    record {
      p4 = LeadsOn-same m m' top (get_p4_index other) u3 same4 t.p4;
      p3 = LeadsOn-same m m' u3 (get_p3_index other) u2 same3 t.p3;
      p2 = LeadsOn-same m m' u2 (get_p2_index other) u1 same2 t.p2;
      p1 = record {
        present = ap (λ w. w % 2) same1 ∙ t.p1.present;
        frame = ap (λ w. w / 2 ^ 12 % 2 ^ 40) same1 ∙ t.p1.frame;
      };
    }

-- Under the conditions under which `map_page_to_frame` maps a page, another page that was
-- translated before from the table that is filled is translated to the same frame afterwards, if
-- its own entry is not the one that is written, and the new page's last table is none of its upper
-- ones.
pub map_page_to_frame-others :
    (x : Mmu) (m : ℕ → ℕ) (root top page : ℕ) (a : Allocator) (t3 t2 t1 frame hi lo : ℕ)
    (other u3 u2 u1 f : ℕ)
    → Recursive m root top
    → Levels m root top page a t3 t2 t1
    → frame < 2 ^ 40
    → hi < 2 ^ 12
    → lo < 2 ^ 12
    → lo % 2 ≡ 1
    → Translates m top other u3 u2 u1 f
    → t1 ≢ u3
    → t1 ≢ u2
    → (t1 ≢ u1) ⊎ (get_p1_index page ≢ get_p1_index other)
    → (s' : Machine) × (map_page_to_frame x page frame (flag_word hi lo) (machine m root a) ≡ ok s')
      × (x.walk s'.memory top other ≡ some f)
map_page_to_frame-others x m root top page a t3 t2 t1 frame hi lo other u3 u2 u1 f r l fits high low
      present t not3 not2 not1 =
    let (s', done, mapped) =
      map_page_to_frame-maps x m root top page a t3 t2 t1 frame hi lo r l fits high low present in
    (
      s',
      done,
      walk-page x s'.memory top other u3 u2 u1 f (
          Mapped-others x m root top page t3 t2 t1 frame hi lo s' other u3 u2 u1 f mapped t l.t1-top
            not3 not2 not1),
    )

-- Under the conditions of `map_page_to_frame`, `map_page` maps the page to what the allocator
-- writes to the frame, whether the allocator succeeds or fails: the status is not looked at.
pub map_page-maps :
    (x : Mmu) (m : ℕ → ℕ) (root top page : ℕ) (a a' : Allocator) (t3 t2 t1 frame hi lo : ℕ)
    → Recursive m root top
    → (allocate_frame a ≡ record { status = Status.success; number = frame; allocator = a' })
      ⊎ (allocate_frame a ≡ record { status = Status.failure; number = frame; allocator = a' })
    → Levels m root top page a' t3 t2 t1
    → frame < 2 ^ 40
    → hi < 2 ^ 12
    → lo < 2 ^ 12
    → lo % 2 ≡ 1
    → (s' : Machine) × (map_page x page (flag_word hi lo) (machine m root a) ≡ ok s')
      × Mapped x m root top page t3 t2 t1 frame hi lo s'
unfolding map_page map_given
map_page-maps x m root top page a a' t3 t2 t1 frame hi lo r got l fits high low present =
    let (s', done, mapped) =
      map_page_to_frame-maps x m root top page a' t3 t2 t1 frame hi lo r l fits high low present in
    (s', elim got [ inl given ↦ rw given done | inr none ↦ rw none done ], mapped)

-- Under the conditions of `map_page_to_frame`, `identity_map_page` of a frame below 2 ^ 35 returns,
-- and does for the page with the frame's number and the frame what `map_page_to_frame` does.
pub identity_map_page-maps :
    (x : Mmu) (m : ℕ → ℕ) (root top : ℕ) (a : Allocator) (t3 t2 t1 frame hi lo : ℕ)
    → Recursive m root top
    → Levels m root top frame a t3 t2 t1
    → frame < 2 ^ 35
    → hi < 2 ^ 12
    → lo < 2 ^ 12
    → lo % 2 ≡ 1
    → (s' : Machine) × (identity_map_page x frame (flag_word hi lo) (machine m root a) ≡ ok s')
      × Mapped x m root top frame t3 t2 t1 frame hi lo s'
unfolding identity_map_page get_page_for_vaddr get_frame_start_addr
identity_map_page-maps x m root top a t3 t2 t1 frame hi lo r l fits high low present =
    let (s', done, mapped) =
      map_page_to_frame-maps x m root top frame a t3 t2 t1 frame hi lo r l (omega (arith, fits))
        high low present in
    let start = get_frame_start_addr frame in
    let tested : (ltb start 0x0000800000000000 || leb 0xffff800000000000 start) ≡ true =
      ground (arith, fits) in
    let page : start / page_size ≡ frame = omega (arith, fits) in
    (s', rw (tested, page) done, mapped)
