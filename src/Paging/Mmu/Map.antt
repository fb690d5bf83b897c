-- ===== src/Paging/Mmu/Map.antt =====
-- src/paging.c, `map_page_to_frame`: once it has run, the processor finds the frame.
use os_c.Prelude.{
  ℕ, ◌+◌, ◌-◌, ◌*◌, ◌/◌, ◌%◌, ◌^◌, ◌<◌, ◌≡◌, ◌≢◌, ◌⊎◌, ◌∙◌, refl, arith, some, ap, inl, inr, bit_or,
}
use os_c.Prelude.Bits.{bit_or-digit, zero-bit_or}
use os_c.Memory.{write64}
use os_c.FrameAllocator.{Allocator}
use os_c.Printf.Outcome.{ok}
use os_c.Paging.{get_p4_index, get_p3_index, get_p2_index, get_p1_index, present_bit}
use os_c.Paging.Index.{indices-page}
use os_c.Paging.Entry.{flag_word}
use os_c.Paging.Mmu.{LeadsOn, slot, word_at, Mmu, Machine, machine, map_page_to_frame}
use os_c.Paging.Mmu.Tables.{LeadsOn-same, word-own, word-other, page_behind}
use os_c.Paging.Mmu.Step.{
  Level, entered, get_next-Level, set_entry-slot, entered-LeadsOn, entered-other,
}
use os_c.Paging.Mmu.Step.{entered-present}
use os_c.Paging.Mmu.Walks.{Recursive, Translates, walk-p4, walk-p3, walk-p2, walk-p1, walk-page}

-- What the mapping leaves, when the page's own entry is in the table `t1`.
pub record Mapped (x : Mmu) (m : ℕ → ℕ) (root top page t3 t2 t1 frame hi lo : ℕ) (s' : Machine)
    : Type 0 where
  pub walks : x.walk s'.memory top page ≡ some frame
  pub stays : s'.root ≡ root
  pub translated : Translates s'.memory top page t3 t2 t1 frame
  pub entry : word_at s'.memory t1 (get_p1_index page) ≡ (hi * 2 ^ 40 + frame) * 2 ^ 12 + lo
  pub recursive : Recursive s'.memory root top
  pub kept :
      (t i : ℕ)
      → i < 512
      → word_at m t i % 2 ≡ 1
      → (t1 ≢ t) ⊎ (get_p1_index page ≢ i)
      → word_at s'.memory t i ≡ word_at m t i

Recursive-same :
    (m m' : ℕ → ℕ) (root top : ℕ)
    → word_at m' root 511 ≡ word_at m root 511
    → word_at m' top 511 ≡ word_at m top 511
    → Recursive m root top
    → Recursive m' root top
Recursive-same m m' root top same same' r = record {
  first = LeadsOn-same m m' root 511 top same r.first;
  again = LeadsOn-same m m' top 511 top same' r.again;
}

-- The tables of a page, each there or added: the frames `t3`, `t2` and `t1`, which are not each
-- other's nor the top table's. The page is none of those that the recursive entry maps.
pub record Levels (m : ℕ → ℕ) (root top page : ℕ) (a : Allocator) (t3 t2 t1 : ℕ) : Type 0 where
  pub a3 : Allocator
  pub a2 : Allocator
  pub a1 : Allocator
  pub l4 : Level m top (get_p4_index page) a t3 a3
  pub l3 : Level (entered l4) t3 (get_p3_index page) a3 t2 a2
  pub l2 : Level (entered l3) t2 (get_p2_index page) a2 t1 a1
  pub low : get_p4_index page ≢ 511
  pub t3-root : t3 ≢ root
  pub t2-root : t2 ≢ root
  pub t1-root : t1 ≢ root
  pub t3-top : t3 ≢ top
  pub t2-top : t2 ≢ top
  pub t1-top : t1 ≢ top
  pub t2-t3 : t2 ≢ t3
  pub t1-t3 : t1 ≢ t3
  pub t1-t2 : t1 ≢ t2

bit_or-present : (hi lo : ℕ) → lo % 2 ≡ 1 → bit_or present_bit (flag_word hi lo) ≡ flag_word hi lo
bit_or-present hi lo p =
    omega (arith, p, bit_or-digit 1 (flag_word hi lo), zero-bit_or (flag_word hi lo / 2))

module _ (x : Mmu) (m : ℕ → ℕ) (root top page : ℕ) (a : Allocator) (t3 t2 t1 : ℕ)
    (r : Recursive m root top) (l : Levels m root top page a t3 t2 t1) where
  m4 : ℕ → ℕ
  m4 = entered l.l4

  m3 : ℕ → ℕ
  m3 = entered l.l3

  m2 : ℕ → ℕ
  m2 = entered l.l2

  -- the tables' entries once all tables are there
  record Ready : Type 0 where
    recursive4 : Recursive m4 root top
    recursive3 : Recursive m3 root top
    recursive2 : Recursive m2 root top
    p4_in4 : LeadsOn m4 top (get_p4_index page) t3
    p4_in3 : LeadsOn m3 top (get_p4_index page) t3
    p4_in2 : LeadsOn m2 top (get_p4_index page) t3
    p3_in3 : LeadsOn m3 t3 (get_p3_index page) t2
    p3_in2 : LeadsOn m2 t3 (get_p3_index page) t2
    p2_in2 : LeadsOn m2 t2 (get_p2_index page) t1

  ready : Ready
  unfolding m4 m3 m2
  ready =
      let (i4, i3, i2, i1, sum) = indices-page page in
      let r4 =
        Recursive-same m m4 root top (entered-other l.l4 root 511 i4 (omega arith) (inr l.low))
          (entered-other l.l4 top 511 i4 (omega arith) (inr l.low)) r in
      let r3 =
        Recursive-same m4 m3 root top (entered-other l.l3 root 511 i3 (omega arith) (inl l.t3-root))
          (entered-other l.l3 top 511 i3 (omega arith) (inl l.t3-top)) r4 in
      let p4 = entered-LeadsOn l.l4 in
      let p4' =
        LeadsOn-same m4 m3 top (get_p4_index page) t3
          (entered-other l.l3 top (get_p4_index page) i3 i4 (inl l.t3-top)) p4 in
      let p3 = entered-LeadsOn l.l3 in
      record {
        recursive4 = r4;
        recursive3 = r3;
        recursive2 =
            Recursive-same m3 m2 root top
              (entered-other l.l2 root 511 i2 (omega arith) (inl l.t2-root))
              (entered-other l.l2 top 511 i2 (omega arith) (inl l.t2-top)) r3;
        p4_in4 = p4;
        p4_in3 = p4';
        p4_in2 =
            LeadsOn-same m3 m2 top (get_p4_index page) t3
              (entered-other l.l2 top (get_p4_index page) i2 i4 (inl l.t2-top)) p4';
        p3_in3 = p3;
        p3_in2 =
            LeadsOn-same m3 m2 t3 (get_p3_index page) t2
              (entered-other l.l2 t3 (get_p3_index page) i2 i3 (inl l.t2-t3)) p3;
        p2_in2 = entered-LeadsOn l.l2;
      }

module _ (x : Mmu) (m : ℕ → ℕ) (root top page : ℕ) (a : Allocator) (t3 t2 t1 frame hi lo : ℕ)
    (r : Recursive m root top) (l : Levels m root top page a t3 t2 t1) (fits : frame < 2 ^ 40)
    (high : hi < 2 ^ 12) (low : lo < 2 ^ 12) (present : lo % 2 ≡ 1) where
  own_word : ℕ
  own_word = (hi * 2 ^ 40 + frame) * 2 ^ 12 + lo

  m1 : ℕ → ℕ
  m1 = write64 (entered l.l2) (slot t1 (get_p1_index page)) own_word

  map_page_to_frame-writes :
      map_page_to_frame x page frame (flag_word hi lo) (machine m root a)
      ≡ ok (machine m1 root l.a1)
  unfolding map_page_to_frame m1 own_word m4 m3 m2
  map_page_to_frame-writes =
      let (i4, i3, i2, i1, sum) = indices-page page in
      let p4 = get_p4_index page in
      let p3 = get_p3_index page in
      let p2 = get_p2_index page in
      let q3 = 2 ^ 52 - 2 ^ 9 + p4 in
      let q2 = 2 ^ 52 - 2 ^ 18 + p4 * 2 ^ 9 + p3 in
      let q1 = 2 ^ 52 - 2 ^ 27 + p4 * 2 ^ 18 + p3 * 2 ^ 9 + p2 in
      let t = ready x m root top page a t3 t2 t1 r l in
      let to3 : page_behind (2 ^ 52 - 1) p4 ≡ q3 = omega arith in
      let to2 : page_behind q3 p3 ≡ q2 = omega (arith, i4) in
      let to1 : page_behind q2 p2 ≡ q1 = omega (arith, i4, i3) in
      let step4 =
        get_next-Level x m root (2 ^ 52 - 1) p4 top t3 a l.a3 i4 (omega arith) (omega arith) l.l4
          (walk-p4 x m root top r) (walk-p4 x (entered l.l4) root top t.recursive4) in
      let step3 =
        get_next-Level x (entered l.l4) root q3 p3 t3 t2 l.a3 l.a2 i3 (omega (arith, i4))
          (omega (arith, to2)) l.l3
          (walk-p3 x (entered l.l4) root top t.recursive4 p4 t3 i4 t.p4_in4)
          (walk-p3 x (entered l.l3) root top t.recursive3 p4 t3 i4 t.p4_in3) in
      let step2 =
        get_next-Level x (entered l.l3) root q2 p2 t2 t1 l.a2 l.a1 i2 (omega (arith, i4, i3))
          (omega (arith, to1)) l.l2
          (walk-p2 x (entered l.l3) root top t.recursive3 p4 p3 t3 t2 i4 i3 t.p4_in3 t.p3_in3)
          (walk-p2 x (entered l.l2) root top t.recursive2 p4 p3 t3 t2 i4 i3 t.p4_in2 t.p3_in2) in
      let last =
        set_entry-slot x (machine (entered l.l2) root l.a1) q1 (get_p1_index page) t1 frame hi lo i1
          (omega (arith, i4, i3, i2)) low fits
          (walk-p1 x (entered l.l2) root top t.recursive2 p4 p3 p2 t3 t2 t1 i4 i3 i2 t.p4_in2
            t.p3_in2 t.p2_in2) in
      rw (step4, to3, step3, to2, step2, to1, bit_or-present hi lo present) last

  own-Mapped : Mapped x m root top page t3 t2 t1 frame hi lo (machine m1 root l.a1)
  unfolding m1 own_word m4 m3 m2
  own-Mapped =
      let (i4, i3, i2, i1, sum) = indices-page page in
      let t = ready x m root top page a t3 t2 t1 r l in
      let own : word_at m1 t1 (get_p1_index page) ≡ own_word =
        word-own (entered l.l2) t1 (get_p1_index page) own_word (omega (arith, fits, high, low)) in
      let other : (u j : ℕ)
          → j < 512
          → (t1 ≢ u) ⊎ (get_p1_index page ≢ j)
          → word_at m1 u j ≡ word_at (entered l.l2) u j =
        λ u j p ne. word-other (entered l.l2) t1 (get_p1_index page) own_word u j i1 p ne in
      let r1 =
        Recursive-same (entered l.l2) m1 root top (other root 511 (omega arith) (inl l.t1-root))
          (other top 511 (omega arith) (inl l.t1-top)) t.recursive2 in
      let p4 =
        LeadsOn-same (entered l.l2) m1 top (get_p4_index page) t3
          (other top (get_p4_index page) i4 (inl l.t1-top)) t.p4_in2 in
      let p3 =
        LeadsOn-same (entered l.l2) m1 t3 (get_p3_index page) t2
          (other t3 (get_p3_index page) i3 (inl l.t1-t3)) t.p3_in2 in
      let p2 =
        LeadsOn-same (entered l.l2) m1 t2 (get_p2_index page) t1
          (other t2 (get_p2_index page) i2 (inl l.t1-t2)) t.p2_in2 in
      let t' : Translates m1 top page t3 t2 t1 frame = record {
        p4 = p4;
        p3 = p3;
        p2 = p2;
        p1 = record {
          present = omega (arith, own, present);
          frame = omega (arith, own, low, fits);
        };
      } in
      record {
        walks = walk-page x m1 top page t3 t2 t1 frame t';
        stays = refl;
        translated = t';
        entry = own;
        recursive = r1;
        kept = λ u j p was ne.
            let in4 = entered-present l.l4 u j i4 p was in
            let in3 = entered-present l.l3 u j i3 p (ap (λ w. w % 2) in4 ∙ was) in
            let in2 = entered-present l.l2 u j i2 p (ap (λ w. w % 2) (in3 ∙ in4) ∙ was) in
            other u j p ne ∙ in2 ∙ in3 ∙ in4;
      }

-- For a processor that walks the tables as documented and whose top table's entry 511 leads to a
-- table that leads to itself by its entry 511 (the same table, or a new one that is being filled),
-- and a page outside of that entry's range, if each table of the page below that one is there or
-- its entry is not present and the allocator has a frame for it, these frames are different from
-- each other and from those of the two top tables, and the flags have the present bit and none of
-- the address bits, then `map_page_to_frame` returns, with the processor's top table as it was, and
-- the walk from the table with the entry leads from the page to the frame (below 2 ^ 40): the
-- page's entry holds the frame and the flags, both top tables' entries 511 lead where they led, and
-- every other entry that was present, of any table, is as it was.
pub map_page_to_frame-maps :
    (x : Mmu) (m : ℕ → ℕ) (root top page : ℕ) (a : Allocator) (t3 t2 t1 frame hi lo : ℕ)
    → Recursive m root top
    → Levels m root top page a t3 t2 t1
    → frame < 2 ^ 40
    → hi < 2 ^ 12
    → lo < 2 ^ 12
    → lo % 2 ≡ 1
    → (s' : Machine) × (map_page_to_frame x page frame (flag_word hi lo) (machine m root a) ≡ ok s')
      × Mapped x m root top page t3 t2 t1 frame hi lo s'
unfolding m1 own_word
map_page_to_frame-maps x m root top page a t3 t2 t1 frame hi lo r l fits high low present = (
  machine (m1 x m root top page a t3 t2 t1 frame hi lo r l fits high low present) root l.a1,
  map_page_to_frame-writes x m root top page a t3 t2 t1 frame hi lo r l fits high low present,
  own-Mapped x m root top page a t3 t2 t1 frame hi lo r l fits high low present,
)
