-- ===== src/Paging/Mmu/Tests.antt =====
-- src/paging.c: a processor that walks through the tables, and a page that is mapped in an empty top table.
use os_c.Prelude.{
  ℕ, ◌+◌, ◌*◌, ◌/◌, ◌%◌, ◌^◌, ◌≡◌, ◌==◌, ◌&&◌, if◌then◌else◌, true, refl, Option, none, some, arith,
  zero, suc, ◌≢◌, ◌⊎◌, inl, inr,
}
use os_c.Memory.{read_bytes, write_bytes, read64, write64, store}
use os_c.FrameAllocator.{
  Allocator, allocate_frame, allocate_loop, round, get_frame_for_addr, switch_area, select_area,
  choose, success,
}
use os_c.FrameAllocator.Tests.{machine}
use os_c.Printf.Outcome.{ok}
use os_c.Paging.{get_p4_index, get_p3_index, get_p2_index, get_p1_index}
use os_c.Paging.Entry.{flag_word}
use os_c.Paging.Mmu.{
  Leads, LeadsOn, slot, word_at, Mmu, Machine, map_page_to_frame, map_page, identity_map_page,
}
use os_c.Paging.Mmu.Step.{there, made}
use os_c.Paging.Mmu.Walks.{Recursive, Translates}
use os_c.Paging.Mmu.Pages.{map_page_to_frame-others, map_page-maps, identity_map_page-maps}
use os_c.Paging.Mmu.Map.{Levels, Mapped, map_page_to_frame-maps}

abbrev pub then_walk : Option ℕ → (ℕ → Option ℕ) → Option ℕ
then_walk none next = none
then_walk (some t) next = next t

unfoldable pub table_entry : (ℕ → ℕ) → ℕ → ℕ → Option ℕ
table_entry m t i =
    let word = word_at m t i in
    if (word % 2 == 1) && (word / 2 ^ 7 % 2 == 0) then some (word / 2 ^ 12 % 2 ^ 40) else none

unfoldable pub page_entry : (ℕ → ℕ) → ℕ → ℕ → Option ℕ
page_entry m t i =
    let word = word_at m t i in if word % 2 == 1 then some (word / 2 ^ 12 % 2 ^ 40) else none

abbrev pub walk : (ℕ → ℕ) → ℕ → ℕ → Option ℕ
walk m root page = then_walk (table_entry m root (page / 2 ^ 27 % 512)) λ t3.
    then_walk (table_entry m t3 (page / 2 ^ 18 % 512))
      λ t2. then_walk (table_entry m t2 (page / 2 ^ 9 % 512)) λ t1. page_entry m t1 (page % 512)

pub table_entry-LeadsOn : (m : ℕ → ℕ) (t i f : ℕ) → LeadsOn m t i f → table_entry m t i ≡ some f
unfolding table_entry
table_entry-LeadsOn m t i f l =
    let present : (word_at m t i % 2 == 1) ≡ true = ground (arith, l.leads.present) in
    let small : (word_at m t i / 2 ^ 7 % 2 == 0) ≡ true = ground (arith, l.small) in
    rw (present, small, l.leads.frame) refl

pub page_entry-Leads : (m : ℕ → ℕ) (t i f : ℕ) → Leads m t i f → page_entry m t i ≡ some f
unfolding page_entry
page_entry-Leads m t i f l =
    let present : (word_at m t i % 2 == 1) ≡ true = ground (arith, l.present) in
    rw (present, l.frame) refl

abbrev pub processor : Mmu
processor = record {
  walk = walk;
  walks = λ m root page t3 t2 t1 f l4 l3 l2 l1.
      rw
        (
          table_entry-LeadsOn m root (page / 2 ^ 27 % 512) t3 l4,
          table_entry-LeadsOn m t3 (page / 2 ^ 18 % 512) t2 l3,
          table_entry-LeadsOn m t2 (page / 2 ^ 9 % 512) t1 l2,
        )
        (page_entry-Leads m t1 (page % 512) f l1);
}

-- the top table in the frame 1, with nothing but its last entry
abbrev empty : ℕ → ℕ
empty = write64 (λ a. 0) (slot 1 511) 0x1003

empty-Recursive : Recursive empty 1 1
unfolding read64 read_bytes write64 write_bytes store
empty-Recursive = record {
  first = record { leads = record { present = refl; frame = refl }; small = refl };
  again = record { leads = record { present = refl; frame = refl }; small = refl };
}

abbrev pub frames : Allocator
frames = machine 3 0

abbrev after : ℕ → Allocator → Allocator
after zero a = a
after (suc n) a = after n (allocate_frame a).allocator

-- The heap's first page gets its three tables from the allocator.
empty-Levels : Levels empty 1 1 0x40000 frames 4 6 7
unfolding allocate_frame allocate_loop round get_frame_for_addr switch_area select_area choose
    get_p4_index get_p3_index get_p2_index get_p1_index read64 read_bytes write64 write_bytes store
empty-Levels = record {
  a3 = after 1 frames;
  a2 = after 2 frames;
  a1 = after 3 frames;
  l4 = made _ refl (record { status = refl; number = refl; allocator = refl }) (omega arith);
  l3 = made _ refl (record { status = refl; number = refl; allocator = refl }) (omega arith);
  l2 = made _ refl (record { status = refl; number = refl; allocator = refl }) (omega arith);
  low = ground arith;
  t3-root = ground arith;
  t2-root = ground arith;
  t1-root = ground arith;
  t3-top = ground arith;
  t2-top = ground arith;
  t1-top = ground arith;
  t2-t3 = ground arith;
  t1-t3 = ground arith;
  t1-t2 = ground arith;
}

map_page_to_frame-maps_example :
    (s' : Machine) × (map_page_to_frame processor 0x40000 9
        (flag_word 0 3)
        (record { memory = empty; root = 1; allocator = frames })
      ≡ ok s')
    × Mapped processor empty 1 1 0x40000 4 6 7 9 0 3 s'
map_page_to_frame-maps_example =
    map_page_to_frame-maps processor empty 1 1 0x40000 frames 4 6 7 9 0 3 empty-Recursive
      empty-Levels (omega arith) (omega arith) (omega arith) refl

first_given :
    allocate_frame frames ≡ record { status = success; number = 4; allocator = after 1 frames }
unfolding allocate_frame allocate_loop round get_frame_for_addr switch_area select_area choose
first_given = refl

-- the same once the allocator has handed out a frame
later-Levels : Levels empty 1 1 0x40000 (after 1 frames) 6 7 8
unfolding allocate_frame allocate_loop round get_frame_for_addr switch_area select_area choose
    get_p4_index get_p3_index get_p2_index get_p1_index read64 read_bytes write64 write_bytes store
later-Levels = record {
  a3 = after 2 frames;
  a2 = after 3 frames;
  a1 = after 4 frames;
  l4 = made _ refl (record { status = refl; number = refl; allocator = refl }) (omega arith);
  l3 = made _ refl (record { status = refl; number = refl; allocator = refl }) (omega arith);
  l2 = made _ refl (record { status = refl; number = refl; allocator = refl }) (omega arith);
  low = ground arith;
  t3-root = ground arith;
  t2-root = ground arith;
  t1-root = ground arith;
  t3-top = ground arith;
  t2-top = ground arith;
  t1-top = ground arith;
  t2-t3 = ground arith;
  t1-t3 = ground arith;
  t1-t2 = ground arith;
}

map_page-maps_example :
    (s' : Machine) × (map_page processor 0x40000
        (flag_word 0 3)
        (record { memory = empty; root = 1; allocator = frames })
      ≡ ok s')
    × Mapped processor empty 1 1 0x40000 6 7 8 4 0 3 s'
map_page-maps_example =
    map_page-maps processor empty 1 1 0x40000 frames (after 1 frames) 6 7 8 4 0 3 empty-Recursive
      (inl first_given) later-Levels (omega arith) (omega arith) (omega arith) refl

-- the page 0 is mapped to the frame 40, by the tables in the frames 30, 31 and 32
abbrev pub one_page : ℕ → ℕ
one_page =
    write64
      (write64 (write64 (write64 empty (slot 1 0) (30 * 2 ^ 12 + 3)) (slot 30 0) (31 * 2 ^ 12 + 3))
        (slot 31 0) (32 * 2 ^ 12 + 3))
      (slot 32 0) (40 * 2 ^ 12 + 3)

pub one_page-Recursive : Recursive one_page 1 1
unfolding read64 read_bytes write64 write_bytes store
one_page-Recursive = record {
  first = record { leads = record { present = refl; frame = refl }; small = refl };
  again = record { leads = record { present = refl; frame = refl }; small = refl };
}

one_page-Translates : Translates one_page 1 0 30 31 32 40
unfolding read64 read_bytes write64 write_bytes store get_p4_index get_p3_index get_p2_index
    get_p1_index
one_page-Translates = record {
  p4 = record { leads = record { present = refl; frame = refl }; small = refl };
  p3 = record { leads = record { present = refl; frame = refl }; small = refl };
  p2 = record { leads = record { present = refl; frame = refl }; small = refl };
  p1 = record { present = refl; frame = refl };
}

-- the page 9 is in the same last table
one_page-Levels : Levels one_page 1 1 9 frames 30 31 32
unfolding read64 read_bytes write64 write_bytes store get_p4_index get_p3_index get_p2_index
    get_p1_index
one_page-Levels = record {
  a3 = frames;
  a2 = frames;
  a1 = frames;
  l4 = there (record { leads = record { present = refl; frame = refl }; small = refl });
  l3 = there (record { leads = record { present = refl; frame = refl }; small = refl });
  l2 = there (record { leads = record { present = refl; frame = refl }; small = refl });
  low = ground arith;
  t3-root = ground arith;
  t2-root = ground arith;
  t1-root = ground arith;
  t3-top = ground arith;
  t2-top = ground arith;
  t1-top = ground arith;
  t2-t3 = ground arith;
  t1-t3 = ground arith;
  t1-t2 = ground arith;
}

nine-apart : (◌≢◌ {A = ℕ} 32 32) ⊎ (get_p1_index 9 ≢ get_p1_index 0)
unfolding get_p1_index
nine-apart = inr (ground arith)

map_page_to_frame-others_example :
    (s' : Machine) × (map_page_to_frame processor 9 9
        (flag_word 0 3)
        (record { memory = one_page; root = 1; allocator = frames })
      ≡ ok s')
    × (walk s'.memory 1 0 ≡ some 40)
map_page_to_frame-others_example =
    map_page_to_frame-others processor one_page 1 1 9 frames 30 31 32 9 0 3 0 30 31 32 40
      one_page-Recursive one_page-Levels (omega arith) (omega arith) (omega arith) refl
      one_page-Translates (ground arith) (ground arith) nine-apart

identity_map_page-maps_example :
    (s' : Machine) × (identity_map_page processor 9
        (flag_word 0 3)
        (record { memory = one_page; root = 1; allocator = frames })
      ≡ ok s')
    × Mapped processor one_page 1 1 9 30 31 32 9 0 3 s'
identity_map_page-maps_example =
    identity_map_page-maps processor one_page 1 1 frames 30 31 32 9 0 3 one_page-Recursive
      one_page-Levels (omega arith) (omega arith) (omega arith) refl
