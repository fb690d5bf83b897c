-- ===== src/Paging/Entry.antt =====
-- src/paging.c, `set_page_table_entry` and `get_physical_frame`: a frame and its flags in an entry.
use os_c.Prelude.{ℕ, ◌+◌, ◌*◌, ◌/◌, ◌%◌, ◌^◌, ◌<◌, ◌≡◌, ◌∙◌, some, bit_and, mul64, page_size, arith}
use os_c.Prelude.Bits.{zero-bit_and}
use os_c.Prelude.Fields.{bit_and_low, bit_and_field, bit_or_gap}
use os_c.Memory.{read64, write64, read64-write64}
use os_c.FrameAllocator.{get_frame_for_addr, get_frame_start_addr}
use os_c.Printf.Outcome.{ok}
use os_c.Paging.{set_page_table_entry, get_physical_frame, physical_addr_mask}

pub mask-field : (x : ℕ) → bit_and x physical_addr_mask ≡ x / 2 ^ 12 % 2 ^ 40 * 2 ^ 12
mask-field x = bit_and_field 12 40 x

-- the flags that a frame's entry may have: the low twelve bits, and those from bit 52 on
abbrev pub flag_word : ℕ → ℕ → ℕ
flag_word hi lo = hi * 2 ^ 40 * 2 ^ 12 + lo

-- Whatever the frame, and whatever the flags outside of the address bits, `set_page_table_entry`
-- returns, and what it stores is the frame modulo 2 ^ 40 with the flags.
pub set_page_table_entry-ok :
    (m : ℕ → ℕ) (entry frame hi lo : ℕ)
    → lo < 2 ^ 12
    → set_page_table_entry entry frame (flag_word hi lo) m
      ≡ ok (write64 m entry ((hi * 2 ^ 40 + frame % 2 ^ 40) * 2 ^ 12 + lo))
unfolding set_page_table_entry get_frame_start_addr
set_page_table_entry-ok m entry frame hi lo p =
    let start = mul64 frame page_size in
    let zero_and : bit_and 0 start ≡ 0 = zero-bit_and start in
    let kept : bit_and start physical_addr_mask ≡ frame % 2 ^ 40 * 2 ^ 12 =
      mask-field start ∙ omega arith in
    rw (zero_and, kept, bit_or_gap 12 40 (frame % 2 ^ 40) hi lo (omega arith) p)

-- If a frame below 2 ^ 40 is set in an entry with flags outside of the address bits that have the
-- present bit, the call returns, and `get_physical_frame` reads the frame back.
pub get_physical_frame-set :
    (m : ℕ → ℕ) (entry frame hi lo : ℕ)
    → frame < 2 ^ 40
    → hi < 2 ^ 12
    → lo < 2 ^ 12
    → lo % 2 ≡ 1
    → (m' : ℕ → ℕ) × (set_page_table_entry entry frame (flag_word hi lo) m ≡ ok m')
      × (get_physical_frame m' entry ≡ some frame)
unfolding get_physical_frame get_frame_for_addr
get_physical_frame-set m entry frame hi lo small high low present =
    let word = (hi * 2 ^ 40 + frame % 2 ^ 40) * 2 ^ 12 + lo in
    let back : read64 (write64 m entry word) entry ≡ word =
      read64-write64 m entry word (omega arith) in
    (
      write64 m entry word,
      set_page_table_entry-ok m entry frame hi lo low,
      rw back (ground (arith, bit_and_low 1 word, mask-field word)),
    )
