-- ===== src/Paging/Recursive.antt =====
-- src/paging.c, `descened_page_table`: the addresses under which the tables of a page stand.
use os_c.Prelude.{ℕ, ◌+◌, ◌-◌, ◌*◌, ◌%◌, ◌^◌, ◌<◌, ◌≡◌, ◌∙◌, bit_or, shl64, arith}
use os_c.Prelude.Bits.{bit_or_join}
use os_c.Prelude.Fields.{bit_and_low}
use os_c.Memory.{read64}
use os_c.Paging.{
  descened_page_table, entry_at, p4_table, get_p4_index, get_p3_index, get_p2_index, get_p1_index,
}
use os_c.Paging.Index.{indices-page}

-- the bit that the processor looks at
abbrev pub IsPresent : (ℕ → ℕ) → ℕ → ℕ → Type 0
IsPresent m table index = read64 m (entry_at table index) % 2 ≡ 1

pub descened-present :
    (m : ℕ → ℕ) (table index : ℕ)
    → index < 512
    → IsPresent m table index
    → descened_page_table m table index ≡ bit_or (shl64 table 9) (index * 2 ^ 12)
unfolding descened_page_table
descened-present m table index p q =
    ground (arith, bit_and_low 1 (read64 m (entry_at table index)), p, q)

pub descened-absent :
    (m : ℕ → ℕ) (table index : ℕ)
    → read64 m (entry_at table index) % 2 ≡ 0
    → descened_page_table m table index ≡ 0
unfolding descened_page_table
descened-absent m table index q = ground (arith, bit_and_low 1 (read64 m (entry_at table index)), q)

-- A table stands at a multiple of 2 ^ 21 after the shift by nine.
pub or-index :
    (q index : ℕ) → index < 512 → bit_or (q * 2 ^ 21) (index * 2 ^ 12) ≡ q * 2 ^ 21 + index * 2 ^ 12
or-index q index p = bit_or_join 21 q (index * 2 ^ 12) (omega arith)

pub descended :
    (m : ℕ → ℕ) (q index : ℕ)
    → index < 512
    → q < 2 ^ 52
    → IsPresent m (q * 2 ^ 12) index
    → descened_page_table m (q * 2 ^ 12) index ≡ q % 2 ^ 43 * 2 ^ 21 + index * 2 ^ 12
descended m q index p small present =
    let shifted : shl64 (q * 2 ^ 12) 9 ≡ q % 2 ^ 43 * 2 ^ 21 = omega arith in
    descened-present m (q * 2 ^ 12) index p present ∙ rw shifted (or-index (q % 2 ^ 43) index p)

-- The tables of a page stand at the end of the address space, in the order of the pages.
abbrev pub p3_table : ℕ → ℕ
p3_table page = (2 ^ 52 - 2 ^ 9 + get_p4_index page) * 2 ^ 12

abbrev pub p2_table : ℕ → ℕ
p2_table page = (2 ^ 52 - 2 ^ 18 + get_p4_index page * 2 ^ 9 + get_p3_index page) * 2 ^ 12

abbrev pub p1_table : ℕ → ℕ
p1_table page =
    (2 ^ 52 - 2 ^ 27 + get_p4_index page * 2 ^ 18 + get_p3_index page * 2 ^ 9 + get_p2_index page)
    * 2 ^ 12

-- The tables of a page are there.
pub record IsMapped (m : ℕ → ℕ) (page : ℕ) : Type 0 where
  pub p4_entry : IsPresent m p4_table (get_p4_index page)
  pub p3_entry : IsPresent m (p3_table page) (get_p3_index page)
  pub p2_entry : IsPresent m (p2_table page) (get_p2_index page)

pub descended-p3 :
    (m : ℕ → ℕ) (page : ℕ)
    → IsMapped m page
    → descened_page_table m p4_table (get_p4_index page) ≡ p3_table page
descended-p3 m page t =
    let (i4, i3, i2, i1, sum) = indices-page page in
    descended m (2 ^ 52 - 1) (get_p4_index page) i4 (omega arith) t.p4_entry ∙ omega arith

pub descended-p2 :
    (m : ℕ → ℕ) (page : ℕ)
    → IsMapped m page
    → descened_page_table m (p3_table page) (get_p3_index page) ≡ p2_table page
descended-p2 m page t =
    let (i4, i3, i2, i1, sum) = indices-page page in
    descended m (2 ^ 52 - 2 ^ 9 + get_p4_index page) (get_p3_index page) i3 (omega (arith, i4))
      t.p3_entry
    ∙ omega (arith, i4)

pub descended-p1 :
    (m : ℕ → ℕ) (page : ℕ)
    → IsMapped m page
    → descened_page_table m (p2_table page) (get_p2_index page) ≡ p1_table page
descended-p1 m page t =
    let (i4, i3, i2, i1, sum) = indices-page page in
    descended m (2 ^ 52 - 2 ^ 18 + get_p4_index page * 2 ^ 9 + get_p3_index page)
      (get_p2_index page) i2 (omega (arith, i4, i3)) t.p2_entry
    ∙ omega (arith, i4, i3)

-- The entry of a page in its last table stands at eight times its number, from 2 ^ 64 - 2 ^ 39 on.
pub p1_entry-page :
    (page : ℕ)
    → entry_at (p1_table page) (get_p1_index page) ≡ 2 ^ 64 - 2 ^ 39 + 8 * (page % 2 ^ 36)
p1_entry-page page =
    let (i4, i3, i2, i1, sum) = indices-page page in omega (arith, i4, i3, i2, i1, sum)
