-- ===== src/Paging/Mmu/Tables.antt =====
-- src/paging.c: the entries of the tables in physical memory, and what a write to one of them leaves.
use os_c.Prelude.{
  ℕ, ◌+◌, ◌*◌, ◌/◌, ◌%◌, ◌^◌, ◌<◌, ◌≤◌, ◌≡◌, ◌≢◌, ◌⊎◌, ◌∙◌, page_size, arith, some, ap,
}
use os_c.Prelude.Fields.{bit_and_low}
use os_c.Memory.{read64-write64, read64-apart, write64}
use os_c.Printf.Outcome.{ok}
use os_c.Paging.{entry_at, table_behind}
use os_c.Paging.Recursive.{or-index}
use os_c.Paging.Mmu.{LeadsOn, slot, word_at, Mmu, Machine, physical}

slot_apart :
    (t i u j : ℕ)
    → i < 512
    → j < 512
    → (t ≢ u) ⊎ (i ≢ j)
    → (slot u j + 8 ≤ slot t i) ⊎ (slot t i + 8 ≤ slot u j)
slot_apart t i u j p q ne = ground (arith, p, q, ne)

pub word-other :
    (m : ℕ → ℕ) (t i x u j : ℕ)
    → i < 512
    → j < 512
    → (t ≢ u) ⊎ (i ≢ j)
    → word_at (write64 m (slot t i) x) u j ≡ word_at m u j
word-other m t i x u j p q ne = read64-apart m (slot u j) (slot t i) x (slot_apart t i u j p q ne)

pub word-own : (m : ℕ → ℕ) (t i x : ℕ) → x < 2 ^ 64 → word_at (write64 m (slot t i) x) t i ≡ x
word-own m t i x p = read64-write64 m (slot t i) x p

pub LeadsOn-same :
    (m m' : ℕ → ℕ) (t i f : ℕ) → word_at m' t i ≡ word_at m t i → LeadsOn m t i f → LeadsOn m' t i f
LeadsOn-same m m' t i f same l = record {
  leads = record {
    present = ap (λ w. w % 2) same ∙ l.leads.present;
    frame = ap (λ w. w / 2 ^ 12 % 2 ^ 40) same ∙ l.leads.frame;
  };
  small = ap (λ w. w / 2 ^ 7 % 2) same ∙ l.small;
}

-- the page of the table that the entry `i` of the table in the page `q` leads to
abbrev pub page_behind : ℕ → ℕ → ℕ
page_behind q i = q % 2 ^ 43 * 2 ^ 9 + i

pub table_behind-present :
    (word q i : ℕ)
    → i < 512
    → q < 2 ^ 52
    → word % 2 ≡ 1
    → table_behind word (q * 2 ^ 12) i ≡ page_behind q i * 2 ^ 12
table_behind-present word q i p small present =
    let found : q % 2 ^ 43 * 2 ^ 21 + i * 2 ^ 12 ≡ page_behind q i * 2 ^ 12 = omega arith in
    ground (arith, bit_and_low 1 word, present, or-index (q % 2 ^ 43) i p, found)

pub table_behind-absent : (word q i : ℕ) → word % 2 ≡ 0 → table_behind word (q * 2 ^ 12) i ≡ 0
table_behind-absent word q i absent = ground (arith, bit_and_low 1 word, absent)

-- Where the walk finds the table's frame, its entries are the frame's.
pub physical-slot :
    (x : Mmu) (s : Machine) (q i t : ℕ)
    → i < 512
    → q < 2 ^ 52
    → x.walk s.memory s.root q ≡ some t
    → physical x (entry_at (q * 2 ^ 12) i) s ≡ ok (slot t i)
physical-slot x s q i t p small found =
    let page : entry_at (q * 2 ^ 12) i / page_size ≡ q = omega arith in
    rw (page, found) (ap (λ a. ok a) (omega arith))
