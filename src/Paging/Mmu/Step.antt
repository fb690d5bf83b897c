-- ===== src/Paging/Mmu/Step.antt =====
-- src/paging.c, `get_next_page_table_or_create`: a table that is there, or a new one.
use os_c.Prelude.{
  ℕ, ◌+◌, ◌*◌, ◌%◌, ◌^◌, ◌<◌, ◌≡◌, ◌≢◌, ◌⊎◌, ◌∙◌, refl, leb, ◌==◌, false, arith, some, ap, inl, inr,
}
use native.Mathlib.Decide.{ℕ_discrete}
use os_c.Memory.{write64}
use os_c.FrameAllocator.{Allocator, Status, allocate_frame}
use os_c.Printf.Outcome.{ok}
use os_c.Paging.{entry_at}
use os_c.Paging.Entry.{flag_word, set_page_table_entry-ok}
use os_c.Paging.Mmu.{
  LeadsOn, slot, word_at, Mmu, Machine, machine, physical, descend, set_entry, install, create,
  get_next_page_table_or_create,
}
use os_c.Paging.Mmu.Tables.{
  word-own, word-other, page_behind, table_behind-present, table_behind-absent, physical-slot,
}

-- how a call of the allocator went
pub record Gives (a : Allocator) (f : ℕ) (a' : Allocator) : Type 0 where
  pub status : (allocate_frame a).status ≡ Status.success
  pub number : (allocate_frame a).number ≡ f
  pub allocator : (allocate_frame a).allocator ≡ a'

-- The entry `i` of the table in the frame `t` leads to the frame `f`, or is not present, and the
-- allocator `a` hands out `f` for a new table.
pub data Level (m : ℕ → ℕ) (t i : ℕ) (a : Allocator) (f : ℕ) : Allocator → Type 0 where
  there : LeadsOn m t i f → Level m t i a f a
  made : (a' : Allocator) → word_at m t i % 2 ≡ 0 → Gives a f a' → f < 2 ^ 40 → Level m t i a f a'

-- the memory once the level is there
abbrev pub entered :
    {m : ℕ → ℕ} {t i : ℕ} {a : Allocator} {f : ℕ} {a' : Allocator} → Level m t i a f a' → ℕ → ℕ
entered {m} (there l) = m
entered {m} {t} {i} {a} {f} (made a' absent g small) = write64 m (slot t i) (f * 2 ^ 12 + 3)

pub descend-present :
    (x : Mmu) (s : Machine) (q i t : ℕ)
    → i < 512
    → q < 2 ^ 52
    → x.walk s.memory s.root q ≡ some t
    → word_at s.memory t i % 2 ≡ 1
    → descend x (q * 2 ^ 12) i s ≡ ok (page_behind q i * 2 ^ 12)
unfolding descend
descend-present x s q i t p small found present =
    let inside : leb 512 i ≡ false = ground (arith, p) in
    let at : physical x (entry_at (q * 2 ^ 12) i) s ≡ ok (slot t i) =
      physical-slot x s q i t p small found in
    rw (inside, at)
      (ap (λ a. ok a) (table_behind-present (word_at s.memory t i) q i p small present))

descend-absent :
    (x : Mmu) (s : Machine) (q i t : ℕ)
    → i < 512
    → q < 2 ^ 52
    → x.walk s.memory s.root q ≡ some t
    → word_at s.memory t i % 2 ≡ 0
    → descend x (q * 2 ^ 12) i s ≡ ok 0
unfolding descend
descend-absent x s q i t p small found absent =
    let inside : leb 512 i ≡ false = ground (arith, p) in
    let at = physical-slot x s q i t p small found in
    rw (inside, at) (ap (λ a. ok a) (table_behind-absent (word_at s.memory t i) q i absent))

-- `set_entry` through the mapping writes the entry in the table's frame.
pub set_entry-slot :
    (x : Mmu) (s : Machine) (q i t frame hi lo : ℕ)
    → i < 512
    → q < 2 ^ 52
    → lo < 2 ^ 12
    → frame < 2 ^ 40
    → x.walk s.memory s.root q ≡ some t
    → set_entry x (entry_at (q * 2 ^ 12) i) frame (flag_word hi lo) s
      ≡ ok (record s { memory = write64 s.memory (slot t i) ((hi * 2 ^ 40 + frame) * 2 ^ 12 + lo) })
unfolding set_entry
set_entry-slot x s q i t frame hi lo p small low fits found =
    let same : frame % 2 ^ 40 ≡ frame = omega (arith, fits) in
    rw
      (
        physical-slot x s q i t p small found,
        set_page_table_entry-ok s.memory (slot t i) frame hi lo low,
        same,
      )
      refl

-- `create` sets the entry of the frame that the allocator hands out.
create-made :
    (x : Mmu) (m : ℕ → ℕ) (root q i t f : ℕ) (a a' : Allocator)
    → i < 512
    → q < 2 ^ 52
    → f < 2 ^ 40
    → Gives a f a'
    → x.walk m root q ≡ some t
    → create x (q * 2 ^ 12) i (machine m root a)
      ≡ ok (machine (write64 m (slot t i) (f * 2 ^ 12 + 3)) root a')
unfolding create install
create-made x m root q i t f a a' p small fits g found =
    let set =
      set_entry-slot x (machine m root a') q i t f 0 3 p small (omega arith) fits found
      ∙ ap (λ w. ok (machine (write64 m (slot t i) w) root a')) (omega arith) in
    rw (g.status, g.number, g.allocator) set

-- Where the table in the page `q` is mapped, before and after, `get_next_page_table_or_create` returns
-- the address of the table that the entry leads to then.
pub get_next-Level :
    (x : Mmu) (m : ℕ → ℕ) (root q i t f : ℕ) (a a' : Allocator)
    → i < 512
    → q < 2 ^ 52
    → 0 < page_behind q i
    → (l : Level m t i a f a') → x.walk m root q ≡ some t
    → x.walk (entered l) root q ≡ some t
    → get_next_page_table_or_create x (q * 2 ^ 12) i (machine m root a)
      ≡ ok (page_behind q i * 2 ^ 12, machine (entered l) root a')
unfolding get_next_page_table_or_create
get_next-Level x m root q i t f a a' p small nonzero (there l) before found =
    let next = page_behind q i * 2 ^ 12 in
    let to_next : descend x (q * 2 ^ 12) i (machine m root a) ≡ ok next =
      descend-present x (machine m root a) q i t p small before l.leads.present in
    let other : (next == 0) ≡ false = ground (arith, nonzero) in rw (to_next, other, to_next) refl
get_next-Level x m root q i t f a _ p small nonzero (made a' absent g fits) before found =
    let next = page_behind q i * 2 ^ 12 in
    let m' = write64 m (slot t i) (f * 2 ^ 12 + 3) in
    let nowhere = descend-absent x (machine m root a) q i t p small before absent in
    let own : word_at m' t i ≡ f * 2 ^ 12 + 3 =
      word-own m t i (f * 2 ^ 12 + 3) (omega (arith, fits)) in
    let to_next : descend x (q * 2 ^ 12) i (machine m' root a') ≡ ok next =
      descend-present x (machine m' root a') q i t p small found (omega (arith, own)) in
    rw (nowhere, create-made x m root q i t f a a' p small fits g before, to_next) refl

-- The entry leads to the table, and nothing else is written.
pub entered-LeadsOn :
    {m : ℕ → ℕ} {t i : ℕ} {a : Allocator} {f : ℕ} {a' : Allocator} (l : Level m t i a f a')
    → LeadsOn (entered l) t i f
entered-LeadsOn (there l) = l
entered-LeadsOn {m} {t} {i} {a} {f} (made a' absent g fits) =
    let own : word_at (write64 m (slot t i) (f * 2 ^ 12 + 3)) t i ≡ f * 2 ^ 12 + 3 =
      word-own m t i (f * 2 ^ 12 + 3) (omega (arith, fits)) in
    record {
      leads = record { present = omega (arith, own); frame = omega (arith, own, fits) };
      small = omega (arith, own);
    }

pub entered-other :
    {m : ℕ → ℕ} {t i : ℕ} {a : Allocator} {f : ℕ} {a' : Allocator} (l : Level m t i a f a')
    (u j : ℕ)
    → i < 512
    → j < 512
    → (t ≢ u) ⊎ (i ≢ j)
    → word_at (entered l) u j ≡ word_at m u j
entered-other (there l) u j p q ne = refl
entered-other {m} {t} {i} {a} {f} (made a' absent g fits) u j p q ne =
    word-other m t i (f * 2 ^ 12 + 3) u j p q ne

-- A present entry is not written.
pub entered-present :
    {m : ℕ → ℕ} {t i : ℕ} {a : Allocator} {f : ℕ} {a' : Allocator} (l : Level m t i a f a')
    (u j : ℕ)
    → i < 512
    → j < 512
    → word_at m u j % 2 ≡ 1
    → word_at (entered l) u j ≡ word_at m u j
entered-present (there l) u j p q present = refl
entered-present {m} {t} {i} {a} {f} (made a' absent g fits) u j p q present =
    elim (ℕ_discrete t u) [
      | no ne ↦ word-other m t i (f * 2 ^ 12 + 3) u j p q (inl ne)
      | yes same ↦ elim (ℕ_discrete i j) [
        | no ne ↦ word-other m t i (f * 2 ^ 12 + 3) u j p q (inr ne)
        | yes same' ↦
            let both : word_at m u j % 2 ≡ 0 = rw (← same, ← same') absent in
            omega (arith, both, present)
      ]
    ]
