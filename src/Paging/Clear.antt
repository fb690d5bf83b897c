-- ===== src/Paging/Clear.antt =====
-- src/paging.c, `init_page_table`.
use os_c.Prelude.{ℕ, zero, suc, ◌+◌, ◌*◌, ◌^◌, ◌≤◌, ◌<◌, ◌≡◌, refl, ◌∙◌, inl, arith}
use native.Mathlib.Decide.{dec_lt}
use os_c.Memory.{read64, read64-write64, read64-apart}
use os_c.Paging.{set_unused, clear_entries, init_page_table, entry_at}

clear_entries-below :
    (n i table j : ℕ) (m : ℕ → ℕ)
    → j < i
    → table + 8 * (i + n) ≤ 2 ^ 64
    → read64 (clear_entries n i table m) (entry_at table j) ≡ read64 m (entry_at table j)
unfolding clear_entries set_unused
clear_entries-below zero i table j m p q = refl
clear_entries-below (suc n) i table j m p q =
    clear_entries-below n (i + 1) table j (set_unused (entry_at table i) m) (omega arith)
      (omega arith)
    ∙ read64-apart m (entry_at table j) (entry_at table i) 0 (inl (omega arith))

clear_entries-clears :
    (n i table j : ℕ) (m : ℕ → ℕ)
    → i ≤ j
    → j < i + n
    → table + 8 * (i + n) ≤ 2 ^ 64
    → read64 (clear_entries n i table m) (entry_at table j) ≡ 0
unfolding clear_entries set_unused
clear_entries-clears zero i table j m p q r = omega arith
clear_entries-clears (suc n) i table j m p q r =
    let m' = set_unused (entry_at table i) m in
    elim (dec_lt i j) [
      | yes later ↦
          clear_entries-clears n (i + 1) table j m' (omega arith) (omega arith) (omega arith)
      | no here ↦
          let same : j ≡ i = omega arith in
          rw same (
            clear_entries-below n (i + 1) table i m' (omega arith) (omega arith)
            ∙ read64-write64 m (entry_at table i) 0 (omega arith))
    ]

-- For a table that ends within 2 ^ 64, every entry reads 0 after `init_page_table`.
pub init_page_table-clears :
    (table : ℕ) (m : ℕ → ℕ) (index : ℕ)
    → table + 4096 ≤ 2 ^ 64
    → index < 512
    → read64 (init_page_table table m) (entry_at table index) ≡ 0
unfolding init_page_table
init_page_table-clears table m index room p =
    clear_entries-clears 512 0 table index m (omega arith) (omega arith) (omega arith)
