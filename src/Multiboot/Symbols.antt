-- ===== src/Multiboot/Symbols.antt =====
-- src/multiboot.c, `print_elf_symbols` and `parse_multiboot_data`.
use os_c.Prelude.{ℕ, zero, suc, ◌+◌, ◌*◌, ◌==◌, if◌then◌else◌, [], ◌∷◌, add64, u32, bit_and, codes}
use os_c.Memory.{read32, read64}
use os_c.Printf.Outcome.{Result, ok, fault, ◌>>=◌}
use os_c.Multiboot.{Pointers, say, parse_tags, get_sh_flag_string}

-- the loop over the bits 1, 2, ..., 2 ^ 62; the flag is an `enum` of 32 bits
unfoldable pub say_flags : ℕ → ℕ → ℕ → Pointers → Pointers
say_flags zero i flags p = p
say_flags (suc n) i flags p =
    let flag = u32 (bit_and i flags) in
    say_flags n (i * 2) flags
      (if flag == 0 then p else say (codes "%s ") (get_sh_flag_string flag) p)

-- the rounds of the loop from the section `i` on
unfoldable pub say_sections : ℕ → (ℕ → ℕ) → ℕ → ℕ → Pointers → Pointers
say_sections zero m string_table i p = p
say_sections (suc n) m string_table i p =
    let header = add64 (p.symbols + 5 * 4) (u32 (i * read32 m (p.symbols + 12))) in
    let begun =
      say (codes "Addr: %#zx \t Length: %#zx \t Flags: ")
        (read64 m (header + 16) ∷ read32 m (header + 4) ∷ []) p in
    let flagged = say_flags 63 1 (read64 m (header + 8)) begun in
    say_sections n m string_table (i + 1) (
      say (codes "Size: %#zx %s\n")
        (read64 m (header + 32) ∷ add64 (read64 m (string_table + 16)) (read32 m header) ∷ [])
        flagged)

-- It reads through `symbols`, which is `NULL` unless there was such a tag.
unfoldable pub print_elf_symbols : (ℕ → ℕ) → Pointers → Result Pointers
print_elf_symbols m p =
    let string_table =
      add64 (p.symbols + 5 * 4) (u32 (read32 m (p.symbols + 16) * read32 m (p.symbols + 12))) in
    if p.symbols == 0
    then fault
    else ok (say_sections (read32 m (p.symbols + 8)) m string_table 0 p)

unfoldable pub parse_multiboot_data : ℕ → (ℕ → ℕ) → ℕ → Pointers → Result Pointers
parse_multiboot_data fuel m pstart p = do
  q ← parse_tags fuel m (pstart + 8) p
  print_elf_symbols m q
