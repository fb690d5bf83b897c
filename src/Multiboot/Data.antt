-- ===== src/Multiboot/Data.antt =====
-- src/multiboot.c, `init_multiboot_data`: what the frame allocator and paging read behind its pointers.
use os_c.Prelude.{
  ℕ, zero, suc, ◌+◌, ◌*◌, ◌≤◌, ◌≡◌, ◌≢◌, ◌∙◌, refl, ap, sym, Bool, ◌==◌, if◌then◌else◌, true, false,
  List, [], ◌∷◌, length, add64, u32, bit_and, codes, arith,
}
use os_c.Memory.{read32, read64}
use os_c.Printf.Outcome.{Result, ok, fault, ◌>>=◌}
use os_c.Multiboot.{
  MemoryMapEntry, MemoryMap, ElfSectionHeader, ElfSymbols, MultibootData, Pointers, say, tag_type,
  tag_size, num_of_maps, get_sh_flag_string,
}
use os_c.Multiboot.Symbols.{say_flags, say_sections, print_elf_symbols, parse_multiboot_data}
use os_c.Multiboot.Tags.{Tags}
use os_c.Multiboot.Parse.{last_of, IsReadable, forget, noted, parse_tags-noted}

-- the packed structures in memory, by their addresses
unfoldable pub map_entry_at : (ℕ → ℕ) → ℕ → MemoryMapEntry
map_entry_at m a = record {
  base_addr = read64 m a;
  length = read64 m (a + 8);
  type_word = read32 m (a + 16);
  reserved = read32 m (a + 20);
}

unfoldable pub memory_map_at : (ℕ → ℕ) → ℕ → MemoryMap
memory_map_at m a = record {
  type_word = tag_type m a;
  size = tag_size m a;
  entry_size = read32 m (a + 8);
  entry_version = read32 m (a + 12);
  memory_maps = λ i. map_entry_at m (a + 16 + 24 * i);
}

unfoldable pub section_header_at : (ℕ → ℕ) → ℕ → ElfSectionHeader
section_header_at m a = record {
  sh_name = read32 m a;
  sh_type = read32 m (a + 4);
  sh_flags = read64 m (a + 8);
  sh_addr = read64 m (a + 16);
  sh_offset = read64 m (a + 24);
  sh_size = read64 m (a + 32);
  sh_link = read32 m (a + 40);
  sh_info = read32 m (a + 44);
  sh_addralign = read64 m (a + 48);
  sh_entsize = read64 m (a + 56);
}

unfoldable pub elf_symbols_at : (ℕ → ℕ) → ℕ → ElfSymbols
elf_symbols_at m a = record {
  type_word = tag_type m a;
  size = tag_size m a;
  num = read32 m (a + 8);
  entsize = read32 m (a + 12);
  shndx = read32 m (a + 16);
  sectionheaders = λ i. section_header_at m (a + 20 + 64 * i);
}

-- `data`: its pointer to the start, and those that parsing sets
unfoldable pub data_at : (ℕ → ℕ) → ℕ → Pointers → MultibootData
data_at m start p = record {
  start = record { address = start; total_size = read32 m start };
  memory_map = memory_map_at m p.memory_map;
  elf_symbols = elf_symbols_at m p.elf_symbols;
}

-- The result has `data.start` beside the other pointers.
unfoldable pub init_multiboot_data : ℕ → (ℕ → ℕ) → ℕ → Pointers → Result (ℕ × Pointers)
init_multiboot_data fuel m pmultiboot p =
    let said =
      say (codes "Multiboot addr: %#zx \t Total size: %#zx\n")
        (pmultiboot ∷ read32 m pmultiboot ∷ []) p in
    do q ← parse_multiboot_data fuel m pmultiboot said; ok (pmultiboot, q)

unfoldable pub print_tag : (ℕ → ℕ) → ℕ → Pointers → Pointers
print_tag m tag p =
    say (codes "Tag address: %#zx \t Type: %#zx \t Size: %#zx\n")
      (tag ∷ tag_type m tag ∷ tag_size m tag ∷ []) p

-- the rounds of `print_memory_tags` from the entry `i` on
unfoldable pub say_entries : (ℕ → ℕ) → ℕ → ℕ → Pointers → Pointers
say_entries m zero i p = p
say_entries m (suc n) i p =
    let entry = map_entry_at m (add64 p.maps (16 + 24 * i)) in
    say_entries m n (i + 1) (
      say (codes "Addr: %#zx \t Length: %#zx \t Type: %#zx\n")
        (entry.base_addr ∷ entry.length ∷ entry.type_word ∷ []) p)

-- It reads through `maps`, which is `NULL` unless there was such a tag.
unfoldable pub print_memory_tags : (ℕ → ℕ) → Pointers → Result Pointers
print_memory_tags m p =
    let shown = (do n ← num_of_maps m p.maps; ok (say_entries m n 0 p)) in
    if p.maps == 0 then fault else shown

say_unless-forget :
    (none : Bool) (text args : List ℕ) (p : Pointers)
    → forget (if none then p else say text args p) ≡ forget p
say_unless-forget true text args p = refl
say_unless-forget false text args p = refl

say_flags-forget : (n i flags : ℕ) (p : Pointers) → forget (say_flags n i flags p) ≡ forget p
unfolding say_flags
say_flags-forget zero i flags p = refl
say_flags-forget (suc n) i flags p =
    let flag = u32 (bit_and i flags) in
    say_flags-forget n (i * 2) flags _
    ∙ say_unless-forget (flag == 0) (codes "%s ") (get_sh_flag_string flag) p

say_sections-forget :
    (n : ℕ) (m : ℕ → ℕ) (string_table i : ℕ) (p : Pointers)
    → forget (say_sections n m string_table i p) ≡ forget p
unfolding say_sections
say_sections-forget zero m string_table i p = refl
say_sections-forget (suc n) m string_table i p =
    say_sections-forget n m string_table (i + 1) _ ∙ say_flags-forget 63 1 _ _

print_elf_symbols-forget :
    (m : ℕ → ℕ) (p : Pointers)
    → p.symbols ≢ 0
    → (q : Pointers) × (print_elf_symbols m p ≡ ok q) × (forget q ≡ forget p)
unfolding print_elf_symbols
print_elf_symbols-forget m p there =
    let some_table : (p.symbols == 0) ≡ false = ground (arith, there) in
    let string_table =
      add64 (p.symbols + 5 * 4) (u32 (read32 m (p.symbols + 16) * read32 m (p.symbols + 12))) in
    let n = read32 m (p.symbols + 8) in
    (
      say_sections n m string_table 0 p,
      rw some_table refl,
      say_sections-forget n m string_table 0 p,
    )

-- If tags lead up to an end tag from eight bytes behind the start on, no memory map says that its
-- entries have no size, one of the tags is a table of sections (or `symbols` was set before), and
-- the rounds are at least as many as the tags, then `init_multiboot_data` returns, and leaves each
-- global pointer at the last tag of its type, or as it was if there is none; so what the allocator
-- and paging read of `data` is the start, the last memory map and the last table of sections.
pub init_multiboot_data-noted :
    {m : ℕ → ℕ} {start : ℕ} {tags : List ℕ} (t : Tags m (start + 8) tags) (fuel : ℕ) (p : Pointers)
    → length tags ≤ fuel
    → IsReadable m tags
    → last_of m 9 tags p.symbols ≢ 0
    → (q : Pointers) × (init_multiboot_data fuel m start p ≡ ok (start, q))
      × (forget q ≡ noted m tags p)
      × (data_at m start q ≡ record {
        start = record { address = start; total_size = read32 m start };
        memory_map = memory_map_at m (last_of m 6 tags p.memory_map);
        elf_symbols = elf_symbols_at m (last_of m 9 tags p.elf_symbols);
      })
unfolding init_multiboot_data parse_multiboot_data data_at
init_multiboot_data-noted {m} {start} {tags} t fuel p enough readable there =
    let said =
      say (codes "Multiboot addr: %#zx \t Total size: %#zx\n") (start ∷ read32 m start ∷ []) p in
    let (q, parsed, left) = parse_tags-noted t fuel said enough readable in
    let (q', shown, same) =
      print_elf_symbols-forget m q (λ none. there (sym (ap (λ r. r.symbols) left) ∙ none)) in
    let all : forget q' ≡ noted m tags p = same ∙ left in
    (
      q',
      rw (parsed, shown) refl,
      all,
      ap
          (λ (r : Pointers). record {
            start = record { address = start; total_size = read32 m start };
            memory_map = memory_map_at m r.memory_map;
            elf_symbols = elf_symbols_at m r.elf_symbols;
          })
          all,
    )
