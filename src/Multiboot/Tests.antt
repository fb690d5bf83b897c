-- ===== src/Multiboot/Tests.antt =====
-- src/multiboot.c: memory as the boot loader may leave it.
use os_c.Prelude.{ℕ, ◌+◌, ◌%◌, ◌≤◌, ◌<◌, ◌≡◌, ◌≢◌, refl, if◌then◌else◌, ◌==◌, [], ◌∷◌, arith, codes}
use os_c.Multiboot.{
  say, get_sh_flag_string, tag_text, handle_maps, num_of_maps, say_maps, say_tag, Pointers,
  tag_type, tag_size, find_next_tag_address, handle_tag, parse_tags,
}
use os_c.Multiboot.Data.{
  map_entry_at, memory_map_at, elf_symbols_at, data_at, init_multiboot_data, print_tag, say_entries,
  print_memory_tags, init_multiboot_data-noted,
}
use os_c.Multiboot.Symbols.{say_flags, say_sections, print_elf_symbols, parse_multiboot_data}
use os_c.Memory.{read64, read_bytes, read32}
use os_c.Printf.Outcome.{fault, ok}
use os_c.Multiboot.Tags.{Tags, last_tag, more_tags, find_next_tag_address-aligned}
use os_c.Multiboot.Parse.{last_of, IsReadable, forget, noted}

-- type 6 and size 16 at 8, entries of 24 bytes; type 0 and size 8 at 24
abbrev boot : ℕ → ℕ
boot a =
    if a == 8 then 6 else if a == 12 then 16 else if a == 16 then 24 else if a == 28 then 8 else 0

abbrev none_yet : Pointers
none_yet = record {
  info = 0;
  name = 0;
  device = 0;
  command_line = 0;
  symbols = 0;
  maps = 0;
  memory_map = 0;
  elf_symbols = 0;
  printed = [];
}

boot-more : tag_type boot 8 ≢ 0
unfolding read32 read_bytes
boot-more = ground arith

boot-size : tag_size boot 8 ≡ 16
unfolding read32 read_bytes
boot-size = refl

find_next_tag_address-aligned_example :
    (find_next_tag_address boot 8 % 8 ≡ 0)
    × (8 + tag_size boot 8 ≤ find_next_tag_address boot 8)
    × (find_next_tag_address boot 8 < 8 + tag_size boot 8 + 8)
find_next_tag_address-aligned_example =
    find_next_tag_address-aligned boot 8 boot-more (omega (arith, boot-size))

-- a modules tag of no size
abbrev stuck : ℕ → ℕ
stuck a = if a == 8 then 3 else 0

stuck-next : find_next_tag_address stuck 8 ≡ 8
unfolding find_next_tag_address read32 read_bytes
stuck-next = refl

stuck-handled : (q : Pointers) → (r : Pointers) × (handle_tag stuck 8 q ≡ ok r)
unfolding handle_tag read32 read_bytes
stuck-handled q = (_, refl)

run_flag : get_sh_flag_string 0x4 ≡ codes "X"
unfolding get_sh_flag_string
run_flag = refl

run_text : tag_text 3 ≡ codes "Modules tag\n"
unfolding tag_text
run_text = refl

run_flags :
    (say_flags 63 1 0x6 none_yet).printed ≡ (codes "%s ", codes "X") ∷ (codes "%s ", codes "A") ∷ []
unfolding say_flags get_sh_flag_string
run_flags = refl

-- no tag has told of the sections
run_no_symbols : parse_multiboot_data 2 boot 0 none_yet ≡ fault
unfolding parse_multiboot_data print_elf_symbols parse_tags handle_tag handle_maps num_of_maps
    say_maps say_tag find_next_tag_address read32 read_bytes
run_no_symbols = refl

run_sections :
    (say_sections 1 (λ a. 0) 0 0 none_yet).printed
    ≡ (codes "Size: %#zx %s\n", 0 ∷ 0 ∷ [])
      ∷ (codes "Addr: %#zx \t Length: %#zx \t Flags: ", 0 ∷ 0 ∷ [])
      ∷ []
unfolding say_sections say_flags read32 read64 read_bytes
run_sections = refl

-- a memory map of one entry, of 2 ^ 20 bytes, a table of no sections at 48, and the end at 72
abbrev loaded : ℕ → ℕ
loaded a =
    if a == 0
    then 80
    else if a == 8
    then 6
    else if a == 12
    then 40
    else if a == 16
    then 24
    else if a == 34
    then 16
    else if a == 40
    then 1
    else if a == 48
    then 9
    else if a == 52
    then 20
    else if a == 60
    then 64
    else if a == 76
    then 8
    else 0

loaded-Tags : Tags loaded (0 + 8) (8 ∷ 48 ∷ 72 ∷ [])
unfolding find_next_tag_address read32 read_bytes
loaded-Tags =
    more_tags 8 48 (48 ∷ 72 ∷ []) (ground arith) refl (ground arith)
      (more_tags 48 72 (72 ∷ []) (ground arith) refl (ground arith) (last_tag 72 refl))

loaded-IsReadable : IsReadable loaded (8 ∷ 48 ∷ 72 ∷ [])
unfolding IsReadable read32 read_bytes
loaded-IsReadable = (λ e. ground arith, (λ e. ground (arith, e), (λ e. ground (arith, e), tt)))

loaded-symbols : last_of loaded 9 (8 ∷ 48 ∷ 72 ∷ []) 0 ≢ 0
unfolding last_of read32 read_bytes
loaded-symbols = ground arith

init_multiboot_data-noted_example :
    (q : Pointers) × (init_multiboot_data 3 loaded 0 none_yet ≡ ok (0, q))
    × (forget q ≡ noted loaded (8 ∷ 48 ∷ 72 ∷ []) none_yet)
    × (data_at loaded 0 q ≡ record {
      start = record { address = 0; total_size = read32 loaded 0 };
      memory_map = memory_map_at loaded (last_of loaded 6 (8 ∷ 48 ∷ 72 ∷ []) 0);
      elf_symbols = elf_symbols_at loaded (last_of loaded 9 (8 ∷ 48 ∷ 72 ∷ []) 0);
    })
init_multiboot_data-noted_example =
    init_multiboot_data-noted loaded-Tags 3 none_yet (omega arith) loaded-IsReadable loaded-symbols

run_memory_tags :
    print_memory_tags loaded (record none_yet { maps = 8 })
    ≡ ok (
        say
          (codes "Addr: %#zx \t Length: %#zx \t Type: %#zx\n")
          (0 ∷ 0x100000 ∷ 1 ∷ [])
          (record none_yet { maps = 8 }))
unfolding print_memory_tags say_entries num_of_maps map_entry_at read64 read32 read_bytes
run_memory_tags = refl

run_tag :
    print_tag loaded 8 none_yet
    ≡ say (codes "Tag address: %#zx \t Type: %#zx \t Size: %#zx\n") (8 ∷ 6 ∷ 40 ∷ []) none_yet
unfolding print_tag read32 read_bytes
run_tag = refl
