-- ===== src/Multiboot.antt =====
-- src/multiboot.h and src/multiboot.c: what the boot loader hands over. A tag is its address in the
-- memory `m`; the calls of `terminal_printf` are kept as a list, the last first.
mod Types
mod Constants
mod Symbols
mod Tags
mod Parse
mod Data
mod Tests
pub use Types.*
pub use Constants.*
use os_c.Prelude.{
  ℕ, zero, suc, ◌+◌, ◌-◌, ◌*◌, ◌/◌, ◌%◌, ◌^◌, ltb, leb, ◌==◌, if◌then◌else◌, not, ◌&&◌, Bool, true,
  false, List, [], ◌∷◌, get_or, add64, sub64, mul64, u32, bit_and, codes,
}
use os_c.Memory.{read32, read64}
use os_c.Printf.Outcome.{Result, ok, halted, fault, out_of_fuel, ◌>>=◌}

abbrev pub tag_type : (ℕ → ℕ) → ℕ → ℕ
tag_type m tag = read32 m tag

abbrev pub tag_size : (ℕ → ℕ) → ℕ → ℕ
tag_size m tag = read32 m (tag + 4)

-- the global pointers of src/multiboot.c, and those of `data`
pub record Pointers : Type 0 where
  pub info : ℕ
  pub name : ℕ
  pub device : ℕ
  pub command_line : ℕ
  pub symbols : ℕ
  pub maps : ℕ
  pub memory_map : ℕ
  pub elf_symbols : ℕ
  pub printed : List (List ℕ × List ℕ)

abbrev pub say : List ℕ → List ℕ → Pointers → Pointers
say text args p = record p { printed = (text, args) ∷ p.printed }

-- 0 is `NULL`.
pub find_next_tag_address : (ℕ → ℕ) → ℕ → ℕ
find_next_tag_address m tag =
    let next_tag = add64 tag (tag_size m tag) in
    if not (tag_type m tag == 0)
    then (if not (next_tag % 8 == 0) then add64 next_tag (8 - next_tag % 8) else next_tag)
    else 0

-- `(maps->size - 4*sizeof(uint32_t))/maps->entry_size` as an `int`; a negative one makes no round
pub num_of_maps : (ℕ → ℕ) → ℕ → Result ℕ
num_of_maps m tag =
    let entry_size = read32 m (tag + 8) in
    let n = u32 (sub64 (tag_size m tag) 16 / entry_size) in
    if entry_size == 0 then fault else ok (if ltb n (2 ^ 31) then n else 0)

pub say_maps : (ℕ → ℕ) → ℕ → ℕ → ℕ → Pointers → Pointers
say_maps m tag zero i p = p
say_maps m tag (suc n) i p =
    let entry = tag + 16 + 24 * i in
    say_maps m tag n (i + 1)
      (say (codes "Addr: %#zx \t Length: %#zx\n") (read64 m entry ∷ read64 m (entry + 8) ∷ []) p)

-- the tags that are only told of
pub tag_text : ℕ → List ℕ
tag_text t =
    if t == multiboot_end_tag
    then codes "End tag\n"
    else if t == multiboot_modules_tag
    then codes "Modules tag\n"
    else if t == multiboot_apm_table_tag
    then codes "APM table tag\n"
    else if t == multiboot_vbe_info_tag
    then codes "VBE info tag\n"
    else if t == multiboot_framebuffer_info_tag
    then codes "Framebuffer tag\n"
    else if t == multiboot_efi32_system_table_tag
    then codes "EFI32_system_table_tag tag\n"
    else if t == multiboot_efi64_system_table_tag
    then codes "EFI64_system_table_tag tag\n"
    else if t == multiboot_smsbios_tables_tag
    then codes "SMSBIOS_tables_tag tag\n"
    else if t == multiboot_acpi_old_rsdp_tag
    then codes "ACPI_old_RSDP_tag tag\n"
    else if t == multiboot_acpi_new_rsdp_tag
    then codes "ACPI_new_RSDP_tag tag\n"
    else if t == multiboot_networking_information_tag
    then codes "networking_information_tag tag\n"
    else if t == multiboot_efi_memory_map_tag
    then codes "EFI_memory_map_tag tag\n"
    else if t == multiboot_efi_boot_services_tag
    then codes "EFI_boot_services_tag tag\n"
    else if t == multiboot_efi32_image_ptr_tag
    then codes "EFI32_image_ptr_tag tag\n"
    else if t == multiboot_efi64_image_ptr_tag
    then codes "EFI64_image_ptr_tag tag\n"
    else if t == multiboot_image_load_base_phys_addr_tag
    then codes "image_load_base_phys_add tag\n"
    else []

pub say_tag : (ℕ → ℕ) → ℕ → Pointers → Pointers
say_tag m tag p =
    if ltb multiboot_image_load_base_phys_addr_tag (tag_type m tag)
    then say (codes "Failed with tag: %#zx \t Type: %#zx \t Size: %#zx\n")
        (tag ∷ tag_type m tag ∷ tag_size m tag ∷ []) p
    else say (tag_text (tag_type m tag)) [] p

-- the `case` of the memory map
pub handle_maps : (ℕ → ℕ) → ℕ → Pointers → Result Pointers
handle_maps m tag p = do
  n ← num_of_maps m tag
  ok (
      say_maps m tag n 0
        (record (say (codes "Memory map tag\n") [] p) { maps = tag; memory_map = tag }))

-- the `switch(curr_tag->type)`
pub handle_tag : (ℕ → ℕ) → ℕ → Pointers → Result Pointers
handle_tag m tag p =
    let t = tag_type m tag in
    if t == multiboot_memory_info_tag
    then ok (
        say (codes "mem_lower: %#zx \t mem_upper: %#zx\n")
          (read32 m (tag + 8) ∷ read32 m (tag + 12) ∷ [])
          (record (say (codes "Mem info tag\n") [] p) { info = tag }))
    else if t == multiboot_boot_load_name_tag
    then ok (say (codes "boot load name: %s\n") ((tag + 8) ∷ []) (record p { name = tag }))
    else if t == multiboot_bios_boot_device_tag
    then ok (record (say (codes "Bios boot device\n") [] p) { device = tag })
    else if t == multiboot_boot_command_line_tag
    then ok
        (say (codes "Boot command line: %s\n") ((tag + 8) ∷ []) (record p { command_line = tag }))
    else if t == multiboot_elf_symbols_tag
    then ok (record (say (codes "Elf symbols\n") [] p) { symbols = tag; elf_symbols = tag })
    else if t == multiboot_memory_map_tag
    then handle_maps m tag p
    else ok (say_tag m tag p)

-- the `do … while` of `parse_multiboot_data`, from a tag on
pub parse_tags : ℕ → (ℕ → ℕ) → ℕ → Pointers → Result Pointers
parse_tags zero m tag p = out_of_fuel
parse_tags (suc fuel) m tag p =
    let after = find_next_tag_address m tag in
    let rest = (do q ← handle_tag m tag p; parse_tags fuel m after q) in
    if after == 0 then handle_tag m tag p else rest

abbrev pub ef_sh_flags_str : List (List ℕ)
ef_sh_flags_str =
    codes ""
    ∷ codes "W"
    ∷ codes "A"
    ∷ codes "X"
    ∷ codes "M"
    ∷ codes "S"
    ∷ codes "IL"
    ∷ codes "LO"
    ∷ codes "OS"
    ∷ codes "G"
    ∷ codes "T"
    ∷ codes "MO"
    ∷ codes "MP"
    ∷ codes "ORD"
    ∷ codes "EXC"
    ∷ []

pub get_sh_flag_string : ℕ → List ℕ
get_sh_flag_string flag =
    let index =
      if flag == shf_write
      then 1
      else if flag == shf_alloc
      then 0x2
      else if flag == shf_execinstr
      then 0x3
      else if flag == shf_merge
      then 0x4
      else if flag == shf_strings
      then 0x5
      else if flag == shf_info_link
      then 0x6
      else if flag == shf_link_order
      then 0x7
      else if flag == shf_os_nonconforming
      then 0x8
      else if flag == shf_group
      then 0x9
      else if flag == shf_tls
      then 0xa
      else if flag == shf_maskos
      then 0xb
      else if flag == shf_maskproc
      then 0xc
      else if flag == shf_ordered
      then 0xd
      else if flag == shf_exclude
      then 0xe
      else 0 in
    get_or ef_sh_flags_str index []

unfoldable pub elf_section_is_allocated : ElfSectionHeader → Bool
elf_section_is_allocated header = not (bit_and header.sh_flags shf_alloc == 0)

unfoldable pub elf_section_is_writable : ElfSectionHeader → Bool
elf_section_is_writable header = not (bit_and header.sh_flags shf_write == 0)

unfoldable pub elf_section_is_exectuable : ElfSectionHeader → Bool
elf_section_is_exectuable header = not (bit_and header.sh_flags shf_execinstr == 0)
