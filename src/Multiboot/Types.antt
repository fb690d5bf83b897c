-- ===== src/Multiboot/Types.antt =====
-- The structures of src/multiboot.h that the kernel reads. A flexible array at the end of a structure
-- is the memory behind it, and so a function of the index: no read of it is out of range.
use os_c.Prelude.{ℕ}

-- `struct multiboot_memory_map_entry`; `type` is named for the word it holds
pub record MemoryMapEntry : Type 0 where
  pub base_addr : ℕ
  pub length : ℕ
  pub type_word : ℕ
  pub reserved : ℕ

pub record MemoryMap : Type 0 where
  pub type_word : ℕ
  pub size : ℕ
  pub entry_size : ℕ
  pub entry_version : ℕ
  pub memory_maps : ℕ → MemoryMapEntry

pub record ElfSectionHeader : Type 0 where
  pub sh_name : ℕ
  pub sh_type : ℕ
  pub sh_flags : ℕ
  pub sh_addr : ℕ
  pub sh_offset : ℕ
  pub sh_size : ℕ
  pub sh_link : ℕ
  pub sh_info : ℕ
  pub sh_addralign : ℕ
  pub sh_entsize : ℕ

pub record ElfSymbols : Type 0 where
  pub type_word : ℕ
  pub size : ℕ
  pub num : ℕ
  pub entsize : ℕ
  pub shndx : ℕ
  pub sectionheaders : ℕ → ElfSectionHeader

-- `struct multiboot_start` behind its address
pub record MultibootStart : Type 0 where
  pub address : ℕ
  pub total_size : ℕ

-- `struct multiboot_data`: the three pointers, with what they point to
pub record MultibootData : Type 0 where
  pub start : MultibootStart
  pub memory_map : MemoryMap
  pub elf_symbols : ElfSymbols
