-- ===== src/Multiboot/Constants.antt =====
-- src/multiboot.h: the types of the tags and the flags of a section.
use os_c.Prelude.{ℕ}

abbrev pub multiboot_end_tag : ℕ
multiboot_end_tag = 0

abbrev pub multiboot_boot_command_line_tag : ℕ
multiboot_boot_command_line_tag = 1

abbrev pub multiboot_boot_load_name_tag : ℕ
multiboot_boot_load_name_tag = 2

abbrev pub multiboot_modules_tag : ℕ
multiboot_modules_tag = 3

abbrev pub multiboot_memory_info_tag : ℕ
multiboot_memory_info_tag = 4

abbrev pub multiboot_bios_boot_device_tag : ℕ
multiboot_bios_boot_device_tag = 5

abbrev pub multiboot_memory_map_tag : ℕ
multiboot_memory_map_tag = 6

abbrev pub multiboot_elf_symbols_tag : ℕ
multiboot_elf_symbols_tag = 9

abbrev pub multiboot_apm_table_tag : ℕ
multiboot_apm_table_tag = 10

abbrev pub multiboot_vbe_info_tag : ℕ
multiboot_vbe_info_tag = 7

abbrev pub multiboot_framebuffer_info_tag : ℕ
multiboot_framebuffer_info_tag = 8

abbrev pub multiboot_efi32_system_table_tag : ℕ
multiboot_efi32_system_table_tag = 11

abbrev pub multiboot_efi64_system_table_tag : ℕ
multiboot_efi64_system_table_tag = 12

abbrev pub multiboot_smsbios_tables_tag : ℕ
multiboot_smsbios_tables_tag = 13

abbrev pub multiboot_acpi_old_rsdp_tag : ℕ
multiboot_acpi_old_rsdp_tag = 14

abbrev pub multiboot_acpi_new_rsdp_tag : ℕ
multiboot_acpi_new_rsdp_tag = 15

abbrev pub multiboot_networking_information_tag : ℕ
multiboot_networking_information_tag = 16

abbrev pub multiboot_efi_memory_map_tag : ℕ
multiboot_efi_memory_map_tag = 17

abbrev pub multiboot_efi_boot_services_tag : ℕ
multiboot_efi_boot_services_tag = 18

abbrev pub multiboot_efi32_image_ptr_tag : ℕ
multiboot_efi32_image_ptr_tag = 19

abbrev pub multiboot_efi64_image_ptr_tag : ℕ
multiboot_efi64_image_ptr_tag = 20

abbrev pub multiboot_image_load_base_phys_addr_tag : ℕ
multiboot_image_load_base_phys_addr_tag = 21

abbrev pub shf_write : ℕ
shf_write = 0x1

abbrev pub shf_alloc : ℕ
shf_alloc = 0x2

abbrev pub shf_execinstr : ℕ
shf_execinstr = 0x4

abbrev pub shf_merge : ℕ
shf_merge = 0x10

abbrev pub shf_strings : ℕ
shf_strings = 0x20

abbrev pub shf_info_link : ℕ
shf_info_link = 0x40

abbrev pub shf_link_order : ℕ
shf_link_order = 0x80

abbrev pub shf_os_nonconforming : ℕ
shf_os_nonconforming = 0x100

abbrev pub shf_group : ℕ
shf_group = 0x200

abbrev pub shf_tls : ℕ
shf_tls = 0x400

abbrev pub shf_maskos : ℕ
shf_maskos = 0x0ff00000

abbrev pub shf_maskproc : ℕ
shf_maskproc = 0xf0000000

abbrev pub shf_ordered : ℕ
shf_ordered = 0x4000000

abbrev pub shf_exclude : ℕ
shf_exclude = 0x8000000
