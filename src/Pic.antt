-- ===== src/Pic.antt =====
-- src/pic.c: what the two interrupt controllers are sent. `read` is what a port hands out when it is
-- read, and a function is the writes to the ports that it makes, as pairs of a port and a byte.
mod Mask
mod Tests
use os_c.Prelude.{
  ℕ, ◌+◌, ◌-◌, ◌*◌, ◌^◌, ltb, leb, if◌then◌else◌, List, [], ◌∷◌, ◌++◌, u8, u16, ◌==◌, bit_and,
  bit_or,
}
use os_c.Printf.Outcome.{Result, ok, halted, fault, out_of_fuel, ◌>>=◌}

abbrev pub master_pic_command : ℕ
master_pic_command = 0x0020

abbrev pub master_pic_data : ℕ
master_pic_data = 0x0021

abbrev pub slave_pic_command : ℕ
slave_pic_command = 0x00a0

abbrev pub slave_pic_data : ℕ
slave_pic_data = 0x00a1

abbrev pub pic_eoi : ℕ
pic_eoi = 0x20

abbrev pub pic_icw4_needed : ℕ
pic_icw4_needed = 0x1

abbrev pub pic_icw1_use : ℕ
pic_icw1_use = 0x10

abbrev pub pic_x86_mode : ℕ
pic_x86_mode = 0x1

abbrev pub io_wait : ℕ × ℕ
io_wait = (0x80, 0)

-- `port`, and `irq_line` once eight are taken off it for the slave
abbrev pub irq_port : ℕ → ℕ
irq_port irq_line = if ltb irq_line 8 then master_pic_data else slave_pic_data

abbrev pub irq_bit : ℕ → ℕ
irq_bit irq_line = if ltb irq_line 8 then irq_line else irq_line - 8

-- `1 << irq_line` of an `int` is defined up to 30.
pub irq_set_mask : (ℕ → ℕ) → ℕ → Result (List (ℕ × ℕ))
irq_set_mask read irq_line =
    let port = irq_port irq_line in
    if ltb 30 (irq_bit irq_line)
    then fault
    else ok ((port, u8 (bit_or (read port) (2 ^ irq_bit irq_line))) ∷ [])

unfoldable pub irq_clear_mask : (ℕ → ℕ) → ℕ → Result (List (ℕ × ℕ))
irq_clear_mask read irq_line =
    let port = irq_port irq_line in
    if ltb 30 (irq_bit irq_line)
    then fault
    else ok ((port, u8 (bit_and (read port) (2 ^ 32 - 1 - 2 ^ irq_bit irq_line))) ∷ [])

pub pic_init : (ℕ → ℕ) → ℕ → ℕ → List (ℕ × ℕ)
pic_init read master_remap_offset slave_remap_offset =
    (master_pic_command, pic_icw1_use + pic_icw4_needed)
    ∷ io_wait
    ∷ (slave_pic_command, pic_icw1_use + pic_icw4_needed)
    ∷ io_wait
    ∷ (master_pic_data, master_remap_offset)
    ∷ io_wait
    ∷ (slave_pic_data, slave_remap_offset)
    ∷ io_wait
    ∷ (master_pic_data, 4)
    ∷ io_wait
    ∷ (slave_pic_data, 2)
    ∷ io_wait
    ∷ (master_pic_data, pic_x86_mode)
    ∷ io_wait
    ∷ (slave_pic_data, pic_x86_mode)
    ∷ io_wait
    ∷ (master_pic_data, read master_pic_data)
    ∷ (slave_pic_data, read slave_pic_data)
    ∷ []

pub pic_write_eoi : ℕ → List (ℕ × ℕ)
pic_write_eoi irq =
    if ltb 8 irq
    then (slave_pic_command, pic_eoi) ∷ (master_pic_command, pic_eoi) ∷ []
    else (master_pic_command, pic_eoi) ∷ []

-- behind the `sti`
unfoldable pub pic_enable_interrupts : (ℕ → ℕ) → Result (List (ℕ × ℕ))
pic_enable_interrupts read = do
  unmask ← irq_clear_mask read 1
  ok ((0x64, 0x60) ∷ (0x60, 0x1) ∷ unmask)

-- `asm_add_interrupt_handler` of src/arch/x86_64/boot64.s stores the handler in a table.
unfoldable pub add_interrupt_handler {ℓ} : {A : Type ℓ} → ℕ → A → (ℕ → A) → ℕ → A
add_interrupt_handler interrupt handler table i = if i == u16 interrupt then handler else table i
