-- ===== src/Pic/Tests.antt =====
-- src/pic.c: the keyboard's line.
use os_c.Prelude.{◌+◌, ◌-◌, ◌*◌, ◌^◌, ◌%◌, ◌≡◌, [], ◌∷◌, arith, refl}
use os_c.Printf.Outcome.{ok}
use os_c.Pic.{
  pic_write_eoi, pic_init, pic_enable_interrupts, io_wait, master_pic_command, pic_eoi,
  irq_set_mask, irq_clear_mask, irq_port,
}
use os_c.Pic.Mask.{masked, irq_mask-bit}

irq_mask-bit_example :
    (irq_set_mask (λ p. 0xb8) 9
      ≡ ok ((irq_port 9, 0xb8 + (1 - masked 0xb8 (9 % 8)) * 2 ^ (9 % 8)) ∷ []))
    × (irq_clear_mask (λ p. 0xb8) 9
        ≡ ok ((irq_port 9, 0xb8 - masked 0xb8 (9 % 8) * 2 ^ (9 % 8)) ∷ []))
irq_mask-bit_example = irq_mask-bit (λ p. 0xb8) 9 (omega arith) (omega arith)

-- The slave's first line is line 8, and it is not told of the end of that interrupt.
run_end : pic_write_eoi 8 ≡ (master_pic_command, pic_eoi) ∷ []
unfolding pic_write_eoi
run_end = refl

run_init :
    pic_init (λ p. 0xff) 0x20 0x28
    ≡ (0x20, 0x11)
      ∷ io_wait
      ∷ (0xa0, 0x11)
      ∷ io_wait
      ∷ (0x21, 0x20)
      ∷ io_wait
      ∷ (0xa1, 0x28)
      ∷ io_wait
      ∷ (0x21, 4)
      ∷ io_wait
      ∷ (0xa1, 2)
      ∷ io_wait
      ∷ (0x21, 1)
      ∷ io_wait
      ∷ (0xa1, 1)
      ∷ io_wait
      ∷ (0x21, 0xff)
      ∷ (0xa1, 0xff)
      ∷ []
unfolding pic_init
run_init = refl

run_enable : pic_enable_interrupts (λ p. 0xff) ≡ ok ((0x64, 0x60) ∷ (0x60, 1) ∷ (0x21, 0xfd) ∷ [])
unfolding pic_enable_interrupts irq_clear_mask
run_enable = refl
