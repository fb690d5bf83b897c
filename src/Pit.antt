-- ===== src/Pit.antt =====
-- src/pit.c: what the timer is sent, as pairs of a port and a byte.
use os_c.Prelude.{ℕ, ◌/◌, ◌%◌, ◌^◌, ◌≡◌, List, [], ◌∷◌, u8, bit_and, arith}
use os_c.Prelude.Fields.{bit_and_low, bit_and_field}

abbrev pub pit_channel0_data_port : ℕ
pit_channel0_data_port = 0x40

pub pit_write_cmd_word : ℕ → ℕ → List (ℕ × ℕ)
pit_write_cmd_word port word =
    (port, u8 (bit_and word 0xf)) ∷ (port, u8 (bit_and word 0xf0 / 2 ^ 8)) ∷ []

pub pit_set_pit0_freq : ℕ → List (ℕ × ℕ)
pit_set_pit0_freq new_divider = pit_write_cmd_word pit_channel0_data_port new_divider

-- Of the divider only the low four bits reach the timer, and the second byte is always 0.
pub pit_set_pit0_freq-low :
    (d : ℕ)
    → pit_set_pit0_freq d ≡ (pit_channel0_data_port, d % 16) ∷ (pit_channel0_data_port, 0) ∷ []
unfolding pit_set_pit0_freq pit_write_cmd_word
pit_set_pit0_freq-low d = rw (bit_and_low 4 d, bit_and_field 4 4 d) (ground arith)
