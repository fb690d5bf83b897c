-- ===== src/Keyboard.antt =====
-- src/keyboard.c: the table of the characters, and the interrupt that reads a scan code.
mod Stream
mod Tests
use os_c.Prelude.{ℕ, zero, suc, ◌+◌, Bool, true, false, ltb, ◌==◌, if◌then◌else◌, List, [], ◌∷◌}
use os_c.Terminal.{Terminal, terminal_print_char}
use os_c.Printf.Outcome.{Result, ok, halted, fault, out_of_fuel, ◌>>=◌}

-- the assignments of `keyboard_init`, in their order
abbrev pub key_assignments : List (ℕ × ℕ)
key_assignments =
    (0x15, b'Q')
    ∷ (0x16, b'1')
    ∷ (0x21, b'C')
    ∷ (0x22, b'X')
    ∷ (0x23, b'D')
    ∷ (0x24, b'E')
    ∷ (0x25, b'4')
    ∷ (0x26, b'3')
    ∷ (0x29, b' ')
    ∷ (0x31, b'N')
    ∷ (0x32, b'B')
    ∷ (0x33, b'H')
    ∷ (0x34, b'G')
    ∷ (0x35, b'Y')
    ∷ (0x36, b'6')
    ∷ (0x41, b',')
    ∷ (0x42, b'K')
    ∷ (0x43, b'I')
    ∷ (0x44, b'O')
    ∷ (0x45, b'0')
    ∷ (0x46, b'9')
    ∷ (0x49, b'.')
    ∷ (0x52, b'\'')
    ∷ (0x54, b'[')
    ∷ (0x55, b'=')
    ∷ (0x69, b'1')
    ∷ (0x70, b'0')
    ∷ (0x71, b'.')
    ∷ (0x72, b'2')
    ∷ (0x73, b'5')
    ∷ (0x74, b'6')
    ∷ (0x75, b'8')
    ∷ (0x79, b'\n')
    ∷ (0x0d, b'\t')
    ∷ (0x0e, b'`')
    ∷ (0x1a, b'Z')
    ∷ (0x1b, b'S')
    ∷ (0x1c, b'A')
    ∷ (0x1d, b'W')
    ∷ (0x1e, b'2')
    ∷ (0x2a, b'V')
    ∷ (0x2b, b'F')
    ∷ (0x2c, b'T')
    ∷ (0x2d, b'R')
    ∷ (0x2e, b'5')
    ∷ (0x3a, b'M')
    ∷ (0x3b, b'J')
    ∷ (0x3c, b'U')
    ∷ (0x3d, b'7')
    ∷ (0x3e, b'8')
    ∷ (0x4a, b'/')
    ∷ (0x4a, b'/')
    ∷ (0x4b, b'L')
    ∷ (0x4c, b';')
    ∷ (0x4d, b'P')
    ∷ (0x4e, b'-')
    ∷ (0x4e, b'-')
    ∷ (0x5a, b'\n')
    ∷ (0x5b, b']')
    ∷ (0x5c, b'\\')
    ∷ (0x6b, b'4')
    ∷ (0x6c, b'7')
    ∷ (0x7a, b'3')
    ∷ (0x7c, b'+')
    ∷ (0x7d, b'9')
    ∷ (0x7e, b'*')
    ∷ []

pub assign : List (ℕ × ℕ) → (ℕ → ℕ) → ℕ → ℕ
assign [] table code = table code
assign ((k, c) ∷ rest) table code = assign rest (λ i. if i == k then c else table i) code

-- `ascii_key` once `keyboard_init` has run, on the zeros that it starts with
pub ascii_key : ℕ → ℕ
ascii_key code = assign key_assignments (λ i. 0) code

abbrev pub ascii_key_size : ℕ
ascii_key_size = 0x90

abbrev pub key_relased_code : ℕ
key_relased_code = 0xf0

-- `keyboard_key_released`, and the terminal that is printed to
pub record Keyboard : Type 0 where
  pub key_released : Bool
  pub terminal : Terminal

unfoldable pub print_key : ℕ → Terminal → Terminal
print_key ascii t = if ascii == 0 then t else terminal_print_char ascii t

-- The scan code is what the port of the encoder hands out; the table is read out of range from 0x90 on.
unfoldable pub keyboard_interrupt : ℕ → Keyboard → Result Keyboard
keyboard_interrupt code k =
    if code == key_relased_code
    then ok (record k { key_released = true })
    else if k.key_released
    then ok (record k { key_released = false })
    else if ltb code ascii_key_size
    then ok (record k { terminal = print_key (ascii_key code) k.terminal })
    else fault

-- the interrupts of one scan code after the other
pub interrupts : List ℕ → Keyboard → Result Keyboard
interrupts [] k = ok k
interrupts (code ∷ codes) k = do k' ← keyboard_interrupt code k; interrupts codes k'
