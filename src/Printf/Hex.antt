-- ===== src/Printf/Hex.antt =====
-- `print_integer_as_hex`: the digits are written from the end of a buffer of sixteen zeros.
use os_c.Prelude.{
  ℕ, zero, suc, ◌+◌, ◌-◌, ◌/◌, ◌%◌, ◌^◌, ltb, leb, ◌==◌, if◌then◌else◌, min, List, [], ◌∷◌, drop,
  replicate, bit_and, codes,
}
use os_c.Terminal.{Terminal, print_text}
use os_c.Printf.Outcome.{Result, ok, fault, ◌>>=◌}
use os_c.Printf.Format.{PrintfFormat, always_show_0x, ℤ, pos, negsuc, int_max}

unfoldable pub set : List ℕ → ℕ → ℕ → List ℕ
set [] i v = []
set (x ∷ xs) zero v = v ∷ xs
set (x ∷ xs) (suc i) v = x ∷ set xs i v

-- `end_digit + 0x30`, `end_digit + offset_for_hex`
unfoldable pub hex_digit : ℕ → ℕ → ℕ
hex_digit offset d = if ltb d 10 then d + 0x30 else d + offset

-- `while(num > 0)`, with `i + 1` counted down: no digit is left when the buffer is full.
unfoldable pub write_digits : ℕ → ℕ → ℕ → List ℕ → List ℕ
unfolding set hex_digit
write_digits offset zero num buf = buf
write_digits offset (suc i) num buf =
    let rest = write_digits offset i (num / 2 ^ 4) (set buf i (hex_digit offset (num % 16))) in
    if ltb 0 num then rest else buf

-- the index of the first character that is no zero, or the length
unfoldable pub first_digit : List ℕ → ℕ
first_digit [] = 0
first_digit (c ∷ buf) = if c == b'0' then first_digit buf + 1 else 0

-- `min(i, 15 - width)`; a width above 15 gives an index before the buffer, and for one that is far
-- below 0 the difference overflows an `int`
unfoldable pub start_index : ℕ → ℤ → Result ℕ
start_index i (pos w) = if leb w 15 then ok (min i (15 - w)) else fault
start_index i (negsuc w) = if leb (16 + w) int_max then ok (min i (16 + w)) else fault

abbrev pub offset_for_hex : ℕ → ℕ
offset_for_hex specifier = if specifier == b'X' then 0x37 else 0x57

unfoldable pub hex_buffer : ℕ → ℕ → List ℕ
unfolding write_digits
hex_buffer specifier num = write_digits (offset_for_hex specifier) 16 num (replicate 16 b'0')

-- the text `&buf[i]` that is printed
unfoldable pub hex_text : PrintfFormat → ℕ → Result (List ℕ)
unfolding hex_buffer first_digit start_index
hex_text format num = do
  let buf = hex_buffer format.specifier num
  i ← start_index (first_digit buf) format.width
  ok (drop i buf)

abbrev pub hex_prefix : PrintfFormat → List ℕ
hex_prefix format =
    if bit_and format.flags always_show_0x == 0
    then []
    else if format.specifier == b'X'
    then codes "0X"
    else codes "0x"

unfoldable pub print_integer_as_hex : PrintfFormat → ℕ → Terminal → Result Terminal
print_integer_as_hex format num t = do
  text ← hex_text format num
  ok (print_text text (print_text (hex_prefix format) t))
