-- ===== src/Printf.antt =====
-- src/terminal.c, `terminal_printf`: the format language, the conversions, and the loop over the text.
-- A string is its characters up to the NUL, and a pointer into it the rest of the list; the character
-- at the end of the list is the NUL. An argument is a 64-bit slot of the call, read by its number.
pub mod Outcome
pub mod Format
pub mod Hex
pub mod Safe
pub mod Total
pub mod Fuel
pub mod Digits
pub mod Rendered
pub mod Plain
pub mod Directives
pub mod Conversions
pub mod Width
pub mod Pieces
pub mod Ends
mod Tests
use os_c.Prelude.{
  ℕ, zero, suc, ◌+◌, ◌-◌, ◌*◌, ◌/◌, ◌%◌, ◌^◌, Bool, true, false, ◌&&◌, ◌||◌, not, ltb, leb, ◌==◌,
  if◌then◌else◌, List, [], ◌∷◌, length, get_or, drop, bit_and, u8, u32, u64, codes,
}
use os_c.Terminal.{
  Terminal, terminal_put_char, print_newline, print_tab, print_string, print_text, make_vga_char,
  newline,
}
use os_c.Printf.Outcome.{Result, ok, halted, fault, out_of_fuel, ◌>>=◌, ◌>>◌, assert}
use os_c.Printf.Format.{
  PrintfFormat, FormatType, get_format, char_at, format_arg_specified, ℤ, pos, negsuc,
}
use os_c.Printf.Hex.{print_integer_as_hex}

-- `int`, `short int` as `size_t`
abbrev pub extend_int : ℕ → ℕ
extend_int n = let w = u32 n in if ltb w (2 ^ 31) then w else w + (2 ^ 64 - 2 ^ 32)

abbrev pub extend_short : ℕ → ℕ
extend_short n = let w = n % 2 ^ 16 in if ltb w (2 ^ 15) then w else w + (2 ^ 64 - 2 ^ 16)

-- an `int` argument as the number that it stands for
abbrev pub int_arg : ℕ → ℤ
int_arg n = let w = u32 n in if ltb w (2 ^ 31) then pos w else negsuc (2 ^ 32 - w - 1)

-- `print_integer_as_decimal` has an empty body.
pub print_integer : PrintfFormat → ℕ → Terminal → Result Terminal
print_integer format num t =
    if (format.specifier == b'X') || (format.specifier == b'x')
    then print_integer_as_hex format num t
    else ok t

-- The NUL-terminated text at an address, and the argument slots: what the caller provides.
pub record Caller : Type 0 where
  pub string_at : ℕ → List ℕ
  pub arg : ℕ → ℕ

-- The `switch(format.type)`: the terminal, and the number of the next argument.
pub print_arg : Caller → PrintfFormat → FormatType → ℕ → Terminal → Result (Terminal × ℕ)
print_arg c format FormatType.no_format k t = ok (t, k)
print_arg c format FormatType.int k t = do
  t' ← print_integer format (if format.is_unsigned then u32 (c.arg k) else extend_int (c.arg k)) t
  ok (t', k + 1)
print_arg c format FormatType.s_char k t = ok (t, k)
print_arg c format FormatType.char k t =
    if format.is_pointer
    then ok (print_string (c.string_at (extend_int (c.arg k))) t, k + 1)
    else ok (terminal_put_char (make_vga_char (c.arg k) t.default_color) t, k + 1)
print_arg c format FormatType.short_int k t = do
  t' ← print_integer format (extend_short (c.arg k)) t
  ok (t', k + 1)
print_arg c format FormatType.long_int k t = do
  t' ← print_integer format (u64 (c.arg k)) t
  ok (t', k + 1)
print_arg c format FormatType.long_long_int k t = do
  t' ← print_integer format (u64 (c.arg k)) t
  ok (t', k + 1)
print_arg c format FormatType.intmax_t k t = do
  t' ← print_integer format (u64 (c.arg k)) t
  ok (t', k + 1)
print_arg c format FormatType.size_t k t = do
  t' ← print_integer format (u64 (c.arg k)) t
  ok (t', k + 1)
print_arg c format FormatType.ptrdiff_t k t = do
  t' ← print_integer format (u64 (c.arg k)) t
  ok (t', k + 1)
print_arg c format FormatType.long_double k t = ok (t, k)
print_arg c format FormatType.wint_t k t = ok (t, k)
print_arg c format FormatType.wchar_t k t = ok (t, k + 1)
print_arg c format FormatType.void k t = halted
print_arg c format FormatType.double k t = ok (t, k)

-- a width of `*` is the next argument
pub take_width : Caller → PrintfFormat → ℕ → PrintfFormat × ℕ
take_width c format k = elim format.width [
  | pos n ↦ (format, k)
  | negsuc zero ↦ (format, k)
  | negsuc (suc zero) ↦ (record format { width = int_arg (c.arg k) }, k + 1)
  | negsuc (suc (suc n)) ↦ (format, k)
]

-- So would be a precision; `get_precision` never leaves that value there.
pub take_precision : Caller → PrintfFormat → ℕ → PrintfFormat × ℕ
take_precision c format k = elim format.precision [
  | pos n ↦ (format, k)
  | negsuc zero ↦ (format, k)
  | negsuc (suc zero) ↦ (record format { precision = int_arg (c.arg k) }, k + 1)
  | negsuc (suc (suc n)) ↦ (format, k)
]

pub print_format : Caller → PrintfFormat → ℕ → Terminal → Result (Terminal × ℕ)
print_format c format k t =
    let (f, k') = take_width c format k in
    let (f', k'') = take_precision c f k' in print_arg c f' f'.type k'' t

pub print_plain : ℕ → Terminal → Terminal
print_plain c t =
    if c == newline
    then print_newline t
    else if c == b'\t'
    then print_tab t
    else terminal_put_char (make_vga_char c t.default_color) t

-- What stands behind a `%`: the terminal, the next argument, and the text behind the specifier.
pub print_directive : Caller → List ℕ → ℕ → Terminal → Result (Terminal × ℕ × List ℕ)
print_directive c s k t = do
  (format, n) ← get_format s
  (t', k') ← print_format c format k t
  ok (t', k', drop (n + 1) s)

-- The rounds of the loop from the place where the text `s` is left, and the argument `k` is next.
pub printf_loop : Caller → ℕ → List ℕ → ℕ → Terminal → Result Terminal
printf_loop c fuel [] k t = ok t
printf_loop c zero (x ∷ s) k t = out_of_fuel
printf_loop c (suc fuel) (x ∷ s) k t =
    let escaped = printf_loop c fuel (drop 1 s) k (print_plain (char_at s 0) t) in
    let formatted = (do (t', k', rest) ← print_directive c s k t; printf_loop c fuel rest k' t') in
    let plain = printf_loop c fuel s k (print_plain x t) in
    if x == b'\\'
    then escaped
    else if x == b'%'
    then (if char_at s 0 == b'%' then escaped else formatted)
    else plain

pub terminal_printf : Caller → List ℕ → Terminal → Result Terminal
terminal_printf c str t = printf_loop c (length str) str 0 t
