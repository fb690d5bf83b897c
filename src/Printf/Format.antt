-- ===== src/Printf/Format.antt =====
-- `get_format` and its parts: the flags, the width, the precision, the length and the specifier. Each
-- returns what it writes to `struct printf_format`, and how many characters it has read.
use os_c.Prelude.{
  ℕ, ◌+◌, ◌-◌, ◌*◌, ◌^◌, Bool, true, false, ◌&&◌, ◌||◌, not, ltb, leb, ◌==◌, if◌then◌else◌, List,
  [], ◌∷◌, length, get_or, drop,
}
use os_c.Printf.Outcome.{Result, ok, halted, fault, ◌>>=◌, ◌>>◌, assert}

-- `int`: `negsuc n` is -(n + 1)
pub data ℤ : Type 0 where
  pos : ℕ → ℤ
  negsuc : ℕ → ℤ

pub data FormatType : Type 0 where
  int s_char char short_int long_int long_long_int intmax_t size_t ptrdiff_t long_double wint_t :
      FormatType
  wchar_t void double no_format : FormatType

abbrev pub left_justify : ℕ
left_justify = 0x01

abbrev pub always_show_sign : ℕ
always_show_sign = 0x02

abbrev pub always_show_space : ℕ
always_show_space = 0x04

abbrev pub always_show_0x : ℕ
always_show_0x = 0x08

abbrev pub left_pad_with_zeros : ℕ
left_pad_with_zeros = 0x10

-- `FORMAT_ARG_SPECIFIED`, -2
abbrev pub format_arg_specified : ℤ
format_arg_specified = negsuc 1

pub record PrintfFormat : Type 0 where
  pub flags : ℕ
  pub width : ℤ
  pub precision : ℤ
  pub type : FormatType
  pub is_unsigned : Bool
  pub is_pointer : Bool
  pub specifier : ℕ

abbrev pub char_at : List ℕ → ℕ → ℕ
char_at str i = get_or str i 0

-- One flag at most is read.
unfoldable pub get_flags : List ℕ → ℕ × ℕ
get_flags str =
    let c = char_at str 0 in
    if c == b'-'
    then (left_justify, 1)
    else if c == b'+'
    then (always_show_sign, 1)
    else if c == b' '
    then (always_show_space, 1)
    else if c == b'#'
    then (always_show_0x, 1)
    else if c == b'0'
    then (left_pad_with_zeros, 1)
    else (0, 0)

abbrev pub is_digit : ℕ → Bool
is_digit c = leb b'0' c && leb c b'9'

abbrev pub int_max : ℕ
int_max = 2 ^ 31 - 1

-- The loop of `read_decimal`; the tenth digit overflows `power`.
unfoldable pub read_digits : List ℕ → ℕ → ℕ → ℕ → Result (ℕ × ℕ)
read_digits [] d power i = ok (d, i)
read_digits (c ∷ str) d power i =
    let rest = read_digits str (d + power * (c - b'0')) (power * 10) (i + 1) in
    if is_digit c then (if ltb int_max (power * 10) then fault else rest) else ok (d, i)

-- It reads from `str[*pos]` on.
unfoldable pub read_decimal : List ℕ → ℕ → Result (ℕ × ℕ)
read_decimal str i = read_digits (drop i str) 0 1 i

unfoldable pub get_width : List ℕ → Result (ℤ × ℕ)
get_width str =
    if char_at str 0 == b'*'
    then ok (format_arg_specified, 1)
    else (do (spec, i) ← read_decimal str 0; ok (pos spec, i))

-- `read_decimal(&str[1], &i)` at `i == 1` reads from `str[2]` on, which is past the NUL if nothing
-- follows the dot; what is written for a `*` is written over.
unfoldable pub get_precision : List ℕ → Result (ℤ × ℕ)
get_precision str =
    if not (char_at str 0 == b'.')
    then ok (pos 0, 0)
    else if ltb (length str) 2
    then fault
    else (do (precision, i) ← read_decimal (drop 1 str) 1; ok (pos precision, i))

unfoldable pub get_length : List ℕ → FormatType × ℕ
get_length str =
    let c = char_at str 0 in
    let c' = char_at str 1 in
    if c == b'h'
    then (if c' == b'h' then (s_char, 2) else (short_int, 1))
    else if c == b'l'
    then (if c' == b'l' then (long_long_int, 2) else (long_int, 1))
    else if c == b'j'
    then (intmax_t, 1)
    else if c == b'z'
    then (size_t, 1)
    else if c == b't'
    then (ptrdiff_t, 1)
    else if c == b'L'
    then (long_double, 1)
    else (int, 0)

unfoldable pub is_int : FormatType → Bool
is_int int = true
is_int _ = false

unfoldable pub is_long_int : FormatType → Bool
is_long_int long_int = true
is_long_int _ = false

unfoldable pub is_long_double : FormatType → Bool
is_long_double long_double = true
is_long_double _ = false

-- `type`, `is_unsigned` and `is_pointer` after the second `switch`
pub record Specified : Type 0 where
  pub type : FormatType
  pub is_unsigned : Bool
  pub is_pointer : Bool

abbrev pub specified : FormatType → Bool → Bool → Specified
specified t u p = record { type = t; is_unsigned = u; is_pointer = p }

-- `n` falls through to the `default` of the `switch`, whose assertion fails.
unfoldable pub get_specifier : FormatType → ℕ → Result Specified
get_specifier t c =
    if c == b'd' || c == b'i'
    then (do assert (not (is_long_double t)); ok (specified t false false))
    else if c == b'u' || c == b'o' || c == b'x' || c == b'X'
    then ok (specified t true false)
    else if c == b'f'
        || c == b'F'
        || c == b'e'
        || c == b'E'
        || c == b'g'
        || c == b'G'
        || c == b'a'
        || c == b'A'
    then (do
      assert (is_long_double t || is_int t)
      ok (specified (if is_int t then double else t) false false))
    else if c == b'c'
    then (do
      assert (is_long_int t || is_int t)
      ok (specified (if is_long_int t then wint_t else t) false false))
    else if c == b's'
    then (do
      assert (is_long_int t || is_int t)
      ok (specified (if is_int t then char else wchar_t) false true))
    else if c == b'p'
    then (do assert (is_int t); ok (specified void false true))
    else halted

unfoldable pub get_length_and_specifier : List ℕ → Result (Specified × ℕ × ℕ)
unfolding get_length get_specifier is_int is_long_int is_long_double
get_length_and_specifier str = do
  let (t, i) = get_length str
  s ← get_specifier t (char_at str i)
  ok (s, char_at str i, i)

-- The assertions that no part has returned -1 hold.
unfoldable pub get_format : List ℕ → Result (PrintfFormat × ℕ)
get_format str = do
  let (flags, i) = get_flags str
  (width, j) ← get_width (drop i str)
  (precision, k) ← get_precision (drop (i + j) str)
  (s, c, l) ← get_length_and_specifier (drop (i + j + k) str)
  ok (
    record {
      flags = flags;
      width = width;
      precision = precision;
      type = s.type;
      is_unsigned = s.is_unsigned;
      is_pointer = s.is_pointer;
      specifier = c;
    },
    i + j + k + l,
  )
