-- ===== src/Printf/Directives.antt =====
-- What the directives do: reading back the language of the formats, and an equation for each kind.
use os_c.Prelude.{ℕ, ◌+◌, ◌≡◌, refl, true, false, List, [], ◌∷◌, ◌++◌, length, drop, codes}
use native.Mathlib.Nat.{add-zero}
use os_c.Printf.Outcome.{ok}
use os_c.Printf.Format.{
  PrintfFormat, FormatType, pos, get_flags, read_digits, read_decimal, get_width, get_precision,
  get_length_and_specifier, get_format, specified,
}

-- The integer directives without width and precision: an optional flag, a length, a specifier.
pub data Flag : Type 0 where
  bare minus plus space hash zero_pad : Flag

pub data Length : Type 0 where
  none h hh l ll j z t : Length

pub data Base : Type 0 where
  u o x upper_x : Base

abbrev pub flag_text : Flag → List ℕ
flag_text bare = []
flag_text minus = codes "-"
flag_text plus = codes "+"
flag_text space = codes " "
flag_text hash = codes "#"
flag_text zero_pad = codes "0"

abbrev pub flag_bits : Flag → ℕ
flag_bits bare = 0x0
flag_bits minus = 0x01
flag_bits plus = 0x02
flag_bits space = 0x04
flag_bits hash = 0x08
flag_bits zero_pad = 0x10

abbrev pub length_text : Length → List ℕ
length_text none = []
length_text h = codes "h"
length_text hh = codes "hh"
length_text l = codes "l"
length_text ll = codes "ll"
length_text j = codes "j"
length_text z = codes "z"
length_text t = codes "t"

abbrev pub length_type : Length → FormatType
length_type none = FormatType.int
length_type h = FormatType.short_int
length_type hh = FormatType.s_char
length_type l = FormatType.long_int
length_type ll = FormatType.long_long_int
length_type j = FormatType.intmax_t
length_type z = FormatType.size_t
length_type t = FormatType.ptrdiff_t

abbrev pub base_char : Base → ℕ
base_char u = b'u'
base_char o = b'o'
base_char x = b'x'
base_char upper_x = b'X'

abbrev pub directive : Flag → Length → Base → List ℕ
directive f m b = flag_text f ++ length_text m ++ base_char b ∷ []

abbrev pub meaning : Flag → Length → Base → PrintfFormat
meaning f m b = record {
  flags = flag_bits f;
  width = pos 0;
  precision = pos 0;
  type = length_type m;
  is_unsigned = true;
  is_pointer = false;
  specifier = base_char b;
}

-- what the parts of `get_format` make of the text behind the flag
unflagged :
    (m : Length) (b : Base) (rest : List ℕ)
    → let text = (length_text m ++ base_char b ∷ []) ++ rest in
      (get_flags text ≡ (0, 0))
      × (get_width text ≡ ok (pos 0, 0))
      × (get_precision text ≡ ok (pos 0, 0))
      × (get_length_and_specifier text
          ≡ ok (specified (length_type m) true false, base_char b, length (length_text m)))
unfolding get_flags get_width get_precision get_length_and_specifier read_decimal read_digits
unflagged none u rest = (refl, refl, refl, refl)
unflagged none _ rest = (refl, refl, refl, refl)
unflagged h u rest = (refl, refl, refl, refl)
unflagged h _ rest = (refl, refl, refl, refl)
unflagged hh u rest = (refl, refl, refl, refl)
unflagged hh _ rest = (refl, refl, refl, refl)
unflagged l u rest = (refl, refl, refl, refl)
unflagged l _ rest = (refl, refl, refl, refl)
unflagged ll u rest = (refl, refl, refl, refl)
unflagged ll _ rest = (refl, refl, refl, refl)
unflagged j u rest = (refl, refl, refl, refl)
unflagged j _ rest = (refl, refl, refl, refl)
unflagged z u rest = (refl, refl, refl, refl)
unflagged z _ rest = (refl, refl, refl, refl)
unflagged t u rest = (refl, refl, refl, refl)
unflagged t _ rest = (refl, refl, refl, refl)

behind_flag :
    (m : Length) (b : Base) (rest text : List ℕ) (bits i : ℕ)
    → get_flags text ≡ (bits, i)
    → drop i text ≡ (length_text m ++ base_char b ∷ []) ++ rest
    → get_format text ≡ ok (record (meaning bare m b) { flags = bits }, i + length (length_text m))
unfolding get_format
behind_flag m b rest text bits i flags left =
    let (_, width, precision, spec) = unflagged m b rest in
    simp (flags, left, width, add-zero, precision, spec)

-- `get_format` reads the text of every directive of `u`, `o`, `x` or `X` with an optional flag and
-- an optional length back to what it stands for, whatever text follows, and stops at the specifier.
pub get_format-directive :
    (f : Flag) (m : Length) (b : Base) (rest : List ℕ)
    → get_format (directive f m b ++ rest)
      ≡ ok (meaning f m b, length (flag_text f) + length (length_text m))
unfolding get_flags
get_format-directive bare m b rest = behind_flag m b rest _ 0 0 (unflagged m b rest).0 refl
get_format-directive minus m b rest = behind_flag m b rest _ 0x01 1 refl refl
get_format-directive plus m b rest = behind_flag m b rest _ 0x02 1 refl refl
get_format-directive space m b rest = behind_flag m b rest _ 0x04 1 refl refl
get_format-directive hash m b rest = behind_flag m b rest _ 0x08 1 refl refl
get_format-directive zero_pad m b rest = behind_flag m b rest _ 0x10 1 refl refl
