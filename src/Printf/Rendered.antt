-- ===== src/Printf/Rendered.antt =====
-- What `print_integer_as_hex` prints of a number: digits to the base 16, as many as the width asks for.
use os_c.Prelude.{
  ℕ, zero, suc, ◌+◌, ◌-◌, ◌/◌, ◌%◌, ◌^◌, ◌≤◌, ◌<◌, ◌≡◌, ap, ◌∙◌, Bool-cases, ◌⊎◌, inl, inr, ltb,
  min, List, [], ◌∷◌, ◌++◌, length, All, drop, arith,
}
use native.Mathlib.Decide.{dec_lt}
use os_c.Printf.Outcome.{ok}
use os_c.Printf.Format.{PrintfFormat, pos}
use os_c.Printf.Hex.{hex_digit, first_digit, start_index, offset_for_hex, hex_buffer, hex_text}
use os_c.Printf.Digits.{
  digits_of, value_from, length-digits_of, hex_buffer-digits_of, value_from-drop_first,
  value_from-digits_of, first_digit-drop, length-drop_within,
}

-- `0` to `9`, or one of the six letters of the specifier
pub data IsHexDigit (offset c : ℕ) : Type 0 where
  decimal : b'0' ≤ c → c ≤ b'9' → IsHexDigit offset c
  letter : offset + 10 ≤ c → c ≤ offset + 15 → IsHexDigit offset c

All-append {ℓ κ} :
    {A : Type ℓ} (P : A → Type κ) (xs ys : List A) → All P xs → All P ys → All P (xs ++ ys)
All-append P [] ys p q = q
All-append P (x ∷ xs) ys p q = (p.0, All-append P xs ys p.1 q)

All-drop {ℓ κ} : {A : Type ℓ} (P : A → Type κ) (n : ℕ) (xs : List A) → All P xs → All P (drop n xs)
All-drop P zero xs p = p
All-drop P (suc n) [] p = tt
All-drop P (suc n) (x ∷ xs) p = All-drop P n xs p.1

hex_digit-IsHexDigit : (offset d : ℕ) → d < 16 → IsHexDigit offset (hex_digit offset d)
unfolding hex_digit
hex_digit-IsHexDigit offset d p = elim (Bool-cases (ltb d 10)) [
  | inl e ↦ rw e (decimal (omega arith) (ground arith))
  | inr e ↦ rw e (letter (ground arith) (omega arith))
]

digits_of-IsHexDigit : (offset i num : ℕ) → All (IsHexDigit offset) (digits_of offset i num)
unfolding digits_of
digits_of-IsHexDigit offset zero num = tt
digits_of-IsHexDigit offset (suc i) num =
    All-append (IsHexDigit offset) (digits_of offset i (num / 16))
      (hex_digit offset (num % 16) ∷ []) (digits_of-IsHexDigit offset i (num / 16))
      (hex_digit-IsHexDigit offset (num % 16) (omega arith), tt)

-- What `%x` and `%X` print of a number, in a width of fifteen at most: digits of the value of the
-- number, more of them than the width says, and no leading zero beyond that.
pub record Rendered (format : PrintfFormat) (num w : ℕ) (text : List ℕ) : Type 0 where
  pub printed : hex_text format num ≡ ok text
  pub value : value_from (offset_for_hex format.specifier) 0 text ≡ num
  pub longer : w < length text
  pub digits : All (IsHexDigit (offset_for_hex format.specifier)) text
  pub shortest : (length text ≡ w + 1) ⊎ (first_digit text ≡ 0)

pub hex_text-Rendered :
    (format : PrintfFormat) (num w : ℕ)
    → num < 2 ^ 64
    → w ≤ 15
    → format.width ≡ pos w
    → (text : List ℕ) × Rendered format num w text
unfolding hex_text start_index
hex_text-Rendered format num w small h e =
    let buf = hex_buffer format.specifier num in
    let from = min (first_digit buf) (15 - w) in
    let len : length buf ≡ 16 =
      ap length (hex_buffer-digits_of format.specifier num)
      ∙ length-digits_of (offset_for_hex format.specifier) 16 num in
    let left = length-drop_within from buf (omega (arith, len)) in
    (
      drop from buf,
      record {
        printed = ground (arith, e);
        value =
            value_from-drop_first (offset_for_hex format.specifier) from buf (omega arith)
            ∙ ap (value_from (offset_for_hex format.specifier) 0)
                (hex_buffer-digits_of format.specifier num)
            ∙ value_from-digits_of format.specifier 16 num
            ∙ omega arith;
        longer = omega (arith, left, len);
        digits = All-drop (IsHexDigit (offset_for_hex format.specifier)) from buf (
            rw (hex_buffer-digits_of format.specifier num)
              (digits_of-IsHexDigit (offset_for_hex format.specifier) 16 num));
        shortest = elim (dec_lt (first_digit buf) (15 - w)) [
          | yes lt ↦
              let all : from ≡ first_digit buf = omega arith in inr (rw all (first_digit-drop buf))
          | no ge ↦ inl (omega (arith, left, len))
        ];
      },
    )
