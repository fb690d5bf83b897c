-- ===== src/Printf/Digits.antt =====
-- The digits that `print_integer_as_hex` prints stand for its number.
use os_c.Prelude.{
  ℕ, zero, suc, ◌+◌, ◌-◌, ◌*◌, ◌/◌, ◌%◌, ◌^◌, ◌≤◌, ◌<◌, ◌≡◌, refl, ap, sym, ◌∙◌, Bool-cases, inl,
  inr, ltb, ◌==◌, if◌then◌else◌, List, [], ◌∷◌, ◌++◌, length, length-append, drop, replicate, arith,
}
use mathlib.Core.List.{append_assoc, append-nil}
use native.Mathlib.Nat.{
  div-add-mod, mul-add-mod_self_left, mod-eq_of_lt, mod-lt, one-le-pow, pow-suc, mul_comm,
}
use native.Mathlib.Numerals.{add-one}
use os_c.Printf.Hex.{set, hex_digit, write_digits, first_digit, offset_for_hex, hex_buffer}

-- the last `i` digits of a number, the highest first
unfoldable pub digits_of : ℕ → ℕ → ℕ → List ℕ
digits_of offset zero num = []
digits_of offset (suc i) num = digits_of offset i (num / 16) ++ hex_digit offset (num % 16) ∷ []

-- the number that digits stand for, read from the highest on
abbrev pub digit_value : ℕ → ℕ → ℕ
digit_value offset c = if ltb c 0x3a then c - 0x30 else c - offset

pub value_from : ℕ → ℕ → List ℕ → ℕ
value_from offset n [] = n
value_from offset n (c ∷ text) = value_from offset (16 * n + digit_value offset c) text

pub length-digits_of : (offset i num : ℕ) → length (digits_of offset i num) ≡ i
unfolding digits_of
length-digits_of offset zero num = refl
length-digits_of offset (suc i) num = omega (
  arith,
  length-append (digits_of offset i (num / 16)) (hex_digit offset (num % 16) ∷ []),
  length-digits_of offset i (num / 16),
)

replicate-suc : (i c : ℕ) → replicate i c ++ c ∷ [] ≡ replicate (suc i) c
replicate-suc zero c = refl
replicate-suc (suc i) c = ap (λ l. c ∷ l) (replicate-suc i c)

digits_of-zero : (offset i : ℕ) → digits_of offset i 0 ≡ replicate i b'0'
unfolding digits_of hex_digit
digits_of-zero offset zero = refl
digits_of-zero offset (suc i) = rw (digits_of-zero offset i) (replicate-suc i b'0')

set-replicate :
    (i c d : ℕ) (tail : List ℕ)
    → set (replicate (suc i) c ++ tail) i d ≡ replicate i c ++ (d ∷ tail)
unfolding set
set-replicate zero c d tail = refl
set-replicate (suc i) c d tail = ap (λ l. c ∷ l) (set-replicate i c d tail)

-- The loop replaces the zeros in front of the digits that it has written by the digits of the rest.
write_digits_lem :
    (offset i num : ℕ) (tail : List ℕ)
    → write_digits offset i num (replicate i b'0' ++ tail) ≡ digits_of offset i num ++ tail
unfolding write_digits digits_of
write_digits_lem offset zero num tail = refl
write_digits_lem offset (suc i) num tail = elim (Bool-cases (ltb 0 num)) [
  | inl more ↦ rw more (
      ap (write_digits offset i (num / 16))
        (set-replicate i b'0' (hex_digit offset (num % 16)) tail)
      ∙ write_digits_lem offset i (num / 16) (hex_digit offset (num % 16) ∷ tail)
      ∙ sym (append_assoc (digits_of offset i (num / 16)) (hex_digit offset (num % 16) ∷ []) tail))
  | inr done ↦ rw done (
      ap (λ l. l ++ tail)
        (sym (digits_of-zero offset (suc i))
          ∙ ap (digits_of offset (suc i)) (let e : 0 ≡ num = ground arith in e)))
]

-- The buffer holds all sixteen digits.
pub hex_buffer-digits_of :
    (specifier num : ℕ) → hex_buffer specifier num ≡ digits_of (offset_for_hex specifier) 16 num
unfolding hex_buffer
hex_buffer-digits_of specifier num =
    write_digits_lem (offset_for_hex specifier) 16 num []
    ∙ append-nil (digits_of (offset_for_hex specifier) 16 num)

value_from-append :
    (offset n c : ℕ) (text : List ℕ)
    → value_from offset n (text ++ c ∷ []) ≡ 16 * value_from offset n text + digit_value offset c
unfolding value_from
value_from-append offset n c [] = refl
value_from-append offset n c (x ∷ text) =
    value_from-append offset (16 * n + digit_value offset x) c text

-- both offsets of the source, for `X` and for `x`
digit_value-hex_digit :
    (specifier d : ℕ)
    → d < 16
    → digit_value (offset_for_hex specifier) (hex_digit (offset_for_hex specifier) d) ≡ d
unfolding hex_digit
digit_value-hex_digit specifier d h = ground arith

mod_step : (p n : ℕ) → 0 < p → n % (16 * p) ≡ 16 * (n / 16 % p) + n % 16
mod_step p n h =
    let split : 16 * p * (n / 16 / p) + (16 * (n / 16 % p) + n % 16) ≡ n =
      omega (arith, ap (λ (t : ℕ). 16 * t) (div-add-mod (n / 16) p)) in
    ap (λ t. t % (16 * p)) (sym split)
    ∙ mul-add-mod_self_left (16 * p) (n / 16 / p) (16 * (n / 16 % p) + n % 16)
    ∙ mod-eq_of_lt (omega (arith, mod-lt (n / 16) h))

pub value_from-digits_of :
    (specifier i num : ℕ)
    → value_from (offset_for_hex specifier) 0 (digits_of (offset_for_hex specifier) i num)
      ≡ num % 16 ^ i
unfolding digits_of value_from
value_from-digits_of specifier zero num = omega arith
value_from-digits_of specifier (suc i) num =
    value_from-append (offset_for_hex specifier) 0 (hex_digit (offset_for_hex specifier) (num % 16))
      (digits_of (offset_for_hex specifier) i (num / 16))
    ∙ omega (
      arith,
      value_from-digits_of specifier i (num / 16),
      digit_value-hex_digit specifier (num % 16) (omega arith),
      mod_step (16 ^ i) num (one-le-pow i 16 (omega arith)),
      ap (λ (t : ℕ). num % t) (pow-suc 16 i),
      ap (λ (t : ℕ). num % t) (mul_comm (16 ^ i) 16),
    )

-- A zero in front changes no value.
pub value_from-drop_first :
    (offset i : ℕ) (text : List ℕ)
    → i ≤ first_digit text
    → value_from offset 0 (drop i text) ≡ value_from offset 0 text
unfolding value_from first_digit
value_from-drop_first offset zero text h = refl
value_from-drop_first offset (suc i) [] h = refl
value_from-drop_first offset (suc i) (c ∷ text) h =
    let zero_first : c ≡ b'0' = ground arith in
    ground (arith, zero_first, value_from-drop_first offset i text)

pub first_digit-le : (text : List ℕ) → first_digit text ≤ length text
unfolding first_digit
first_digit-le [] = omega arith
first_digit-le (c ∷ text) = ground (arith, first_digit-le text)

pub first_digit-drop : (text : List ℕ) → first_digit (drop (first_digit text) text) ≡ 0
unfolding first_digit
first_digit-drop [] = refl
first_digit-drop (c ∷ text) = elim (Bool-cases (c == b'0')) [
  | inl e ↦ rw (e, add-one) (first_digit-drop text)
  | inr e ↦ rw e (rw e)
]

pub length-drop_within :
    (i : ℕ) (text : List ℕ) → i ≤ length text → length (drop i text) + i ≡ length text
length-drop_within zero text h = omega arith
length-drop_within (suc i) [] h = elim h [ ]
length-drop_within (suc i) (c ∷ text) h = omega (arith, length-drop_within i text (omega arith))
