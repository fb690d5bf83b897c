-- ===== src/Printf/Width.antt =====
-- `read_decimal`: the number that it makes of the digits of a width.
use os_c.Prelude.{
  ℕ, suc, ◌+◌, ◌-◌, ◌*◌, ◌^◌, ◌≤◌, ◌≡◌, refl, ap, ◌∙◌, true, false, ltb, List, [], ◌∷◌, ◌++◌,
  length, arith,
}
use native.Mathlib.Nat.{pow-suc, one-le-pow, le-mul_of_pos_right, pow-le-pow_right, mul_assoc}
use os_c.Printf.Outcome.{ok}
use os_c.Printf.Format.{read_digits, read_decimal, is_digit, int_max, char_at}

-- the number that digits stand for, with the lowest digit first
unfoldable pub lowest_first : List ℕ → ℕ
lowest_first [] = 0
lowest_first (c ∷ digits) = (c - b'0') + 10 * lowest_first digits

unfoldable pub Digits : List ℕ → Type 0
Digits [] = Unit {0}
Digits (c ∷ digits) = (is_digit c ≡ true) × Digits digits

read_digits-stop :
    (rest : List ℕ) (d power i : ℕ)
    → is_digit (char_at rest 0) ≡ false
    → read_digits rest d power i ≡ ok (d, i)
unfolding read_digits
read_digits-stop [] d power i p = refl
read_digits-stop (c ∷ rest) d power i p = rw p

read_digits-lowest_first :
    (digits rest : List ℕ) (d power i : ℕ)
    → Digits digits
    → is_digit (char_at rest 0) ≡ false
    → power * 10 ^ length digits ≤ int_max
    → read_digits (digits ++ rest) d power i
      ≡ ok (d + power * lowest_first digits, i + length digits)
unfolding read_digits lowest_first Digits
read_digits-lowest_first [] rest d power i p q r =
    read_digits-stop rest d power i q ∙ ap (λ a. ok a) (ground arith)
read_digits-lowest_first (c ∷ digits) rest d power i (p, ps) q r =
    let n = 10 ^ length digits in
    let up : power * 10 ^ suc (length digits) ≡ power * 10 * n =
      ground (arith, pow-suc 10 (length digits), mul_assoc power 10 n) in
    let small : ltb int_max (power * 10) ≡ false = ground (
      arith,
      up,
      r,
      le-mul_of_pos_right {m = n} (power * 10) (omega (arith, one-le-pow (length digits) 10)),
    ) in
    let sum : d + power * (c - b'0') + power * 10 * lowest_first digits
        ≡ d + power * ((c - b'0') + 10 * lowest_first digits) =
      grind arith in
    rw (p, small)
      (read_digits-lowest_first digits rest (d + power * (c - b'0')) (power * 10) (i + 1) ps q
          (omega (arith, up))
        ∙ ap (λ a. ok a) (ground (arith, sum)))

-- For at most nine digits that are followed by none, `read_decimal` returns the number that has the
-- first digit for its ones, so that it reads a width in the reverse of the order in which it is
-- written, and stops behind the digits.
pub read_decimal-lowest_first :
    (digits rest : List ℕ)
    → Digits digits
    → is_digit (char_at rest 0) ≡ false
    → length digits ≤ 9
    → read_decimal (digits ++ rest) 0 ≡ ok (lowest_first digits, length digits)
unfolding read_decimal
read_decimal-lowest_first digits rest p q r =
    read_digits-lowest_first digits rest 0 1 0 p q
      (omega (arith, pow-le-pow_right {n = 10} (omega arith) r))
    ∙ ap (λ a. ok a) (ground arith)
