-- ===== src/Printf/Total.antt =====
-- The parts of `terminal_printf` end: no rounds of theirs run out.
use os_c.Prelude.{
  ℕ, ◌+◌, ◌*◌, ◌≡◌, ◌≢◌, refl, arith, Bool, true, false, if◌then◌else◌, List, [], ◌∷◌, drop, ltb,
}
use os_c.Printf.Outcome.{Result, ok, halted, fault, out_of_fuel, ◌>>=◌}
use os_c.Printf.Format.{
  PrintfFormat, FormatType, ℤ, pos, negsuc, is_digit, int_max, read_digits, read_decimal, get_width,
  get_precision, get_specifier, get_length_and_specifier, get_format, char_at, get_length,
}
use os_c.Printf.Hex.{hex_text, start_index}

-- the call ends, and if it returns, then well
pub data Ends {A : Type 0} (P : A → Type 0) : Result A → Type 0 where
  returns : {a : A} → P a → Ends P (ok a)
  halts : Ends P halted
  faults : Ends P fault

module _ {A B : Type 0} {P : A → Type 0} {Q : B → Type 0} where
  pub Ends-bind :
      {m : Result A} {f : A → Result B}
      → Ends P m
      → ((a : A) → P a → Ends Q (f a))
      → Ends Q (m >>= f)
  Ends-bind (returns p) h = h _ p
  Ends-bind halts h = halts
  Ends-bind faults h = faults

pub Ends-ok : {A : Type 0} {P : A → Type 0} {a : A} → Ends P (ok a) → P a
Ends-ok (returns p) = p

-- The result of a call that returns well is what it returns.
pub Ends-eq :
    {A : Type 0} {P : A → Type 0} {m : Result A} → Ends P m → Ends (λ a. P a × (m ≡ ok a)) m
Ends-eq (returns p) = returns (p, refl)
Ends-eq halts = halts
Ends-eq faults = faults

pub Ends-ne : {A : Type 0} {P : A → Type 0} {m : Result A} → Ends P m → m ≢ out_of_fuel
Ends-ne (returns p) e = cc
Ends-ne halts e = cc
Ends-ne faults e = cc

pub Ends-if :
    {A : Type 0} {P : A → Type 0} (b : Bool) {m n : Result A}
    → Ends P m
    → Ends P n
    → Ends P (if b then m else n)
Ends-if true p q = p
Ends-if false p q = q

abbrev pub Always : {A : Type 0} → A → Type 0
Always a = Unit {0}

read_digits-Ends : (str : List ℕ) (d power i : ℕ) → Ends Always (read_digits str d power i)
unfolding read_digits
read_digits-Ends [] d power i = returns tt
read_digits-Ends (c ∷ str) d power i =
    Ends-if (is_digit c)
      (Ends-if (ltb int_max (power * 10)) faults (read_digits-Ends str _ (power * 10) (i + 1)))
      (returns tt)

read_decimal-Ends : (str : List ℕ) (i : ℕ) → Ends Always (read_decimal str i)
unfolding read_decimal
read_decimal-Ends str i = read_digits-Ends (drop i str) 0 1 i

get_width-Ends : (str : List ℕ) → Ends Always (get_width str)
unfolding get_width
get_width-Ends str =
    Ends-if _ (returns tt) (Ends-bind (read_decimal-Ends str 0) (λ a p. returns tt))

get_precision-Ends : (str : List ℕ) → Ends Always (get_precision str)
unfolding get_precision
get_precision-Ends str =
    Ends-if _ (returns tt)
      (Ends-if _ faults (Ends-bind (read_decimal-Ends (drop 1 str) 1) (λ a p. returns tt)))

Ends-of_ne : {A : Type 0} (m : Result A) → m ≢ out_of_fuel → Ends Always m
Ends-of_ne (ok a) h = returns tt
Ends-of_ne halted h = halts
Ends-of_ne fault h = faults
Ends-of_ne out_of_fuel h = absurd (h refl)

get_specifier-ne : (t : FormatType) (c : ℕ) → get_specifier t c ≢ out_of_fuel
unfolding get_specifier
get_specifier-ne t c = ground arith

get_specifier-Ends : (t : FormatType) (c : ℕ) → Ends Always (get_specifier t c)
get_specifier-Ends t c = Ends-of_ne (get_specifier t c) (get_specifier-ne t c)

get_length_and_specifier-Ends : (str : List ℕ) → Ends Always (get_length_and_specifier str)
unfolding get_length_and_specifier
get_length_and_specifier-Ends str =
    Ends-bind (get_specifier-Ends (get_length str).0 (char_at str (get_length str).1))
      (λ s _. returns tt)

pub get_format-Ends : (str : List ℕ) → Ends Always (get_format str)
unfolding get_format
get_format-Ends str = Ends-bind (get_width-Ends _) λ w _.
    Ends-bind (get_precision-Ends _)
      λ p _. Ends-bind (get_length_and_specifier-Ends _) λ s _. returns tt

start_index-Ends : (i : ℕ) (w : ℤ) → Ends Always (start_index i w)
unfolding start_index
start_index-Ends i (pos w) = Ends-if _ (returns tt) faults
start_index-Ends i (negsuc w) = Ends-if _ (returns tt) faults

pub hex_text-Ends : (format : PrintfFormat) (num : ℕ) → Ends Always (hex_text format num)
unfolding hex_text
hex_text-Ends format num = Ends-bind (start_index-Ends _ format.width) (λ i _. returns tt)
