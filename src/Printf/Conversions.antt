-- ===== src/Printf/Conversions.antt =====
-- What the conversions print, and which arguments they take.
use os_c.Prelude.{
  ℕ, ◌+◌, ◌≡◌, ◌≢◌, refl, ◌∙◌, ap, List, [], ◌∷◌, ◌++◌, length, length-append, drop, arith, sym,
  u32, u64, Option, none, some,
}
use os_c.Terminal.{Terminal}
use os_c.Printf.{
  Caller, print_integer, print_arg, take_width, take_precision, print_format, print_directive,
  extend_short,
}
use os_c.Printf.Hex.{print_integer_as_hex}
use os_c.Printf.Outcome.{Result, ok, ◌>>=◌, >>=-assoc}
use os_c.Printf.Format.{
  PrintfFormat, get_flags, read_digits, read_decimal, get_width, get_precision,
  get_length_and_specifier, get_format, char_at,
}
use os_c.Printf.Fuel.{printf_from, printf_from-directive}
use os_c.Printf.Directives.{
  Flag, Length, Base, flag_text, length_text, base_char, directive, meaning, get_format-directive,
  h, hh, l, ll, j, z, t,
}

-- A specifier that prints nothing, and takes an argument.
pub data Mute : ℕ → Type 0 where
  mute_d : Mute b'd'
  mute_i : Mute b'i'
  mute_u : Mute b'u'
  mute_o : Mute b'o'
  mute_c : Mute b'c'

mute_lem :
    (c : Caller) (k : ℕ) (spec : ℕ) (text : List ℕ) (term : Terminal)
    → Mute spec
    → (char_at (spec ∷ text) 0 ≢ b'%')
      × (print_directive c (spec ∷ text) k term ≡ ok (term, k + 1, text))
unfolding print_directive get_format get_flags get_width get_precision get_length_and_specifier
    read_decimal read_digits print_format take_width take_precision print_arg print_integer
mute_lem c k spec text term mute_d = (ground arith, refl)
mute_lem c k spec text term _ = (ground arith, refl)

-- At a directive of `d`, `i`, `u`, `o` or `c` without flags and length, `terminal_printf` prints
-- nothing, takes an argument, and goes on behind the directive.
pub printf_from-Mute :
    (c : Caller) (k spec : ℕ) (text : List ℕ) (term : Terminal)
    → Mute spec
    → printf_from c k (b'%' ∷ spec ∷ text) term ≡ printf_from c (k + 1) text term
printf_from-Mute c k spec text term m =
    let (other, printed) = mute_lem c k spec text term m in
    printf_from-directive c k term (spec ∷ text) other
    ∙ ap (λ r. r >>= λ q. printf_from c q.1 q.2 q.0) printed

-- The value that an integer directive takes of its argument slot: an `unsigned int` is the low 32 bits,
-- `h` the low 16 bits as a `short int` that is extended with its sign, and `hh` takes none.
unfoldable pub argument : Length → ℕ → Option ℕ
argument Length.none n = some (u32 n)
argument h n = some (extend_short n)
argument hh n = none
argument l n = some (u64 n)
argument ll n = some (u64 n)
argument j n = some (u64 n)
argument z n = some (u64 n)
argument t n = some (u64 n)

-- Only base 16 is printed: `u` and `o` leave the terminal as it is.
unfoldable pub print_base : Base → PrintfFormat → ℕ → Terminal → Result Terminal
print_base Base.u format v term = ok term
print_base Base.o format v term = ok term
print_base Base.x format v term = print_integer_as_hex format v term
print_base Base.upper_x format v term = print_integer_as_hex format v term

-- the rest of the text after a directive of the base `b` with the value `v`
unfoldable pub with_argument :
    Caller → Base → PrintfFormat → ℕ → List ℕ → Terminal → Option ℕ → Result Terminal
with_argument c b format k text term none = printf_from c k text term
with_argument c b format k text term (some v) =
    print_base b format v term >>= λ term'. printf_from c (k + 1) text term'

print_integer-print_base :
    (f : Flag) (m : Length) (b : Base) (v : ℕ) (term : Terminal)
    → print_integer (meaning f m b) v term ≡ print_base b (meaning f m b) v term
unfolding print_integer print_base
print_integer-print_base f m Base.u v term = refl
print_integer-print_base f m Base.o v term = refl
print_integer-print_base f m Base.x v term = refl
print_integer-print_base f m Base.upper_x v term = refl

directive-ne_percent :
    (f : Flag) (m : Length) (b : Base) (text : List ℕ) → char_at (directive f m b ++ text) 0 ≢ b'%'
directive-ne_percent f m b text = ground arith

drop-length {ℓ} : {A : Type ℓ} (xs ys : List A) → drop (length xs) (xs ++ ys) ≡ ys
drop-length [] ys = refl
drop-length (y ∷ xs) ys = drop-length xs ys

drop-directive :
    (f : Flag) (m : Length) (b : Base) (text : List ℕ)
    → drop (length (flag_text f) + length (length_text m) + 1) (directive f m b ++ text) ≡ text
drop-directive f m b text =
    let count : length (directive f m b) ≡ length (flag_text f) + length (length_text m) + 1 =
      ground (
        arith,
        length-append (flag_text f) (length_text m ++ base_char b ∷ []),
        length-append (length_text m) (base_char b ∷ []),
      ) in
    ap (λ n. drop n (directive f m b ++ text)) (sym count) ∙ drop-length (directive f m b) text

-- the conversion of such a directive alone
print_taken : PrintfFormat → ℕ → Terminal → Option ℕ → Result (Terminal × ℕ)
print_taken format k term none = ok (term, k)
print_taken format k term (some v) = print_integer format v term >>= λ term'. ok (term', k + 1)

print_format-meaning :
    (c : Caller) (f : Flag) (m : Length) (b : Base) (k : ℕ) (term : Terminal)
    → print_format c (meaning f m b) k term
      ≡ print_taken (meaning f m b) k term (argument m (c.arg k))
unfolding print_format take_width take_precision print_arg argument print_taken
print_format-meaning c f Length.none b k term = refl
print_format-meaning c f hh b k term = refl
print_format-meaning c f _ b k term = refl

print_taken-with_argument :
    (c : Caller) (f : Flag) (m : Length) (b : Base) (k : ℕ) (text : List ℕ) (term : Terminal)
    (v : Option ℕ)
    → (print_taken (meaning f m b) k term v >>= λ p. printf_from c p.1 text p.0)
      ≡ with_argument c b (meaning f m b) k text term v
unfolding print_taken with_argument
print_taken-with_argument c f m b k text term none = refl
print_taken-with_argument c f m b k text term (some v) =
    >>=-assoc (print_integer (meaning f m b) v term) (λ term'. ok (term', k + 1))
      (λ p. printf_from c p.1 text p.0)
    ∙ ap (λ r. r >>= λ term'. printf_from c (k + 1) text term')
        (print_integer-print_base f m b v term)

print_directive-integer :
    (c : Caller) (f : Flag) (m : Length) (b : Base) (k : ℕ) (text : List ℕ) (term : Terminal)
    → print_directive c (directive f m b ++ text) k term
      ≡ (print_taken (meaning f m b) k term (argument m (c.arg k)) >>= λ p. ok (p.0, p.1, text))
unfolding print_directive
print_directive-integer c f m b k text term = rw (
  get_format-directive f m b text,
  print_format-meaning c f m b k term,
  drop-directive f m b text,
)

-- At a directive of `u`, `o`, `x` or `X` with an optional flag and an optional length,
-- `terminal_printf` goes on behind the directive. With the length `hh` it prints nothing and takes
-- no argument; else it takes the next one: with `u` and `o` it prints nothing, and with `x` and `X`
-- it prints by `print_integer_as_hex` the argument's low 32 bits without a length, its low 16 bits,
-- extended with their sign to 64 bits, with `h`, and all its 64 bits with `l`, `ll`, `j`, `z` and
-- `t`.
pub printf_from-integer :
    (c : Caller) (f : Flag) (m : Length) (b : Base) (k : ℕ) (text : List ℕ) (term : Terminal)
    → printf_from c k (b'%' ∷ (directive f m b ++ text)) term
      ≡ with_argument c b (meaning f m b) k text term (argument m (c.arg k))
printf_from-integer c f m b k text term =
    let taken = print_taken (meaning f m b) k term (argument m (c.arg k)) in
    printf_from-directive c k term (directive f m b ++ text) (directive-ne_percent f m b text)
    ∙ ap (λ r. r >>= λ q. printf_from c q.1 q.2 q.0) (print_directive-integer c f m b k text term)
    ∙ >>=-assoc taken (λ p. ok (p.0, p.1, text)) (λ q. printf_from c q.1 q.2 q.0)
    ∙ print_taken-with_argument c f m b k text term (argument m (c.arg k))
