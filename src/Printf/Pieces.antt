-- ===== src/Printf/Pieces.antt =====
-- `terminal_printf` of the texts that the kernel's parts print: plain text, tabs, and numbers in base 16.
use os_c.Prelude.{
  ℕ, ◌+◌, ◌^◌, ◌<◌, ◌≡◌, refl, ap, ◌∙◌, min, List, [], ◌∷◌, ◌++◌, drop, All, Option, none, some,
  Bool, true, ◌&&◌, arith,
}
use os_c.Terminal.{Terminal, print_text, print_tab}
use mathlib.Core.Path.{subst}
use os_c.Terminal.Sheet.{Sheet}
use os_c.Terminal.Screen.{Shows}
use os_c.Printf.{Caller, print_plain, terminal_printf}
use os_c.Printf.Outcome.{Result, ok, ◌>>=◌}
use os_c.Printf.Hex.{
  hex_buffer, hex_text, hex_prefix, first_digit, start_index, print_integer_as_hex,
}
use os_c.Printf.Fuel.{printf_from, printf_from-plain, printf_from-end, terminal_printf-from}
use os_c.Printf.Plain.{IsPlain, all_plain, all_plain-IsPlain, printf_from-print_text}
use os_c.Printf.Directives.{Flag, Length, Base, directive, meaning}
use os_c.Printf.Conversions.{print_base, argument, with_argument, printf_from-integer}
use os_c.Printf.Digits.{value_from}
use os_c.Printf.Rendered.{hex_text-Rendered}
use os_c.Printf.Total.{Ends, Ends-ok}
use os_c.Printf.Safe.{Kept, terminal_printf-Kept}

pub data Piece : Type 0 where
  plain : List ℕ → Piece
  tab : Piece
  lower upper : Flag → Length → Piece

-- how the pieces are spelled in the text of a call
abbrev pub spell : List Piece → List ℕ
spell [] = []
spell (plain text ∷ ps) = text ++ spell ps
spell (tab ∷ ps) = b'\t' ∷ spell ps
spell (lower f m ∷ ps) = b'%' ∷ (directive f m Base.x ++ spell ps)
spell (upper f m ∷ ps) = b'%' ∷ (directive f m Base.upper_x ++ spell ps)

-- the digits that `%x` or `%X` prints of a number
unfoldable pub digits : ℕ → ℕ → List ℕ
digits specifier n = let buf = hex_buffer specifier n in drop (min (first_digit buf) 15) buf

abbrev pub print_hex : Flag → Base → Option ℕ → Terminal → Terminal
print_hex f b none t = t
print_hex f b (some v) t =
    let format = meaning f Length.none b in
    print_text (digits format.specifier v) (print_text (hex_prefix format) t)

abbrev pub slot_after : ℕ → Option ℕ → ℕ
slot_after k none = k
slot_after k (some v) = k + 1

-- what the pieces print, from the argument `k` on
abbrev pub write_pieces : Caller → ℕ → List Piece → Terminal → Terminal
write_pieces c k [] t = t
write_pieces c k (plain text ∷ ps) t = write_pieces c k ps (print_text text t)
write_pieces c k (tab ∷ ps) t = write_pieces c k ps (print_tab t)
write_pieces c k (lower f m ∷ ps) t =
    let v = argument m (c.arg k) in write_pieces c (slot_after k v) ps (print_hex f Base.x v t)
write_pieces c k (upper f m ∷ ps) t =
    let v = argument m (c.arg k) in
    write_pieces c (slot_after k v) ps (print_hex f Base.upper_x v t)

abbrev pub IsSpelled : Piece → Type 0
IsSpelled (plain text) = All IsPlain text
IsSpelled _ = Unit

print_base-lower :
    (f : Flag) (m : Length) (v : ℕ) (t : Terminal)
    → print_base Base.x (meaning f m Base.x) v t ≡ ok (print_hex f Base.x (some v) t)
unfolding print_base print_integer_as_hex hex_text start_index digits
print_base-lower f m v t = refl

print_base-upper :
    (f : Flag) (m : Length) (v : ℕ) (t : Terminal)
    → print_base Base.upper_x (meaning f m Base.upper_x) v t
      ≡ ok (print_hex f Base.upper_x (some v) t)
unfolding print_base print_integer_as_hex hex_text start_index digits
print_base-upper f m v t = refl

with_argument-hex :
    (c : Caller) (f : Flag) (m : Length) (b : Base) (k : ℕ) (rest : List ℕ) (t : Terminal)
    (v : Option ℕ)
    → ((n : ℕ) → print_base b (meaning f m b) n t ≡ ok (print_hex f b (some n) t))
    → with_argument c b (meaning f m b) k rest t v
      ≡ printf_from c (slot_after k v) rest (print_hex f b v t)
unfolding with_argument
with_argument-hex c f m b k rest t none p = refl
with_argument-hex c f m b k rest t (some n) p =
    ap (λ r. r >>= λ t'. printf_from c (k + 1) rest t') (p n)

printf_from-pieces :
    (c : Caller) (k : ℕ) (ps : List Piece) (t : Terminal)
    → All IsSpelled ps
    → printf_from c k (spell ps) t ≡ ok (write_pieces c k ps t)
unfolding print_plain
printf_from-pieces c k [] t p = printf_from-end c k t
printf_from-pieces c k (plain text ∷ ps) t (p, q) =
    printf_from-print_text c k text (spell ps) t p ∙ printf_from-pieces c k ps (print_text text t) q
printf_from-pieces c k (tab ∷ ps) t (p, q) =
    printf_from-plain c k t b'\t' (spell ps) (ground arith) (ground arith)
    ∙ printf_from-pieces c k ps (print_tab t) q
printf_from-pieces c k (lower f m ∷ ps) t (p, q) =
    let v = argument m (c.arg k) in
    printf_from-integer c f m Base.x k (spell ps) t
    ∙ with_argument-hex c f m Base.x k (spell ps) t v (λ n. print_base-lower f m n t)
    ∙ printf_from-pieces c (slot_after k v) ps (print_hex f Base.x v t) q
printf_from-pieces c k (upper f m ∷ ps) t (p, q) =
    let v = argument m (c.arg k) in
    printf_from-integer c f m Base.upper_x k (spell ps) t
    ∙ with_argument-hex c f m Base.upper_x k (spell ps) t v (λ n. print_base-upper f m n t)
    ∙ printf_from-pieces c (slot_after k v) ps (print_hex f Base.upper_x v t) q

-- A text of plain characters, tabs and directives for base 16 is printed piece by piece, and the
-- call returns.
pub terminal_printf-pieces :
    (c : Caller) (ps : List Piece) (t : Terminal)
    → All IsSpelled ps
    → terminal_printf c (spell ps) t ≡ ok (write_pieces c 0 ps t)
terminal_printf-pieces c ps t p =
    terminal_printf-from c (spell ps) t ∙ printf_from-pieces c 0 ps t p

abbrev text_of : Result (List ℕ) → List ℕ
text_of (ok text) = text
text_of _ = []

-- The digits that are printed of a number stand for it.
pub digits-value : (n : ℕ) → n < 2 ^ 64 → value_from 0x37 0 (digits b'X' n) ≡ n
unfolding digits hex_text start_index
digits-value n p =
    let (text, r) =
      hex_text-Rendered (meaning Flag.hash Length.z Base.upper_x) n 0 p (omega arith) refl in
    ap (value_from 0x37 0) (ap text_of r.printed) ∙ r.value

-- The pieces keep the cursor on the screen.
pub write_pieces-Kept :
    (c : Caller) (ps : List Piece) {t : Terminal} {s : Sheet}
    → All IsSpelled ps
    → Shows t s
    → Kept t (write_pieces c 0 ps t)
write_pieces-Kept c ps {t} p w =
    Ends-ok (
      subst (Ends (Kept t)) (terminal_printf-pieces c ps t p) (terminal_printf-Kept c (spell ps) w))

unfoldable pub all_spelled : List Piece → Bool
all_spelled [] = true
all_spelled (plain text ∷ ps) = all_plain text && all_spelled ps
all_spelled (_ ∷ ps) = all_spelled ps

pub all_spelled-IsSpelled : (ps : List Piece) → all_spelled ps ≡ true → All IsSpelled ps
unfolding all_spelled
all_spelled-IsSpelled [] e = tt
all_spelled-IsSpelled (plain text ∷ ps) e =
    (all_plain-IsPlain text (ground (arith, e)), all_spelled-IsSpelled ps (ground (arith, e)))
all_spelled-IsSpelled (tab ∷ ps) e = (tt, all_spelled-IsSpelled ps e)
all_spelled-IsSpelled (lower f m ∷ ps) e = (tt, all_spelled-IsSpelled ps e)
all_spelled-IsSpelled (upper f m ∷ ps) e = (tt, all_spelled-IsSpelled ps e)
