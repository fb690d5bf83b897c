-- ===== src/Printf/Plain.antt =====
-- `terminal_printf` of a text without directives.
use os_c.Prelude.{
  ℕ, ◌≡◌, ◌≢◌, ap, ◌∙◌, ◌==◌, false, List, [], ◌∷◌, ◌++◌, All, Bool, true, not, ◌&&◌, refl, sym,
  arith,
}
use mathlib.Core.List.{append-nil}
use os_c.Terminal.{Terminal, print_text}
use os_c.Printf.{Caller, print_plain, terminal_printf}
use os_c.Printf.Outcome.{ok}
use os_c.Printf.Fuel.{printf_from, printf_from-plain, printf_from-end, terminal_printf-from}

-- a character that stands for itself
pub record IsPlain (c : ℕ) : Type 0 where
  pub no_directive : c ≢ b'%'
  pub no_escape : c ≢ b'\\'
  pub no_tab : c ≢ b'\t'

print_plain-step :
    (c : ℕ) (text : List ℕ) (t : Terminal)
    → IsPlain c
    → print_text text (print_plain c t) ≡ print_text (c ∷ text) t
unfolding print_plain print_text
print_plain-step c text t p = let tab : (c == b'\t') ≡ false = ground (arith, p.no_tab) in rw tab

-- The loop prints the plain characters, and goes on behind them.
pub printf_from-print_text :
    (c : Caller) (k : ℕ) (text rest : List ℕ) (t : Terminal)
    → All IsPlain text
    → printf_from c k (text ++ rest) t ≡ printf_from c k rest (print_text text t)
unfolding print_text
printf_from-print_text c k [] rest t p = refl
printf_from-print_text c k (x ∷ text) rest t (p, ps) =
    printf_from-plain c k t x (text ++ rest) p.no_directive p.no_escape
    ∙ printf_from-print_text c k text rest (print_plain x t) ps
    ∙ ap (printf_from c k rest) (print_plain-step x text t p)

printf_from-text :
    (c : Caller) (k : ℕ) (text : List ℕ) (t : Terminal)
    → All IsPlain text
    → printf_from c k text t ≡ ok (print_text text t)
printf_from-text c k text t p =
    ap (λ s. printf_from c k s t) (sym (append-nil text))
    ∙ printf_from-print_text c k text [] t p
    ∙ printf_from-end c k (print_text text t)

-- For a text without `%`, backslash and tab, `terminal_printf` does what `print_text` does.
pub terminal_printf-print_text :
    (c : Caller) (text : List ℕ) (t : Terminal)
    → All IsPlain text
    → terminal_printf c text t ≡ ok (print_text text t)
terminal_printf-print_text c text t p =
    terminal_printf-from c text t ∙ printf_from-text c 0 text t p

unfoldable pub is_plain : ℕ → Bool
is_plain c = not (c == b'%') && (not (c == b'\\') && not (c == b'\t'))

unfoldable pub all_plain : List ℕ → Bool
all_plain [] = true
all_plain (c ∷ text) = is_plain c && all_plain text

is_plain-IsPlain : (c : ℕ) → is_plain c ≡ true → IsPlain c
unfolding is_plain
is_plain-IsPlain c e = record {
  no_directive = ground (arith, e);
  no_escape = ground (arith, e);
  no_tab = ground (arith, e);
}

pub all_plain-IsPlain : (text : List ℕ) → all_plain text ≡ true → All IsPlain text
unfolding all_plain
all_plain-IsPlain [] e = tt
all_plain-IsPlain (c ∷ text) e =
    (is_plain-IsPlain c (ground (arith, e)), all_plain-IsPlain text (ground (arith, e)))
