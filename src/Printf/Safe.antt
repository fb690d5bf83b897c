-- ===== src/Printf/Safe.antt =====
-- Whatever its text and its arguments, `terminal_printf` keeps the cursor on the screen and writes
-- nowhere else.
use os_c.Prelude.{
  ℕ, zero, suc, ◌≤◌, refl, inl, inr, Bool-cases, ◌==◌, List, [], ◌∷◌, length, drop, arith,
}
use os_c.Terminal.{Terminal, newline, terminal_put_char, print_text, make_vga_char}
use os_c.Terminal.Screen.{Shows, Outside-refl, print_newline-Shows, print_newline-Outside}
use os_c.Terminal.Mark.{terminal_put_char-Shows, terminal_put_char-Outside}
use os_c.Terminal.Sheet.{Sheet}
use os_c.Terminal.Text.{
  Prints, Prints-trans, print_text-Prints, print_string-Prints, print_tab-Prints,
}
use os_c.Printf.{
  Caller, print_integer, print_arg, take_width, take_precision, print_format, print_plain,
  print_directive, printf_loop, terminal_printf,
}
use os_c.Printf.Outcome.{Result}
use os_c.Printf.Format.{PrintfFormat, FormatType, char_at}
use os_c.Printf.Fuel.{print_directive-shorter, length-drop}
use os_c.Printf.Total.{
  Ends, returns, halts, faults, Ends-bind, Ends-if, Ends-eq, get_format-Ends, hex_text-Ends,
}
use os_c.Printf.Hex.{print_integer_as_hex, hex_prefix}

-- the screen still shows a sheet, and nothing outside of it has changed
abbrev pub Kept : Terminal → Terminal → Type 0
Kept t u = (s : Sheet) × Prints t u s

module _ {t : Terminal} {s : Sheet} (w : Shows t s) where
  put_char-Kept : (c : ℕ) → Kept t (terminal_put_char c t)
  put_char-Kept c = (
    _,
    record { shows = terminal_put_char-Shows c w; outside = terminal_put_char-Outside c w.valid },
  )

  print_plain-Kept : (c : ℕ) → Kept t (print_plain c t)
  unfolding print_plain
  print_plain-Kept c = elim (Bool-cases (c == newline)) [
    | inl e ↦
        rw e (_, record { shows = print_newline-Shows w; outside = print_newline-Outside w.valid })
    | inr e ↦ elim (Bool-cases (c == b'\t')) [
      | inl e' ↦ rw (e, e') (_, print_tab-Prints w)
      | inr e' ↦ rw (e, e') (put_char-Kept (make_vga_char c t.default_color))
    ]
  ]

  pub same : Kept t t
  same = (s, record { shows = w; outside = Outside-refl t })

  pub print_text-Kept : (text : List ℕ) → Kept t (print_text text t)
  print_text-Kept text = (_, print_text-Prints text t.default_color refl w)

pub Kept-trans : {t u v : Terminal} → Kept t u → Kept u v → Kept t v
Kept-trans (s, p) (s', q) = (s', Prints-trans p q)

Kept-onward : {t u : Terminal} {m : Result Terminal} → Kept t u → Ends (Kept u) m → Ends (Kept t) m
Kept-onward p (returns q) = returns (Kept-trans p q)
Kept-onward p halts = halts
Kept-onward p faults = faults

print_integer-Kept :
    {t : Terminal} {s : Sheet} (format : PrintfFormat) (num : ℕ)
    → Shows t s
    → Ends (Kept t) (print_integer format num t)
unfolding print_integer print_integer_as_hex
print_integer-Kept {t} format num w =
    Ends-if _
      (Ends-bind (hex_text-Ends format num) λ text _.
        let prefix = print_text-Kept w (hex_prefix format) in
        returns (Kept-trans prefix (print_text-Kept prefix.1.shows text)))
      (returns (same w))

print_arg-Kept :
    {t : Terminal} {s : Sheet} (c : Caller) (format : PrintfFormat) (type : FormatType) (k : ℕ)
    → Shows t s
    → Ends (λ r. Kept t r.0) (print_arg c format type k t)
unfolding print_arg
print_arg-Kept c format FormatType.no_format k w = returns (same w)
print_arg-Kept c format FormatType.int k w =
    Ends-bind (print_integer-Kept format _ w) (λ u p. returns p)
print_arg-Kept c format FormatType.s_char k w = returns (same w)
print_arg-Kept c format FormatType.char k w =
    Ends-if format.is_pointer (returns (_, print_string-Prints _ _ refl w))
      (returns (put_char-Kept w _))
print_arg-Kept c format FormatType.short_int k w =
    Ends-bind (print_integer-Kept format _ w) (λ u p. returns p)
print_arg-Kept c format FormatType.long_int k w =
    Ends-bind (print_integer-Kept format _ w) (λ u p. returns p)
print_arg-Kept c format FormatType.long_long_int k w =
    Ends-bind (print_integer-Kept format _ w) (λ u p. returns p)
print_arg-Kept c format FormatType.intmax_t k w =
    Ends-bind (print_integer-Kept format _ w) (λ u p. returns p)
print_arg-Kept c format FormatType.size_t k w =
    Ends-bind (print_integer-Kept format _ w) (λ u p. returns p)
print_arg-Kept c format FormatType.ptrdiff_t k w =
    Ends-bind (print_integer-Kept format _ w) (λ u p. returns p)
print_arg-Kept c format FormatType.long_double k w = returns (same w)
print_arg-Kept c format FormatType.wint_t k w = returns (same w)
print_arg-Kept c format FormatType.wchar_t k w = returns (same w)
print_arg-Kept c format FormatType.void k w = halts
print_arg-Kept c format FormatType.double k w = returns (same w)

print_format-Kept :
    {t : Terminal} {s : Sheet} (c : Caller) (format : PrintfFormat) (k : ℕ)
    → Shows t s
    → Ends (λ r. Kept t r.0) (print_format c format k t)
unfolding print_format
print_format-Kept c format k w =
    let (f, k') = take_width c format k in
    let (f', k'') = take_precision c f k' in print_arg-Kept c f' f'.type k'' w

print_directive-Kept :
    {t : Terminal} {s : Sheet} (c : Caller) (str : List ℕ) (k : ℕ)
    → Shows t s
    → Ends (λ r. Kept t r.0) (print_directive c str k t)
unfolding print_directive
print_directive-Kept c str k w =
    Ends-bind (get_format-Ends str)
      λ f _. Ends-bind (print_format-Kept c f.0 k w) (λ r p. returns p)

printf_loop-Kept :
    (c : Caller) (fuel : ℕ) (str : List ℕ) (k : ℕ) {t : Terminal} {s : Sheet}
    → length str ≤ fuel
    → Shows t s
    → Ends (Kept t) (printf_loop c fuel str k t)
unfolding printf_loop
printf_loop-Kept c zero [] k h w = returns (same w)
printf_loop-Kept c (suc fuel) [] k h w = returns (same w)
printf_loop-Kept c zero (x ∷ str) k h w = elim h [ ]
printf_loop-Kept c (suc fuel) (x ∷ str) k {t} h w =
    let shorter : length (drop 1 str) ≤ fuel = omega (arith, length-drop {0} 1 str) in
    let escaped =
      let p = print_plain-Kept w (char_at str 0) in
      Kept-onward p (
        printf_loop-Kept c fuel (drop 1 str) k {t = print_plain (char_at str 0) t} shorter
          p.1.shows) in
    let plain =
      let p = print_plain-Kept w x in
      Kept-onward p (printf_loop-Kept c fuel str k {t = print_plain x t} (omega arith) p.1.shows) in
    Ends-if (x == b'\\') escaped (
      Ends-if (x == b'%')
        (Ends-if (char_at str 0 == b'%') escaped (
          Ends-bind (Ends-eq (print_directive-Kept c str k w)) λ r q. Kept-onward q.0 (
            printf_loop-Kept c fuel r.2 r.1 {t = r.0}
              (omega (arith, print_directive-shorter c str k t q.1)) q.0.1.shows)))
        plain)

-- On a terminal that shows a sheet, `terminal_printf` comes to an end for every text and all
-- arguments: it stops in a failed assertion, or has no defined result, or it returns, and then the
-- cursor is on the screen, the sizes and colours are as before, and no memory outside of the screen
-- is written.
pub terminal_printf-Kept :
    (c : Caller) (str : List ℕ) {t : Terminal} {s : Sheet}
    → Shows t s
    → Ends (Kept t) (terminal_printf c str t)
unfolding terminal_printf
terminal_printf-Kept c str w = printf_loop-Kept c (length str) str 0 (omega arith) w
