-- ===== src/Printf/Ends.antt =====
-- The loop of `terminal_printf` ends on any terminal, with the rounds that it is given.
use os_c.Prelude.{ℕ, zero, suc, ◌≤◌, ◌≡◌, ◌≢◌, ◌==◌, List, [], ◌∷◌, length, drop, arith}
use os_c.Terminal.{Terminal}
use os_c.Printf.{
  Caller, print_integer, print_arg, take_width, take_precision, print_format, print_plain,
  print_directive, printf_loop,
}
use os_c.Printf.Outcome.{out_of_fuel}
use os_c.Printf.Format.{PrintfFormat, FormatType, char_at}
use os_c.Printf.Hex.{print_integer_as_hex}
use os_c.Printf.Fuel.{print_directive-shorter, length-drop, printf_loop-fuel}
use os_c.Printf.Total.{
  Ends, returns, halts, Always, Ends-bind, Ends-if, Ends-eq, Ends-ne, get_format-Ends,
  hex_text-Ends,
}

print_integer-Ends :
    (format : PrintfFormat) (num : ℕ) (t : Terminal) → Ends Always (print_integer format num t)
unfolding print_integer print_integer_as_hex
print_integer-Ends format num t =
    Ends-if _ (Ends-bind (hex_text-Ends format num) (λ text _. returns tt)) (returns tt)

print_arg-Ends :
    (c : Caller) (format : PrintfFormat) (type : FormatType) (k : ℕ) (t : Terminal)
    → Ends Always (print_arg c format type k t)
unfolding print_arg
print_arg-Ends c format FormatType.char k t = Ends-if format.is_pointer (returns tt) (returns tt)
print_arg-Ends c format FormatType.int k t =
    Ends-bind (print_integer-Ends format _ t) (λ u _. returns tt)
print_arg-Ends c format FormatType.short_int k t =
    Ends-bind (print_integer-Ends format _ t) (λ u _. returns tt)
print_arg-Ends c format FormatType.long_int k t =
    Ends-bind (print_integer-Ends format _ t) (λ u _. returns tt)
print_arg-Ends c format FormatType.long_long_int k t =
    Ends-bind (print_integer-Ends format _ t) (λ u _. returns tt)
print_arg-Ends c format FormatType.intmax_t k t =
    Ends-bind (print_integer-Ends format _ t) (λ u _. returns tt)
print_arg-Ends c format FormatType.size_t k t =
    Ends-bind (print_integer-Ends format _ t) (λ u _. returns tt)
print_arg-Ends c format FormatType.ptrdiff_t k t =
    Ends-bind (print_integer-Ends format _ t) (λ u _. returns tt)
print_arg-Ends c format FormatType.void k t = halts
print_arg-Ends c format _ k t = returns tt

print_directive-Ends :
    (c : Caller) (str : List ℕ) (k : ℕ) (t : Terminal) → Ends Always (print_directive c str k t)
unfolding print_directive print_format
print_directive-Ends c str k t = Ends-bind (get_format-Ends str) λ f _.
    let (g, k') = take_width c f.0 k in
    let (g', k'') = take_precision c g k' in
    Ends-bind (print_arg-Ends c g' g'.type k'' t) (λ r _. returns tt)

printf_loop-Ends :
    (c : Caller) (fuel : ℕ) (str : List ℕ) (k : ℕ) (t : Terminal)
    → length str ≤ fuel
    → Ends Always (printf_loop c fuel str k t)
unfolding printf_loop
printf_loop-Ends c zero [] k t h = returns tt
printf_loop-Ends c (suc fuel) [] k t h = returns tt
printf_loop-Ends c zero (x ∷ str) k t h = elim h [ ]
printf_loop-Ends c (suc fuel) (x ∷ str) k t h =
    let shorter : length (drop 1 str) ≤ fuel = omega (arith, length-drop {0} 1 str) in
    let escaped = printf_loop-Ends c fuel (drop 1 str) k (print_plain (char_at str 0) t) shorter in
    let formatted = Ends-bind (Ends-eq (print_directive-Ends c str k t)) λ r q.
      printf_loop-Ends c fuel r.2 r.1 r.0 (omega (arith, print_directive-shorter c str k t q.1)) in
    let plain = printf_loop-Ends c fuel str k (print_plain x t) (omega arith) in
    Ends-if (x == b'\\') escaped
      (Ends-if (x == b'%') (Ends-if (char_at str 0 == b'%') escaped formatted) plain)

-- With as many rounds as the text has characters, or more, the loop of `terminal_printf` does not
-- run out of rounds, whatever the text, the arguments and the terminal are, and its result is that
-- with just as many rounds as characters.
pub printf_loop-ends :
    (c : Caller) (fuel : ℕ) (str : List ℕ) (k : ℕ) (t : Terminal)
    → length str ≤ fuel
    → (printf_loop c fuel str k t ≢ out_of_fuel)
      × (printf_loop c fuel str k t ≡ printf_loop c (length str) str k t)
printf_loop-ends c fuel str k t enough = (
  Ends-ne (printf_loop-Ends c fuel str k t enough),
  printf_loop-fuel c fuel (length str) str k t enough (omega arith),
)
