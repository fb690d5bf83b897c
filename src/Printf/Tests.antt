-- ===== src/Printf/Tests.antt =====
-- src/terminal.c, `terminal_printf`: formats as the kernel uses them.
use os_c.Prelude.{◌-◌, ◌^◌, ◌≢◌, ◌+◌, ◌≡◌, refl, ◌∷◌, ◌++◌, length, codes, arith}
use os_c.Terminal.Tests.{screen, screen-Shows}
use os_c.Printf.{Caller, terminal_printf, printf_loop}
use os_c.Printf.Outcome.{ok, fault, out_of_fuel}
use os_c.Printf.Format.{PrintfFormat, get_format, read_decimal, pos, negsuc}
use os_c.Printf.Hex.{hex_text, start_index}
use os_c.Printf.Fuel.{printf_from}
use os_c.Printf.Ends.{printf_loop-ends}
use os_c.Printf.Total.{Ends}
use os_c.Printf.Safe.{Kept, terminal_printf-Kept}
use os_c.Printf.Width.{lowest_first, Digits, read_decimal-lowest_first}
use os_c.Printf.Rendered.{Rendered}
use os_c.Printf.Directives.{
  Flag, Length, Base, directive, meaning, flag_text, length_text, get_format-directive,
}
use os_c.Printf.Conversions.{with_argument, argument, printf_from-integer}

-- a call with three arguments
abbrev caller : Caller
caller = record { string_at = λ a. codes "text"; arg = λ k. 0xcafebabecafebabe }

terminal_printf-Kept_example :
    Ends (Kept screen) (terminal_printf caller (codes "at %#zx\t%s\n") screen)
terminal_printf-Kept_example = terminal_printf-Kept caller (codes "at %#zx\t%s\n") screen-Shows

abbrev zx : PrintfFormat
zx = meaning Flag.hash Length.z Base.x

zx-text : hex_text zx 0xcafe ≡ ok (codes "cafe")
unfolding hex_text
zx-text = refl

get_format-directive_example :
    get_format (directive Flag.hash Length.z Base.x ++ codes "\n")
    ≡ ok (
      meaning Flag.hash Length.z Base.x,
      length (flag_text Flag.hash) + length (length_text Length.z),
    )
get_format-directive_example = get_format-directive Flag.hash Length.z Base.x (codes "\n")

printf_from-integer_example :
    printf_from caller 0 (b'%' ∷ (directive Flag.hash Length.z Base.x ++ codes "\n")) screen
    ≡ with_argument caller Base.x
        (meaning Flag.hash Length.z Base.x)
        0
        (codes "\n")
        screen
        (argument Length.z 0xcafebabecafebabe)
printf_from-integer_example =
    printf_from-integer caller Flag.hash Length.z Base.x 0 (codes "\n") screen

printf_loop-ends_example :
    (printf_loop caller 7 (codes "%x\n") 0 screen ≢ out_of_fuel)
    × (printf_loop caller 7 (codes "%x\n") 0 screen ≡ printf_loop caller 3 (codes "%x\n") 0 screen)
printf_loop-ends_example = printf_loop-ends caller 7 (codes "%x\n") 0 screen (omega arith)

-- a width that an argument gives, above 15 and far below 0
run_width :
    (hex_text (record zx { width = pos 16 }) 5 ≡ fault)
    × (hex_text (record zx { width = negsuc (2 ^ 31 - 1) }) 5 ≡ fault)
    × (hex_text (record zx { width = negsuc 0 }) 5 ≡ ok (codes "5"))
unfolding hex_text start_index
run_width = (refl, refl, refl)

read_decimal-lowest_first_example :
    read_decimal (codes "12" ++ codes "x") 0 ≡ ok (lowest_first (codes "12"), length (codes "12"))
unfolding Digits
read_decimal-lowest_first_example =
    read_decimal-lowest_first (codes "12") (codes "x") (refl, (refl, tt)) refl (omega arith)
