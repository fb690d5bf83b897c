-- ===== src/Terminal/Tests.antt =====
-- src/terminal.c: texts on the screen that `init_terminal` leaves.
use os_c.Prelude.{ℕ, ◌≤◌, ◌≡◌, refl, codes, arith}
use os_c.Terminal.{Terminal, make_vga_char, init_message, init_terminal, print_text}
use os_c.Terminal.Cells.{IsValid}
use os_c.Terminal.Sheet.{Sheet, type_text}
use os_c.Terminal.Screen.{Shows}
use os_c.Terminal.Init.{clean, init_terminal-Shows}
use os_c.Terminal.Text.{Prints, print_text-Prints}

abbrev fresh : Terminal
fresh = init_terminal (λ j. 0)

abbrev first_sheet : Sheet
first_sheet = type_text 10 init_message (clean (make_vga_char b' ' 10))

fresh-Shows : Shows fresh first_sheet
fresh-Shows = (init_terminal-Shows (λ j. 0)).0

init_terminal-Shows_example : Shows fresh first_sheet × ((j : ℕ) → 2000 ≤ j → fresh.buffer j ≡ 0)
init_terminal-Shows_example = init_terminal-Shows (λ j. 0)

abbrev pub screen : Terminal
screen = record {
  col = 24;
  row = 78;
  default_color = 10;
  color = 10;
  buffer = λ j. 0x0a20;
  col_max = 25;
  row_max = 80;
}

screen-IsValid : IsValid screen
screen-IsValid = record {
  sized = record { col_max_eq = refl; row_max_eq = refl };
  col_lt = omega arith;
  row_lt = omega arith;
}

abbrev pub filled : Sheet
filled = record { place = 78; line = 24; top = 0; ink = λ l x. 0x0a20 }

pub screen-Shows : Shows screen filled
unfolding make_vga_char
screen-Shows = record {
  valid = screen-IsValid;
  place_eq = refl;
  line_eq = refl;
  cells = λ x y p q. refl;
  below = λ l x p q. refl;
}

print_text-Prints_example :
    Prints screen (print_text (codes "ab\ncd") screen) (type_text 10 (codes "ab\ncd") filled)
print_text-Prints_example = print_text-Prints (codes "ab\ncd") 10 refl screen-Shows
