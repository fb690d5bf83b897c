-- ===== src/Terminal/Init.antt =====
-- `init_terminal`: the screen starts as a clean sheet.
use os_c.Prelude.{ℕ, ◌+◌, ◌*◌, ◌≤◌, ◌≡◌, refl, ap, sym, ◌∙◌, arith}
use os_c.Terminal.{
  Terminal, lines, line_length, blank, make_vga_char, make_vga_color, clear_terminal, init_terminal,
  init_message,
}
use os_c.Terminal.Cells.{IsValid}
use os_c.Terminal.Scroll.{clear_terminal_lem, clear_terminal-Keeps}
use os_c.Terminal.Screen.{Shows}
use os_c.Terminal.Sheet.{Sheet, type_text}
use os_c.Terminal.Text.{Prints, print_text-Prints}

-- the sheet before anything is typed
pub clean : ℕ → Sheet
clean space = record { place = 0; line = 0; top = 0; ink = λ l x. space }

clear_terminal-Shows :
    {t : Terminal}
    → IsValid t
    → t.col ≡ 0
    → t.row ≡ 0
    → Prints t (clear_terminal t) (clean (blank t))
unfolding clean
clear_terminal-Shows {t} v e f =
    let k = clear_terminal-Keeps t in
    record {
      shows = record {
        valid = record {
          sized = omega (arith, k.col_max_eq, k.row_max_eq, v.sized.col_max_eq, v.sized.row_max_eq);
          col_lt = omega (arith, k.col_eq);
          row_lt = omega (arith, k.row_eq);
        };
        place_eq = omega (arith, k.row_eq);
        line_eq = omega (arith, k.col_eq);
        cells = λ x y hx hy. ground (arith, clear_terminal_lem t (x + y * line_length) v.sized);
        below = λ l x h hx. ap (make_vga_char b' ') (sym k.default_eq);
      };
      outside = record {
        default_eq = k.default_eq;
        color_eq = k.color_eq;
        buffer_eq = λ j h. ground (arith, clear_terminal_lem t j v.sized);
      };
    }

-- Whatever the video memory holds, `init_terminal` leaves a screen that shows a clean sheet in
-- light green with its message typed on it, and the memory from the cell 2000 on as it was.
pub init_terminal-Shows :
    (video : ℕ → ℕ)
    → Shows (init_terminal video) (type_text 10 init_message (clean (make_vga_char b' ' 10)))
      × ((j : ℕ) → 2000 ≤ j → (init_terminal video).buffer j ≡ video j)
unfolding init_terminal make_vga_color
init_terminal-Shows video =
    let fresh : Terminal = record {
      col = 0;
      row = 0;
      default_color = 10;
      color = 10;
      buffer = video;
      col_max = lines;
      row_max = line_length;
    } in
    let cleared = clear_terminal-Shows {t = fresh} (omega arith) refl refl in
    let printed = print_text-Prints init_message 10 cleared.outside.default_eq cleared.shows in
    (printed.shows, λ j h. printed.outside.buffer_eq j h ∙ cleared.outside.buffer_eq j h)
