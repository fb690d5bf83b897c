-- ===== src/Terminal.antt =====
-- src/terminal.c and src/terminal.h, the screen: the buffer of video memory and the cursor. In the
-- source `row` is the place in a line and `col` the line, and `row_max` is the length of a line.
pub mod Cells
pub mod Init
pub mod Scroll
pub mod Screen
pub mod Mark
pub mod Sheet
pub mod Text
pub mod Tests
use os_c.Prelude.{
  ℕ, zero, suc, ◌+◌, ◌-◌, ◌*◌, ◌%◌, ◌^◌, ltb, leb, ◌==◌, if◌then◌else◌, List, [], ◌∷◌, add64, sub64,
  mul64, u8, u16, bit_or, codes,
}

pub record Terminal : Type 0 where
  pub col : ℕ
  pub row : ℕ
  pub default_color : ℕ
  pub color : ℕ
  pub buffer : ℕ → ℕ
  pub col_max : ℕ
  pub row_max : ℕ

abbrev pub lines : ℕ
lines = 25

abbrev pub line_length : ℕ
line_length = 80

abbrev pub tab_space_num : ℕ
tab_space_num = 4

abbrev pub vga_color_black : ℕ
vga_color_black = 0

abbrev pub vga_color_light_green : ℕ
vga_color_light_green = 10

unfoldable pub make_vga_color : ℕ → ℕ → ℕ
make_vga_color fg bg = u8 (bit_or fg (bg * 2 ^ 4))

-- `uc` is an `unsigned char`, `color` a byte.
unfoldable pub make_vga_char : ℕ → ℕ → ℕ
make_vga_char uc color = u16 (bit_or (u8 uc) (u8 color * 2 ^ 8))

unfoldable pub write : (ℕ → ℕ) → ℕ → ℕ → ℕ → ℕ
write buffer i c j = if j == i then c else buffer j

-- the index of the cell in place `x` of line `y`
abbrev pub cell_index : Terminal → ℕ → ℕ → ℕ
cell_index t x y = add64 x (mul64 y t.row_max)

pub terminal_put_char_at : ℕ → ℕ → ℕ → Terminal → Terminal
terminal_put_char_at c x y t = record t { buffer = write t.buffer (cell_index t x y) c }

abbrev pub blank : Terminal → ℕ
blank t = make_vga_char b' ' t.default_color

-- the inner loop of `clear_terminal`, from line `y` on
clear_place : ℕ → ℕ → ℕ → Terminal → Terminal
clear_place zero y x t = t
clear_place (suc n) y x t = clear_place n (y + 1) x (terminal_put_char_at (blank t) x y t)

clear_places : ℕ → ℕ → Terminal → Terminal
clear_places zero x t = t
clear_places (suc n) x t = clear_places n (x + 1) (clear_place t.col_max 0 x t)

pub clear_terminal : Terminal → Terminal
clear_terminal t = clear_places t.row_max 0 t

-- the inner loop of `scroll_terminal`: the cell of the next line is copied up
scroll_place : ℕ → ℕ → ℕ → Terminal → Terminal
scroll_place zero y x t = t
scroll_place (suc n) y x t =
    scroll_place n (y + 1) x
      (record t { buffer = write t.buffer (cell_index t x y) (t.buffer (cell_index t x (1 + y))) })

scroll_places : ℕ → ℕ → Terminal → Terminal
scroll_places zero x t = t
scroll_places (suc n) x t = scroll_places n (x + 1) (scroll_place (sub64 t.col_max 1) 0 x t)

blank_last : ℕ → ℕ → Terminal → Terminal
blank_last zero x t = t
blank_last (suc n) x t =
    blank_last n (x + 1) (terminal_put_char_at (blank t) x (sub64 t.col_max 1) t)

pub scroll_terminal : Terminal → Terminal
scroll_terminal t = let moved = scroll_places t.row_max 0 t in blank_last moved.row_max 0 moved

pub print_newline : Terminal → Terminal
print_newline t =
    let next = record t { row = 0; col = add64 t.col 1 } in
    if next.col == next.col_max
    then (let up = scroll_terminal next in record up { col = sub64 up.col 1 })
    else next

pub terminal_put_char : ℕ → Terminal → Terminal
terminal_put_char c t =
    let put = terminal_put_char_at c t.row t.col t in
    let next = record put { row = add64 put.row 1 } in
    if next.row == next.row_max then print_newline (record next { row = 0 }) else next

abbrev pub newline : ℕ
newline = b'\n'

pub terminal_print_char : ℕ → Terminal → Terminal
terminal_print_char c t =
    if c == newline then print_newline t else terminal_put_char (make_vga_char c t.default_color) t

-- `text` is what stands before the NUL: `strlen` is its length, and the loop is over its characters.
unfoldable pub print_text : List ℕ → Terminal → Terminal
print_text [] t = t
print_text (c ∷ text) t = print_text text (
    if c == newline then print_newline t else terminal_put_char (make_vga_char c t.default_color) t)

put_spaces : ℕ → ℕ → Terminal → Terminal
put_spaces zero sp t = t
put_spaces (suc n) sp t = put_spaces n sp (terminal_put_char sp t)

pub print_tab : Terminal → Terminal
print_tab t =
    let spaces_needed = tab_space_num - t.row % tab_space_num in
    if leb line_length (add64 spaces_needed t.row)
    then print_newline t
    else put_spaces spaces_needed (blank t) t

-- `while(data[i] != 0) terminal_put_char(…)`: a newline is no line break here.
pub print_string : List ℕ → Terminal → Terminal
print_string [] t = t
print_string (c ∷ text) t =
    print_string text (terminal_put_char (make_vga_char c t.default_color) t)

abbrev pub init_message : List ℕ
init_message = codes "Terminal init completed.\n"

-- `init_terminal` on the video memory as it is found
pub init_terminal : (ℕ → ℕ) → Terminal
init_terminal video =
    let light = make_vga_color vga_color_light_green vga_color_black in
    print_text init_message (
      clear_terminal (record {
        col = 0;
        row = 0;
        default_color = light;
        color = light;
        buffer = video;
        col_max = lines;
        row_max = line_length;
      }))
