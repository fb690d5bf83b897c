-- ===== src/Terminal/Mark.antt =====
-- A character that is put on the screen, against a mark on the sheet.
use os_c.Prelude.{ℕ, ◌+◌, ◌*◌, ◌<◌, ◌≡◌, refl, arith}
use native.Mathlib.Decide.{dec_lt}
use os_c.Terminal.{
  Terminal, line_length, cell_index, terminal_put_char_at, print_newline, terminal_put_char,
}
use os_c.Terminal.Cells.{IsValid, cell_index_lem, write_lem}
use os_c.Terminal.Sheet.{Sheet, next_line, mark, put}
use os_c.Terminal.Screen.{Shows, Outside, Outside-trans, print_newline-Shows, print_newline-Outside}

-- the terminal with the character put and the cursor moved on, at the end of the line to its start
marked : ℕ → Terminal → ℕ → Terminal
marked c t place = record (terminal_put_char_at c t.row t.col t) { row = place }

terminal_put_char-ends :
    (c : ℕ) (t : Terminal)
    → IsValid t
    → t.row ≡ 79
    → terminal_put_char c t ≡ print_newline (marked c t 0)
unfolding terminal_put_char marked terminal_put_char_at
terminal_put_char-ends c t v e = ground (arith, v.sized.row_max_eq)

terminal_put_char-goes_on :
    (c : ℕ) (t : Terminal) → IsValid t → t.row < 79 → terminal_put_char c t ≡ marked c t (t.row + 1)
unfolding terminal_put_char marked terminal_put_char_at
terminal_put_char-goes_on c t v h = ground (arith, v.sized.row_max_eq)

-- the sheet with the same mark
marked_sheet : ℕ → Sheet → ℕ → Sheet
marked_sheet c s place = record s { place = place; ink = mark s.ink s.line s.place c }

marked-Shows :
    {t : Terminal} {s : Sheet} (c place : ℕ)
    → Shows t s
    → place < line_length
    → Shows (marked c t place) (marked_sheet c s place)
unfolding marked marked_sheet terminal_put_char_at mark
marked-Shows {t} {s} c place w h = record {
  valid = record {
    sized = record { col_max_eq = w.valid.sized.col_max_eq; row_max_eq = w.valid.sized.row_max_eq };
    col_lt = w.valid.col_lt;
    row_lt = h;
  };
  place_eq = refl;
  line_eq = w.line_eq;
  cells = λ x y hx hy. ground (
    arith,
    w.line_eq,
    w.place_eq,
    w.cells x y hx hy,
    w.valid.row_lt,
    w.valid.col_lt,
    cell_index_lem t.row t.col w.valid.sized,
    write_lem t.buffer (cell_index t t.row t.col) c (x + y * line_length),
  );
  below = λ l x p hx. ground (arith, w.below l x);
}

marked-IsValid : {t : Terminal} (c : ℕ) → IsValid t → IsValid (marked c t 0)
unfolding marked terminal_put_char_at
marked-IsValid c v = record {
  sized = record { col_max_eq = v.sized.col_max_eq; row_max_eq = v.sized.row_max_eq };
  col_lt = v.col_lt;
  row_lt = omega arith;
}

marked-Outside : {t : Terminal} (c place : ℕ) → IsValid t → Outside t (marked c t place)
unfolding marked terminal_put_char_at
marked-Outside {t} c place v = record {
  default_eq = refl;
  color_eq = refl;
  buffer_eq = λ j h. ground (
    arith,
    v.row_lt,
    v.col_lt,
    cell_index_lem t.row t.col v.sized,
    write_lem t.buffer (cell_index t t.row t.col) c j,
  );
}

put-goes_on :
    (c place : ℕ) (s : Sheet)
    → s.place < 79
    → s.place + 1 ≡ place
    → put c s ≡ marked_sheet c s place
unfolding put marked_sheet
put-goes_on c place s h e = ground arith

put-ends : (c : ℕ) (s : Sheet) → s.place ≡ 79 → put c s ≡ next_line (marked_sheet c s 0)
unfolding put marked_sheet
put-ends c s e = ground arith

-- A character on the screen is one on the sheet.
pub terminal_put_char-Shows :
    {t : Terminal} {s : Sheet} (c : ℕ) → Shows t s → Shows (terminal_put_char c t) (put c s)
terminal_put_char-Shows {t} {s} c w = elim (dec_lt t.row 79) [
  | yes p ↦
      rw
        (
          terminal_put_char-goes_on c t w.valid p,
          put-goes_on c (t.row + 1) s (omega (arith, w.place_eq)) (omega (arith, w.place_eq)),
        )
        (marked-Shows c (t.row + 1) w (omega arith))
  | no p ↦
      rw
        (
          terminal_put_char-ends c t w.valid (omega (arith, w.valid.row_lt)),
          put-ends c s (omega (arith, w.place_eq, w.valid.row_lt)),
        )
        (print_newline-Shows (marked-Shows c 0 w (omega arith)))
]

pub terminal_put_char-Outside :
    {t : Terminal} (c : ℕ) → IsValid t → Outside t (terminal_put_char c t)
terminal_put_char-Outside {t} c v = elim (dec_lt t.row 79) [
  | yes p ↦ rw (terminal_put_char-goes_on c t v p) (marked-Outside c (t.row + 1) v)
  | no p ↦
      rw (terminal_put_char-ends c t v (omega (arith, v.row_lt)))
        (Outside-trans (marked-Outside c 0 v) (print_newline-Outside (marked-IsValid c v)))
]
