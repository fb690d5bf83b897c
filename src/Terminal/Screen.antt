-- ===== src/Terminal/Screen.antt =====
-- The screen shows the sheet: each operation of the terminal against the one on the sheet.
use os_c.Prelude.{ℕ, ◌+◌, ◌*◌, ◌≤◌, ◌<◌, ◌≡◌, refl, ◌∙◌, arith}
use native.Mathlib.Decide.{dec_lt}
use os_c.Terminal.{Terminal, lines, line_length, blank, scroll_terminal, print_newline}
use os_c.Terminal.Cells.{IsSized, IsValid}
use os_c.Terminal.Scroll.{scroll_terminal_lem, scroll_terminal-Keeps}
use os_c.Terminal.Sheet.{Sheet, next_line}

-- `t` shows the window of `s`, and nothing is written below the line of the cursor.
pub record Shows (t : Terminal) (s : Sheet) : Type 0 where
  pub valid : IsValid t
  pub place_eq : s.place ≡ t.row
  pub line_eq : s.line ≡ s.top + t.col
  pub cells :
      (x y : ℕ) → x < line_length → y < lines → t.buffer (x + y * line_length) ≡ s.ink (s.top + y) x
  pub below : (l x : ℕ) → s.line < l → x < line_length → s.ink l x ≡ blank t

-- All but the cursor and the screen is as it was: the colours, the sizes, and the rest of memory.
pub record Outside (t u : Terminal) : Type 0 where
  pub default_eq : u.default_color ≡ t.default_color
  pub color_eq : u.color ≡ t.color
  pub buffer_eq : (j : ℕ) → 2000 ≤ j → u.buffer j ≡ t.buffer j

pub Outside-refl : (t : Terminal) → Outside t t
Outside-refl t = record { default_eq = refl; color_eq = refl; buffer_eq = λ j h. refl }

pub Outside-trans : {t u v : Terminal} → Outside t u → Outside u v → Outside t v
Outside-trans p q = record {
  default_eq = q.default_eq ∙ p.default_eq;
  color_eq = q.color_eq ∙ p.color_eq;
  buffer_eq = λ j h. q.buffer_eq j h ∙ p.buffer_eq j h;
}

-- the terminal after a line break that scrolls
scrolled : Terminal → Terminal
scrolled t = record (scroll_terminal (record t { row = 0; col = 25 })) { col = 24 }

print_newline-scrolls : (t : Terminal) → IsSized t → t.col ≡ 24 → print_newline t ≡ scrolled t
unfolding print_newline scrolled
print_newline-scrolls t s e =
    ground (arith, s.col_max_eq, (scroll_terminal-Keeps (record t { row = 0; col = 25 })).col_eq)

print_newline-stays :
    (t : Terminal)
    → IsSized t
    → t.col < 24
    → print_newline t ≡ record t { row = 0; col = t.col + 1 }
unfolding print_newline
print_newline-stays t s h = ground (arith, s.col_max_eq)

scrolled-Shows :
    {t : Terminal} {s : Sheet} → Shows t s → t.col ≡ 24 → Shows (scrolled t) (next_line s)
unfolding scrolled next_line
scrolled-Shows {t} {s} w e =
    let v = w.valid in
    let n : Terminal = record t { row = 0; col = 25 } in
    let k = scroll_terminal-Keeps n in
    let s' : IsSized n = record {
      col_max_eq = v.sized.col_max_eq;
      row_max_eq = v.sized.row_max_eq;
    } in
    record {
      valid = record {
        sized = record {
          col_max_eq = k.col_max_eq ∙ v.sized.col_max_eq;
          row_max_eq = k.row_max_eq ∙ v.sized.row_max_eq;
        };
        col_lt = omega arith;
        row_lt = omega (arith, k.row_eq);
      };
      place_eq = omega (arith, k.row_eq);
      line_eq = ground (arith, w.line_eq);
      cells = λ x y hx hy. ground (
        arith,
        w.line_eq,
        scroll_terminal_lem n (x + y * line_length) s',
        w.cells x (y + 1) hx,
        w.below (s.top + 25) x,
      );
      below = λ l x h hx. ground (arith, w.below l x, k.default_eq);
    }

scrolled-Outside : {t : Terminal} → IsValid t → Outside t (scrolled t)
unfolding scrolled
scrolled-Outside {t} v =
    let n : Terminal = record t { row = 0; col = 25 } in
    let k = scroll_terminal-Keeps n in
    let s' : IsSized n = record {
      col_max_eq = v.sized.col_max_eq;
      row_max_eq = v.sized.row_max_eq;
    } in
    record {
      default_eq = k.default_eq;
      color_eq = k.color_eq;
      buffer_eq = λ j h. ground (arith, scroll_terminal_lem n j s');
    }

stays-Shows :
    {t : Terminal} {s : Sheet}
    → Shows t s
    → t.col < 24
    → Shows (record t { row = 0; col = t.col + 1 }) (next_line s)
unfolding next_line
stays-Shows {t} {s} w p = record {
  valid = record {
    sized = record { col_max_eq = w.valid.sized.col_max_eq; row_max_eq = w.valid.sized.row_max_eq };
    col_lt = omega arith;
    row_lt = omega arith;
  };
  place_eq = refl;
  line_eq = ground (arith, w.line_eq);
  cells = λ x y hx hy. ground (arith, w.line_eq, w.cells x y hx hy);
  below = λ l x h hx. ground (arith, w.below l x);
}

-- A line break on the screen is one on the sheet, scrolling included.
pub print_newline-Shows :
    {t : Terminal} {s : Sheet} → Shows t s → Shows (print_newline t) (next_line s)
print_newline-Shows {t} {s} w = elim (dec_lt t.col 24) [
  | yes p ↦ rw (print_newline-stays t w.valid.sized p) (stays-Shows w p)
  | no p ↦
      let e : t.col ≡ 24 = omega (arith, w.valid.col_lt) in
      rw (print_newline-scrolls t w.valid.sized e) (scrolled-Shows w e)
]

pub print_newline-Outside : {t : Terminal} → IsValid t → Outside t (print_newline t)
print_newline-Outside {t} v = elim (dec_lt t.col 24) [
  | yes p ↦
      rw (print_newline-stays t v.sized p)
        (record { default_eq = refl; color_eq = refl; buffer_eq = λ j h. refl })
  | no p ↦ rw (print_newline-scrolls t v.sized (omega (arith, v.col_lt))) (scrolled-Outside v)
]
