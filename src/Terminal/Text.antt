-- ===== src/Terminal/Text.antt =====
-- Whole texts, and tabs: what is printed is typed on the sheet.
use os_c.Prelude.{
  ℕ, zero, suc, ◌+◌, ◌-◌, ◌*◌, ◌/◌, ◌%◌, ◌<◌, ◌≡◌, false, ◌∙◌, ◌==◌, ltb, leb, ◌&&◌, if◌then◌else◌,
  arith, add64, List, [], ◌∷◌, Bool-cases, inl, inr,
}
use os_c.Terminal.{
  Terminal, line_length, newline, blank, terminal_put_char, terminal_print_char, print_text,
  make_vga_char, put_spaces, print_tab, print_string,
}
use os_c.Terminal.Screen.{
  Shows, Outside, Outside-refl, Outside-trans, print_newline-Shows, print_newline-Outside,
}
use os_c.Terminal.Mark.{terminal_put_char-Shows, terminal_put_char-Outside}
use os_c.Terminal.Sheet.{Sheet, mark, put, type_char, type_text, tab_stop}

-- What holds of a step that shows `s` before and `s'` after.
pub record Prints (t u : Terminal) (s' : Sheet) : Type 0 where
  pub shows : Shows u s'
  pub outside : Outside t u

pub Prints-trans :
    {t u v : Terminal} {s' s'' : Sheet} → Prints t u s' → Prints u v s'' → Prints t v s''
Prints-trans p q = record { shows = q.shows; outside = Outside-trans p.outside q.outside }

-- `terminal_print_char` types one character.
pub terminal_print_char-Prints :
    {t : Terminal} {s : Sheet} (c : ℕ)
    → Shows t s
    → Prints t (terminal_print_char c t) (type_char t.default_color c s)
unfolding terminal_print_char type_char
terminal_print_char-Prints {t} {s} c w = elim (Bool-cases (c == newline)) [
  | inl e ↦ rw e (record { shows = print_newline-Shows w; outside = print_newline-Outside w.valid })
  | inr e ↦ rw e (record {
    shows = terminal_put_char-Shows _ w;
    outside = terminal_put_char-Outside _ w.valid;
  })
]

-- If the screen shows the window of an endless sheet, then after `print_text` it shows the window
-- of the sheet on which the text has been typed in the terminal's colour (line breaks, wrapping and
-- scrolling included); the cursor is on the screen, and the colours and the memory outside of the
-- screen are as before.
pub print_text-Prints :
    (text : List ℕ) (color : ℕ) {t : Terminal} {s : Sheet}
    → t.default_color ≡ color
    → Shows t s
    → Prints t (print_text text t) (type_text color text s)
unfolding print_text type_text terminal_print_char
print_text-Prints [] color {t} e w = record { shows = w; outside = Outside-refl t }
print_text-Prints (c ∷ text) color {t} {s} e w =
    let one : Prints t (terminal_print_char c t) (type_char color c s) =
      rw (← e) (terminal_print_char-Prints c w) in
    Prints-trans one (
      print_text-Prints text color {t = terminal_print_char c t} (one.outside.default_eq ∙ e)
        one.shows)

-- the marks of `print_string`, which obeys no newline
pub put_text : ℕ → List ℕ → Sheet → Sheet
put_text color [] s = s
put_text color (c ∷ text) s = put_text color text (put (make_vga_char c color) s)

-- If the screen shows the window of a sheet, then after `print_string` it shows that of the sheet
-- with each character of the string put on it, where a newline is put as a character and breaks no
-- line; the rest of memory is as before.
pub print_string-Prints :
    (text : List ℕ) (color : ℕ) {t : Terminal} {s : Sheet}
    → t.default_color ≡ color
    → Shows t s
    → Prints t (print_string text t) (put_text color text s)
unfolding print_string put_text
print_string-Prints [] color {t} e w = record { shows = w; outside = Outside-refl t }
print_string-Prints (c ∷ text) color {t} {s} e w =
    let one : Prints t (terminal_put_char (make_vga_char c t.default_color) t)
        (put (make_vga_char c color) s) =
      rw (← e) (record {
        shows = terminal_put_char-Shows _ w;
        outside = terminal_put_char-Outside _ w.valid;
      }) in
    Prints-trans one (
      print_string-Prints text color {t = terminal_put_char (make_vga_char c t.default_color) t}
        (one.outside.default_eq ∙ e) one.shows)

-- `n` blanks on the sheet, within the line
blanks : ℕ → ℕ → Sheet → Sheet
blanks zero c s = s
blanks (suc n) c s = blanks n c (put c s)

put_spaces-Prints :
    (n c : ℕ) {t : Terminal} {s : Sheet} → Shows t s → Prints t (put_spaces n c t) (blanks n c s)
unfolding put_spaces blanks
put_spaces-Prints zero c {t} w = record { shows = w; outside = Outside-refl t }
put_spaces-Prints (suc n) c {t} {s} w =
    let one : Prints t (terminal_put_char c t) (put c s) = record {
      shows = terminal_put_char-Shows c w;
      outside = terminal_put_char-Outside c w.valid;
    } in
    Prints-trans one (put_spaces-Prints n c {t = terminal_put_char c t} one.shows)

-- On a line with room, `n` blanks move the place on and mark the places between.
blanks_lem :
    (n c l x : ℕ) (s : Sheet)
    → s.place + n < line_length
    → ((blanks n c s).place ≡ s.place + n)
      × ((blanks n c s).line ≡ s.line)
      × ((blanks n c s).top ≡ s.top)
      × ((blanks n c s).ink l x
          ≡ (if (l == s.line) && leb s.place x && ltb x (s.place + n) then c else s.ink l x))
unfolding blanks put mark
blanks_lem zero c l x s h = ground arith
blanks_lem (suc n) c l x s h = ground (arith, blanks_lem n c l x (put c s))

-- sheets that agree are shown alike
abbrev Agrees : Sheet → Sheet → Type 0
Agrees s s' =
    (s.place ≡ s'.place)
    × (s.line ≡ s'.line)
    × (s.top ≡ s'.top)
    × ((l x : ℕ) → s.ink l x ≡ s'.ink l x)

Shows-Agrees : {t : Terminal} {s s' : Sheet} → Shows t s → Agrees s s' → Shows t s'
Shows-Agrees {s} {s'} w (p, l, tp, k) = record {
  valid = w.valid;
  place_eq = omega (arith, w.place_eq);
  line_eq = omega (arith, w.line_eq);
  cells = λ x y hx hy. ground (arith, w.cells x y hx hy, k (s.top + y) x);
  below = λ n x h hx. ground (arith, w.below n x, k n x);
}

-- If the screen shows the window of a sheet, then after `print_tab` it shows that of the sheet with
-- blanks up to the next multiple of four, or with a line break if that is the end of the line; the
-- rest of memory is as before.
pub print_tab-Prints :
    {t : Terminal} {s : Sheet} → Shows t s → Prints t (print_tab t) (tab_stop (blank t) s)
unfolding print_tab tab_stop
print_tab-Prints {t} {s} w = elim (Bool-cases (leb line_length (t.row / 4 * 4 + 4))) [
  | inl e ↦
      rw (same_sum, w.place_eq, e)
        (record { shows = print_newline-Shows w; outside = print_newline-Outside w.valid })
  | inr e ↦ rw (same_sum, w.place_eq, e) (filled (room_left e))
]
  where
    n : ℕ
    n = 4 - t.row % 4

    room_left : leb line_length (t.row / 4 * 4 + 4) ≡ false → t.row / 4 * 4 + 4 < line_length
    room_left e = ground arith

    filled :
        t.row / 4 * 4 + 4 < line_length
        → Prints t (put_spaces n (blank t) t) (record s {
          place = t.row / 4 * 4 + 4;
          ink = λ l x.
              if (l == s.line) && leb t.row x && ltb x (t.row / 4 * 4 + 4)
              then blank t
              else s.ink l x;
        })
    filled room =
        let p = put_spaces-Prints n (blank t) w in
        let at = λ (l x : ℕ). blanks_lem n (blank t) l x s (omega (arith, w.place_eq)) in
        record {
          shows = Shows-Agrees p.shows (
            omega (arith, at 0 0, w.place_eq),
            omega (arith, at 0 0),
            omega (arith, at 0 0),
            λ l x. ground (arith, at l x, w.place_eq),
          );
          outside = p.outside;
        }

    same_sum : add64 (4 - t.row % 4) t.row ≡ t.row / 4 * 4 + 4
    same_sum = omega (arith, w.valid.row_lt)
