-- ===== src/Terminal/Sheet.antt =====
-- What a terminal promises: writing goes on down an endless sheet of lines of 80 places, and the
-- screen shows 25 lines of it, the lowest ones once the writing has got past them.
use os_c.Prelude.{ℕ, ◌+◌, ◌*◌, ◌/◌, List, [], ◌∷◌, ◌==◌, ltb, leb, if◌then◌else◌, ◌&&◌}
use os_c.Terminal.{line_length, newline, make_vga_char}

pub record Sheet : Type 0 where
  pub place : ℕ
  pub line : ℕ
  pub top : ℕ
  pub ink : ℕ → ℕ → ℕ

-- the next line, with the window moved down if it would leave it
unfoldable pub next_line : Sheet → Sheet
next_line s = record {
  place = 0;
  line = s.line + 1;
  top = if leb (s.top + 25) (s.line + 1) then s.top + 1 else s.top;
  ink = s.ink;
}

unfoldable pub mark : (ℕ → ℕ → ℕ) → ℕ → ℕ → ℕ → ℕ → ℕ → ℕ
mark ink l x c l' x' = if (l' == l) && (x' == x) then c else ink l' x'

unfoldable pub put : ℕ → Sheet → Sheet
unfolding next_line mark
put c s =
    let s' = record s { place = s.place + 1; ink = mark s.ink s.line s.place c } in
    if s.place + 1 == line_length then next_line s' else s'

-- a character in the colour `color`, with newlines obeyed
unfoldable pub type_char : ℕ → ℕ → Sheet → Sheet
type_char color c s = if c == newline then next_line s else put (make_vga_char c color) s

unfoldable pub type_text : ℕ → List ℕ → Sheet → Sheet
type_text color [] s = s
type_text color (c ∷ text) s = type_text color text (type_char color c s)

-- Blanks up to the next stop, a multiple of four places; at the end of the line a line break.
unfoldable pub tab_stop : ℕ → Sheet → Sheet
unfolding next_line
tab_stop space s =
    let stop = s.place / 4 * 4 + 4 in
    if leb line_length stop then next_line s else record s {
      place = stop;
      ink = λ l x. if (l == s.line) && leb s.place x && ltb x stop then space else s.ink l x;
    }
