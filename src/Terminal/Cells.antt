-- ===== src/Terminal/Cells.antt =====
-- The cells of the screen in video memory.
use os_c.Prelude.{ℕ, ◌+◌, ◌*◌, ◌<◌, ◌≡◌, refl, ◌==◌, if◌then◌else◌, arith}
use os_c.Terminal.{Terminal, lines, line_length, cell_index, write}

-- the screen is the one that `init_terminal` sets up
pub record IsSized (t : Terminal) : Type 0 where
  pub col_max_eq : t.col_max ≡ lines
  pub row_max_eq : t.row_max ≡ line_length

-- and the cursor is on it
pub record IsValid (t : Terminal) : Type 0 where
  pub sized : IsSized t
  pub col_lt : t.col < lines
  pub row_lt : t.row < line_length

abbrev pub screen_size : ℕ
screen_size = 2000

-- No address of a cell wraps.
pub cell_index_lem :
    {t : Terminal} (x y : ℕ)
    → IsSized t
    → x < line_length
    → y < lines
    → cell_index t x y ≡ x + y * line_length
cell_index_lem {t} x y s hx hy = rw s.row_max_eq (omega arith)

pub write_lem : (b : ℕ → ℕ) (i c j : ℕ) → write b i c j ≡ (if j == i then c else b j)
unfolding write
write_lem b i c j = refl
