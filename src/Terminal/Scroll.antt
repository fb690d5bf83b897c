-- ===== src/Terminal/Scroll.antt =====
-- `scroll_terminal` and `clear_terminal`, cell by cell.
use os_c.Prelude.{
  ℕ, zero, suc, ◌+◌, ◌/◌, ◌%◌, ◌≤◌, ◌<◌, ◌≡◌, ◌==◌, ltb, leb, ◌&&◌, if◌then◌else◌, arith, sub64,
}
use os_c.Terminal.{
  Terminal, lines, line_length, cell_index, write, blank, terminal_put_char_at, scroll_place,
  scroll_places, blank_last, scroll_terminal, clear_place, clear_places, clear_terminal,
}
use os_c.Terminal.Cells.{IsSized, cell_index_lem, write_lem}

-- All but the buffer is left alone.
pub record Keeps (t u : Terminal) : Type 0 where
  pub col_eq : u.col ≡ t.col
  pub row_eq : u.row ≡ t.row
  pub default_eq : u.default_color ≡ t.default_color
  pub color_eq : u.color ≡ t.color
  pub col_max_eq : u.col_max ≡ t.col_max
  pub row_max_eq : u.row_max ≡ t.row_max

Keeps-trans : {t u v : Terminal} → Keeps t u → Keeps u v → Keeps t v
Keeps-trans p q = omega arith

scroll_place-Keeps : (n y x : ℕ) (t : Terminal) → Keeps t (scroll_place n y x t)
unfolding scroll_place
scroll_place-Keeps zero y x t = omega arith
scroll_place-Keeps (suc n) y x t = omega (
  arith,
  scroll_place-Keeps n (y + 1) x
      (record t { buffer = write t.buffer (cell_index t x y) (t.buffer (cell_index t x (1 + y))) }),
)

scroll_place_lem :
    (n y x : ℕ) (t : Terminal) (j : ℕ)
    → IsSized t
    → x < line_length
    → y + n < lines
    → (scroll_place n y x t).buffer j ≡ (
        if (j % line_length == x) && leb y (j / line_length) && ltb (j / line_length) (y + n)
        then t.buffer (j + line_length)
        else t.buffer j)
unfolding scroll_place
scroll_place_lem zero y x t j s hx hy = ground arith
scroll_place_lem (suc n) y x t j s hx hy =
    let t' : Terminal = record t {
      buffer = write t.buffer (cell_index t x y) (t.buffer (cell_index t x (1 + y)));
    } in
    let s' : IsSized t' = record { col_max_eq = s.col_max_eq; row_max_eq = s.row_max_eq } in
    ground (
      arith,
      scroll_place_lem n (y + 1) x t' j s' hx,
      cell_index_lem x y s hx,
      cell_index_lem x (1 + y) s hx,
      write_lem t.buffer (cell_index t x y) (t.buffer (cell_index t x (1 + y))) j,
      write_lem t.buffer (cell_index t x y) (t.buffer (cell_index t x (1 + y))) (j + line_length),
    )

scroll_places-Keeps : (n x : ℕ) (t : Terminal) → Keeps t (scroll_places n x t)
unfolding scroll_places
scroll_places-Keeps zero x t = omega arith
scroll_places-Keeps (suc n) x t =
    Keeps-trans (scroll_place-Keeps (sub64 t.col_max 1) 0 x t)
      (scroll_places-Keeps n (x + 1) (scroll_place (sub64 t.col_max 1) 0 x t))

IsSized-Keeps : {t u : Terminal} → Keeps t u → IsSized t → IsSized u
IsSized-Keeps k s = omega arith

scroll_places_lem :
    (n x : ℕ) (t : Terminal) (j : ℕ)
    → IsSized t
    → x + n ≤ line_length
    → (scroll_places n x t).buffer j ≡ (
        if leb x (j % line_length) && ltb (j % line_length) (x + n) && ltb (j / line_length) 24
        then t.buffer (j + line_length)
        else t.buffer j)
unfolding scroll_places
scroll_places_lem zero x t j s h = ground arith
scroll_places_lem (suc n) x t j s h =
    let m : sub64 t.col_max 1 ≡ 24 = rw s.col_max_eq in
    let t' = scroll_place (sub64 t.col_max 1) 0 x t in
    let one : (i : ℕ)
        → t'.buffer i ≡ (
            if (i % line_length == x)
              && leb 0 (i / line_length)
              && ltb (i / line_length) (0 + sub64 t.col_max 1)
            then t.buffer (i + line_length)
            else t.buffer i) =
      λ i. scroll_place_lem (sub64 t.col_max 1) 0 x t i s (omega arith) (omega arith) in
    ground (
      arith,
      m,
      scroll_places_lem n (x + 1) t' j
          (IsSized-Keeps (scroll_place-Keeps (sub64 t.col_max 1) 0 x t) s),
      one j,
      one (j + line_length),
    )

blank_last-Keeps : (n x : ℕ) (t : Terminal) → Keeps t (blank_last n x t)
unfolding blank_last terminal_put_char_at
blank_last-Keeps zero x t = omega arith
blank_last-Keeps (suc n) x t =
    omega
      (arith, blank_last-Keeps n (x + 1) (terminal_put_char_at (blank t) x (sub64 t.col_max 1) t))

blank_last_lem :
    (n x : ℕ) (t : Terminal) (j : ℕ)
    → IsSized t
    → x + n ≤ line_length
    → (blank_last n x t).buffer j ≡ (
        if leb x (j % line_length) && ltb (j % line_length) (x + n) && (j / line_length == 24)
        then blank t
        else t.buffer j)
unfolding blank_last terminal_put_char_at
blank_last_lem zero x t j s h = ground arith
blank_last_lem (suc n) x t j s h =
    let m : sub64 t.col_max 1 ≡ 24 = rw s.col_max_eq in
    let t' = terminal_put_char_at (blank t) x (sub64 t.col_max 1) t in
    let s' : IsSized t' = record { col_max_eq = s.col_max_eq; row_max_eq = s.row_max_eq } in
    ground (
      arith,
      m,
      blank_last_lem n (x + 1) t' j s',
      cell_index_lem x (sub64 t.col_max 1) s,
      write_lem t.buffer (cell_index t x (sub64 t.col_max 1)) (blank t) j,
    )

-- On a terminal of 25 lines of 80, `scroll_terminal` moves every line up by one, blanks the last
-- line, and leaves the memory behind the screen as it was.
pub scroll_terminal_lem :
    (t : Terminal) (j : ℕ)
    → IsSized t
    → (scroll_terminal t).buffer j ≡ (
        if ltb j 1920
        then t.buffer (j + line_length)
        else if ltb j 2000
        then blank t
        else t.buffer j)
unfolding scroll_terminal
scroll_terminal_lem t j s =
    let moved = scroll_places t.row_max 0 t in
    let k = scroll_places-Keeps t.row_max 0 t in
    ground (
      arith,
      s.row_max_eq,
      k.row_max_eq,
      k.default_eq,
      blank_last_lem moved.row_max 0 moved j (IsSized-Keeps k s),
      scroll_places_lem t.row_max 0 t j s,
    )

pub scroll_terminal-Keeps : (t : Terminal) → Keeps t (scroll_terminal t)
unfolding scroll_terminal
scroll_terminal-Keeps t =
    let moved = scroll_places t.row_max 0 t in
    Keeps-trans (scroll_places-Keeps t.row_max 0 t) (blank_last-Keeps moved.row_max 0 moved)

clear_place-Keeps : (n y x : ℕ) (t : Terminal) → Keeps t (clear_place n y x t)
unfolding clear_place terminal_put_char_at
clear_place-Keeps zero y x t = omega arith
clear_place-Keeps (suc n) y x t =
    omega (arith, clear_place-Keeps n (y + 1) x (terminal_put_char_at (blank t) x y t))

clear_place_lem :
    (n y x : ℕ) (t : Terminal) (j : ℕ)
    → IsSized t
    → x < line_length
    → y + n ≤ lines
    → (clear_place n y x t).buffer j ≡ (
        if (j % line_length == x) && leb y (j / line_length) && ltb (j / line_length) (y + n)
        then blank t
        else t.buffer j)
unfolding clear_place terminal_put_char_at
clear_place_lem zero y x t j s hx hy = ground arith
clear_place_lem (suc n) y x t j s hx hy =
    let t' = terminal_put_char_at (blank t) x y t in
    let s' : IsSized t' = record { col_max_eq = s.col_max_eq; row_max_eq = s.row_max_eq } in
    ground (
      arith,
      clear_place_lem n (y + 1) x t' j s' hx,
      cell_index_lem x y s hx,
      write_lem t.buffer (cell_index t x y) (blank t) j,
    )

clear_places-Keeps : (n x : ℕ) (t : Terminal) → Keeps t (clear_places n x t)
unfolding clear_places
clear_places-Keeps zero x t = omega arith
clear_places-Keeps (suc n) x t =
    Keeps-trans (clear_place-Keeps t.col_max 0 x t)
      (clear_places-Keeps n (x + 1) (clear_place t.col_max 0 x t))

clear_places_lem :
    (n x : ℕ) (t : Terminal) (j : ℕ)
    → IsSized t
    → x + n ≤ line_length
    → (clear_places n x t).buffer j ≡ (
        if leb x (j % line_length) && ltb (j % line_length) (x + n) && ltb (j / line_length) lines
        then blank t
        else t.buffer j)
unfolding clear_places
clear_places_lem zero x t j s h = ground arith
clear_places_lem (suc n) x t j s h =
    let t' = clear_place t.col_max 0 x t in
    let k = clear_place-Keeps t.col_max 0 x t in
    ground (
      arith,
      s.col_max_eq,
      k.default_eq,
      clear_places_lem n (x + 1) t' j (IsSized-Keeps k s),
      clear_place_lem t.col_max 0 x t j s,
    )

-- `clear_terminal` blanks the screen, and touches no other memory and no other field.
pub clear_terminal_lem :
    (t : Terminal) (j : ℕ)
    → IsSized t
    → (clear_terminal t).buffer j ≡ (if ltb j 2000 then blank t else t.buffer j)
unfolding clear_terminal
clear_terminal_lem t j s = ground (arith, s.row_max_eq, clear_places_lem t.row_max 0 t j s)

pub clear_terminal-Keeps : (t : Terminal) → Keeps t (clear_terminal t)
unfolding clear_terminal
clear_terminal-Keeps t = clear_places-Keeps t.row_max 0 t
