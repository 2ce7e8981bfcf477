-- ===== src/Client/Window.antt =====
-- What the client draws: a call of curses on a window is a value, in the order of the calls.
use diald_top.Base.{
  ℕ, zero, suc, ◌/◌, if◌then◌else◌, Option, none, some, List, ℤ, pos, negsuc, ltb, length,
}

-- On the whole screen `full`: `wmove` and `wclrtoeol`, and `mvwprintw` at a row and a column. On the
-- window `sub` below the headers: `werase`, and `mvwprintw`.
pub data Draw : Type 0 where
  clears : ℕ → Draw
  prints : (row : ℕ) → (column : ℤ) → List ℕ → Draw
  erases_sub : Draw
  prints_sub : (row column : ℕ) → List ℕ → Draw

-- A text that is written with its NUL to a buffer of this size; `none` where it does not fit.
unfoldable pub fits : ℕ → Option (List ℕ) → Option (List ℕ)
fits size none = none
fits size (some text) = if ltb (length text) size then some text else none

-- `n / 2` on an int, which rounds to 0.
unfoldable pub half : ℤ → ℤ
half (pos n) = pos (n / 2)
half (negsuc zero) = pos 0
half (negsuc (suc n)) = negsuc (n / 2)

-- `a - b` on an int
abbrev pub int_minus : ℕ → ℕ → ℤ
int_minus a zero = pos a
int_minus zero (suc b) = negsuc b
int_minus (suc a) (suc b) = int_minus a b
