-- ===== src/Client/Titles.antt =====
-- The first lines of the screen, which screen_init of client/screen.c prints, and its strrpt.
pub mod Widths
use diald_top.Base.{
  ℕ, zero, suc, ◌+◌, ◌-◌, ◌/◌, Option, some, ◌>>=◌, List, [], ◌∷◌, ℤ, pos, negsuc, length, codes,
}
use diald_top.Client.Printf.{Arg, text, number, sprintf}
use diald_top.Client.Window.{Draw, prints, fits, int_minus}
use diald_top.Client.Rows.{headers, ip_width}
use diald_top.Client.Status.{size_minus, to_int}

abbrev pub line_copyright : ℕ
line_copyright = 0

abbrev pub line_revision : ℕ
line_revision = 1

abbrev pub line_headers : ℕ
line_headers = 7

abbrev pub line_underline : ℕ
line_underline = 8

-- `if (spcs < 0) spcs = 0;`
abbrev pub clip : ℤ → ℤ
clip (pos n) = pos n
clip (negsuc n) = pos 0

-- The loop of strrpt, for a count that is not negative.
unfoldable pub strrpt : (ch : ℕ) → (count : ℕ) → List ℕ
strrpt ch zero = []
strrpt ch (suc n) = ch ∷ strrpt ch n

abbrev pub copyright_args : List Arg
copyright_args =
    text (codes "DialD Packet statistics program")
    ∷ text []
    ∷ text (codes "(c) 1995-2001 Gavin J. Hurlbut")
    ∷ []

unfoldable pub copyright : (cols : ℕ) → Option (List ℕ)
copyright cols = do
  fmt ← fits 80 (sprintf (codes "%%-s%%%ds%%-s") (number (clip (int_minus cols 61)) ∷ []))
  sprintf fmt copyright_args

abbrev pub revision_args : List ℕ → List Arg
revision_args revision =
    text revision
    ∷ text []
    ∷ text (codes "http://diald-top.sourceforge.net/")
    ∷ text []
    ∷ text (codes "(h) for help")
    ∷ []

-- strlen makes the difference a size_t, and so the division.
unfoldable pub revision_line : (cols : ℕ) → List ℕ → Option (List ℕ)
revision_line cols revision = do
  let spcs = to_int (size_minus cols (45 + length revision) / 2)
  fmt ← fits 80 (sprintf (codes "%%-s%%%ds%%-s%%%ds%%-s") (number spcs ∷ number spcs ∷ []))
  sprintf fmt (revision_args revision)

-- What screen_init prints, on a terminal of at least one column.
unfoldable pub titles : (cols : ℕ) → (revision : List ℕ) → Option (List Draw)
titles cols revision = do
  first ← copyright cols
  second ← revision_line cols revision
  heads ← headers (ip_width cols)
  some (
      prints line_copyright (pos 0) first
      ∷ prints line_revision (pos 0) second
      ∷ prints line_headers (pos 0) heads
      ∷ prints line_underline (pos 0) (strrpt b'=' (cols - 1))
      ∷ [])
