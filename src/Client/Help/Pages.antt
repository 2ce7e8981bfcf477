-- ===== src/Client/Help/Pages.antt =====
-- Which terminals the help screen fits.
use diald_top.Base.{
  ℕ, ◌-◌, ◌≡◌, Bool, true, not, ◌&&◌, arith, inl, inr, Bool-cases, List, [], ◌∷◌, ltb, leb, ◌==◌,
}
use diald_top.Client.Screen.{head_lines}
use diald_top.Client.Window.{Draw, clears, prints, erases_sub, prints_sub}
use diald_top.Client.Help.{helpscreen, print_help, show_help_commands}

-- Each line is on one of the rows of the window, which has so many.
abbrev pub inside : (rows : ℕ) → List Draw → Bool
inside rows [] = true
inside rows (prints_sub row column line ∷ draws) = ltb row rows && inside rows draws
inside rows (erases_sub ∷ draws) = inside rows draws
inside rows (prints row column line ∷ draws) = inside rows draws
inside rows (clears row ∷ draws) = inside rows draws

abbrev pub all_inside : (rows : ℕ) → List (List Draw) → Bool
all_inside rows [] = true
all_inside rows (page ∷ pages) = inside rows page && all_inside rows pages

-- Every line of the help screen is in the window exactly when the window has twelve rows or more,
-- but not seventeen: then it is one page, of which the last line is below the window.
helpscreen-inside :
    (lines : ℕ)
    → all_inside (lines - head_lines) (helpscreen lines)
      ≡ (leb 12 (lines - head_lines) && not (lines - head_lines == 17))
unfolding helpscreen print_help show_help_commands
helpscreen-inside lines = elim (Bool-cases (leb 17 (lines - head_lines))) [
  | inl one ↦ rw (one, helpscreen) ground arith
  | inr two ↦ rw (two, helpscreen) ground arith
]
