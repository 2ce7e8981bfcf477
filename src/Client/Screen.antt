-- ===== src/Client/Screen.antt =====
-- The line buffers of client/screen.c, and what client/parser.c writes to them.
pub mod Buffers
pub mod Resize
pub mod Display
use diald_top.Base.{
  ℕ, zero, suc, ◌+◌, Bool, if◌then◌else◌, Option, none, some, List, [], ◌∷◌, ◌++◌, ltb, leb, ◌==◌,
  set, length, for_while, strncpy,
}

abbrev pub maxbufs : ℕ
maxbufs = 256

abbrev pub head_lines : ℕ
head_lines = 9

-- `LINES` and `cols`, `numbuff`, `scrbuff` with `none` for NULL, and `count`. `LINES` is that of
-- curses, which sets it in initscr.
pub record Screen : Type 0 where
  pub lines : ℕ
  pub cols : ℕ
  pub numbuff : ℕ
  pub scrbuff : ℕ → Option (List ℕ)
  pub count : ℕ

-- `scrbuff[i] = b`
abbrev pub put : ℕ → Option (List ℕ) → (ℕ → Option (List ℕ)) → ℕ → Option (List ℕ)
put i b scr = λ j. if j == i then b else scr j

-- The body of the loop of screen_init; `fresh` is what malloc returns.
abbrev pub allocate : (ℕ → List ℕ) → ℕ → Screen → Screen
allocate fresh i s = record s {
  numbuff = suc i;
  scrbuff = put i (some (set (fresh i) 0 0)) s.scrbuff;
}

-- screen_init, on a terminal of these lines and columns.
unfoldable pub screen_init : ℕ → ℕ → (ℕ → List ℕ) → Screen → Screen
screen_init lines cols fresh s =
    for_while maxbufs 0 (λ t. leb t.numbuff t.lines) (allocate fresh)
      (record s { lines = lines; cols = cols; numbuff = 0 })

-- The loop of do_screen_resize, down from this index; `none` is an access out of bounds.
unfoldable pub release : ℕ → (ℕ → Option (List ℕ)) → Option (ℕ → Option (List ℕ))
release zero scr = some (put zero none scr)
release (suc n) scr =
    let rest = release n (put (suc n) none scr) in if ltb (suc n) maxbufs then rest else none

unfoldable pub do_screen_resize : ℕ → ℕ → (ℕ → List ℕ) → Screen → Option Screen
unfolding release screen_init
do_screen_resize lines cols fresh s = elim (release s.numbuff s.scrbuff) [
  | none ↦ none
  | some scr ↦ some (screen_init lines cols fresh (record s { numbuff = 0; scrbuff = scr }))
]

-- The loop of do_queue, `n` rounds from index `i`; `none` is a NULL.
unfoldable pub blank : (n i : ℕ) → (ℕ → Option (List ℕ)) → Option (ℕ → Option (List ℕ))
blank zero i scr = some scr
blank (suc n) i scr = elim (scr i) [
  | none ↦ none
  | some b ↦ blank n (suc i) (put i (some (set b 0 0)) scr)
]

unfoldable pub do_queue : Screen → Option Screen
unfolding blank
do_queue s = elim (blank s.numbuff 0 s.scrbuff) [
  | none ↦ none
  | some scr ↦ some (record s { scrbuff = scr; count = 0 })
]

-- do_packet with the line that it has printed to `buf`; `none` is an access out of the bounds of
-- `scrbuff` or of the buffer, or of a NULL.
unfoldable pub do_packet : List ℕ → Screen → Option Screen
do_packet buf s =
    if leb (s.count + head_lines) s.lines
    then elim (if ltb s.count maxbufs then s.scrbuff s.count else none) [
      | none ↦ none
      | some b ↦
          if leb s.cols (length b)
          then some (record s {
            scrbuff = put s.count (some (strncpy s.cols b buf)) s.scrbuff;
            count = suc s.count;
          })
          else none
    ]
    else some (record s { count = suc s.count })
