-- ===== src/Client/Refresh.antt =====
-- read_fifo of client/pipe.c: what has come through the pipe is parsed, and the screen is drawn anew.

pub mod Below
pub mod Drawn
use diald_top.Base.{
  ℕ, zero, suc, ◌==◌, Bool, true, false, if◌then◌else◌, Option, none, some, ◌>>=◌, List, [], ◌∷◌,
  ◌++◌, ℤ, ltb, c_str, codes,
}
use diald_top.Client.Window.{Draw, erases_sub, prints_sub}
use diald_top.Client.Screen.{Screen, do_screen_resize}
use diald_top.Client.Rows.{ip_width}
use diald_top.Client.Resolve.{Loads}
use diald_top.Client.Titles.{titles}
use diald_top.Client.Status.{do_state}

-- The globals that read_fifo and the actions of the parser share, and the program's `revision`.
pub record View : Type 0 where
  pub revision : List ℕ
  pub screen : Screen
  pub ip_width : ℤ
  pub format : List ℕ
  pub curr_state : List ℕ
  pub loads : Loads
  pub yacc_key : ℤ
  pub resize_event_p : Bool
  pub yacc_block : Bool
  pub yacc_eof : Bool

-- The parser that yacc generates: what it takes in, of type `S`, the globals, and what it draws.
abbrev pub Parser : Type 0 → Type 0
Parser S = S → View → Option (S × View × List Draw)

-- The loop `do yyparse(); while (!yacc_block && i <= 3)`, with so many rounds left.
unfoldable pub parse_rounds : {S : Type 0} → Parser S → ℕ → Parser S
parse_rounds yyparse zero s v = some (s, v, [])
parse_rounds yyparse (suc n) s v = do
  (t, u, draws) ← yyparse s v
  if u.yacc_block
      then some (t, u, draws)
      else do (t, u, more) ← parse_rounds yyparse n t u; some (t, u, draws ++ more)

-- The handler of SIGWINCH.
unfoldable pub handlesig_winch : View → View
handlesig_winch v = record v { resize_event_p = true }

-- The new size of the terminal, and what malloc returns for the buffers.
pub record Terminal : Type 0 where
  pub lines : ℕ
  pub cols : ℕ
  pub fresh : ℕ → List ℕ

-- do_screen_resize with what its screen_init does to the globals, `format` not among them, and what
-- it prints.
unfoldable pub resize : Terminal → View → Option (View × List Draw)
resize w v = do
  screen ← do_screen_resize w.lines w.cols w.fresh v.screen
  first ← titles w.cols v.revision
  some (
    record v {
      screen = screen;
      ip_width = ip_width w.cols;
      curr_state = [];
      resize_event_p = false;
    },
    first,
  )

-- The loop over the lines of packets, `n` rounds from line `i`; `none` is a NULL.
unfoldable pub draw_rows : (n i : ℕ) → (ℕ → Option (List ℕ)) → Option (List Draw)
draw_rows zero i scr = some []
draw_rows (suc n) i scr = do
  buf ← scr i
  rest ← draw_rows n (suc i) scr
  some (prints_sub i 0 (c_str buf) ∷ rest)

-- `i < numbuff && i < count`
abbrev pub shown_rows : Screen → ℕ
shown_rows s = if ltb s.count s.numbuff then s.count else s.numbuff

unfoldable pub redraw : View → Option (View × List Draw)
redraw v = do
  (curr_state, state) ← do_state v.screen.cols v.screen.count v.curr_state
  rows ←
      if v.screen.count == 0
      then some (prints_sub 0 5 (codes "No packets queued\n") ∷ [])
      else draw_rows (shown_rows v.screen) 0 v.screen.scrbuff
  some (record v { curr_state = curr_state }, state ++ erases_sub ∷ rows)

-- The first result is `false` for -1. `none` is an access out of bounds.
unfoldable pub read_fifo :
    {S : Type 0} → Parser S → Terminal → S → View → Option (Bool × S × View × List Draw)
read_fifo yyparse w s v = do
  (s, t, parsed) ← parse_rounds yyparse 4 s (record v { yacc_eof = false })
  if t.yacc_eof then some (false, s, t, parsed) else do
    (u, first) ← if t.resize_event_p then resize w t else some (t, [])
    (u, draws) ← redraw u
    some (true, s, u, parsed ++ (first ++ draws))
