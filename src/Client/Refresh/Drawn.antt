-- ===== src/Client/Refresh/Drawn.antt =====
-- What read_fifo leaves on the screen.
use diald_top.Base.{
  ℕ, suc, ◌<◌, ◌≤◌, ◌≡◌, refl, true, false, arith, if◌then◌else◌, some, List, [], ◌∷◌, ◌++◌, inl,
  inr, ◌⊎◌, Bool-cases, pos, length,
}
use diald_top.Client.Window.{Draw, clears, prints, erases_sub}
use diald_top.Client.Screen.Buffers.{Ready}
use diald_top.Client.Screen.Resize.{do_screen_resize_lem, do_screen_resize-Resized}
use diald_top.Client.Rows.{ip_width}
use diald_top.Client.Status.{do_state, line_state}
use diald_top.Client.Rows.Parts.{flat}
use diald_top.Client.Status.Lines.{do_state_lem, status_parts, queued_parts}
use diald_top.Client.Titles.{titles}
use diald_top.Client.Titles.Widths.{titles-IsHeaders}
use diald_top.Client.Refresh.{View, Parser, parse_rounds, Terminal, resize, redraw, read_fifo}
use diald_top.Client.Refresh.Below.{Shown, rows_of, rows_of-Shown}

-- The buffers are ready, and the texts and numbers within what C has room for.
pub record Good (v : View) : Type 0 where
  pub ready : Ready v.screen
  pub lines : v.screen.lines < 255
  pub cols : (33 ≤ v.screen.cols) × (v.screen.cols < 2_147_483_648)
  pub count : v.screen.count < 2_147_483_648
  pub state : length v.curr_state < 232
  pub revision : length v.revision ≤ 16

pub redraw-Shown :
    (v : View)
    → Good v
    → (state : List Draw) × (rows : List Draw) × (redraw v ≡ some (v, state ++ erases_sub ∷ rows))
      × (do_state v.screen.cols v.screen.count v.curr_state ≡ some (v.curr_state, state))
      × Shown v rows
unfolding redraw rows_of
redraw-Shown v g =
    let (rows, run, shown) = rows_of-Shown v g.ready in
    elim (do_state_lem v.screen.cols v.screen.count v.curr_state g.cols.0 g.cols.1 g.count) [
      | inr (long, _) ↦ absurd (omega (arith, g.state, long))
      | inl (_, (column, drawn, _, _)) ↦ (
        clears line_state
            ∷ prints line_state (pos 0) (flat (status_parts v.curr_state))
            ∷ prints line_state (pos column) (flat (queued_parts v.screen.count))
            ∷ [],
        rows,
        rw (drawn, run, redraw) refl,
        drawn,
        shown,
      )
    ]

-- A terminal of this size has buffers that fit it, and may be drawn on.
pub record Fits (w : Terminal) : Type 0 where
  pub sized : (i : ℕ) → length (w.fresh i) ≡ suc w.cols
  pub lines : w.lines < 255
  pub cols : (61 ≤ w.cols) × (w.cols < 2_147_483_648)

-- The view after a change of size, and the first lines that are printed then.
record Resizes (w : Terminal) (v u : View) (first : List Draw) : Type 0 where
  run : resize w v ≡ some (u, first)
  printed : titles w.cols v.revision ≡ some first
  good : Good u
  off : u.resize_event_p ≡ false
  state : u.curr_state ≡ []
  format : u.format ≡ v.format
  size : u.screen.cols ≡ w.cols

resize-Good :
    (w : Terminal) (v : View)
    → Fits w
    → Good v
    → (u : View) × (first : List Draw) × Resizes w v u first
unfolding resize
resize-Good w v f g = elim (do_screen_resize_lem w.lines w.cols w.fresh v.screen f.sized g.ready) [
  | inl (tall, _) ↦ absurd (omega (arith, g.lines, tall))
  | inr (_, (t, run, ready)) ↦
      let k = do_screen_resize-Resized w.lines w.cols w.fresh v.screen t run in
      let (a, b, c, d, first, _, _, _, _, _) =
        titles-IsHeaders w.cols v.revision f.cols.0 (omega (arith, f.cols, g.revision)) f.cols.1 in
      (
        record v {
          screen = t;
          ip_width = ip_width w.cols;
          curr_state = [];
          resize_event_p = false;
        },
        _,
        record {
          run = rw (run, first, resize) refl;
          printed = first;
          good = record {
            ready = ready;
            lines = omega (arith, k.lines, f.lines);
            cols = (omega (arith, k.cols, f.cols.0), omega (arith, k.cols, f.cols.1));
            count = omega (arith, k.count, g.count);
            state = omega arith;
            revision = g.revision;
          };
          off = refl;
          state = refl;
          format = refl;
          size = k.cols;
        },
      )
]

-- The view before the rest is drawn.
pub resized-Good :
    (w : Terminal) (v : View)
    → Fits w
    → Good v
    → (u : View) × (first : List Draw) × ((if v.resize_event_p then resize w v else some (v, []))
        ≡ some (u, first))
      × ((if v.resize_event_p then titles w.cols v.revision else some []) ≡ some first)
      × Good u
      × (u.resize_event_p ≡ false)
      × (u.curr_state ≡ (if v.resize_event_p then [] else v.curr_state))
      × (u.format ≡ v.format)
      × ((u.screen.cols ≡ w.cols) ⊎ (u.screen.cols ≡ v.screen.cols))
resized-Good w v f g = elim (Bool-cases v.resize_event_p) [
  | inl resized ↦
      let (u, first, r) = resize-Good w v f g in
      (
        u,
        first,
        simp resized r.run,
        simp resized r.printed,
        r.good,
        r.off,
        simp resized r.state,
        r.format,
        inl r.size,
      )
  | inr same ↦ (v, [], simp same refl, simp same refl, g, same, simp same refl, refl, inr refl)
]

-- Whatever the parser, once its rounds have left what fits the bounds, read_fifo returns. At the end of
-- the pipe it returns -1. Else the size of the terminal is taken over if it has changed, with the first
-- lines printed anew, and the screen shows the state of the link, and either that there are no packets
-- or the rows of the buffers, one below the other, as many as are counted and have a buffer; but with
-- a change of size the state of the link is lost.
pub read_fifo-Shown :
    {S : Type 0} (yyparse : Parser S) (w : Terminal) (s : S) (v : View) {s_left : S} {t : View}
    {parsed : List Draw}
    → parse_rounds yyparse 4 s (record v { yacc_eof = false }) ≡ some (s_left, t, parsed)
    → Fits w
    → Good t
    → ((t.yacc_eof ≡ true) × (read_fifo yyparse w s v ≡ some (false, s_left, t, parsed)))
      ⊎ ((t.yacc_eof ≡ false)
          × ((u : View) × (first : List Draw) × (state : List Draw) × (rows : List Draw)
              × (read_fifo yyparse w s v
                  ≡ some (true, s_left, u, parsed ++ (first ++ (state ++ erases_sub ∷ rows))))
              × ((if t.resize_event_p then titles w.cols t.revision else some []) ≡ some first)
              × (do_state u.screen.cols u.screen.count u.curr_state ≡ some (u.curr_state, state))
              × (u.curr_state ≡ (if t.resize_event_p then [] else t.curr_state))
              × (u.resize_event_p ≡ false)
              × Ready u.screen
              × Shown u rows))
unfolding read_fifo
read_fifo-Shown yyparse w s v {s_left} {t} {parsed} ran f good = elim (Bool-cases t.yacc_eof) [
  | inl eof ↦ inl (eof, simp (ran, eof, read_fifo) refl)
  | inr more ↦
      let (u, first, run, printed, ok, off, state, _, _) = resized-Good w t f good in
      let (status, rows, redrawn, at, shown) = redraw-Shown u ok in
      inr (
        more,
        (
          u,
          first,
          status,
          rows,
          simp (ran, more, run, redrawn, read_fifo) refl,
          printed,
          at,
          state,
          off,
          ok.ready,
          shown,
        ),
      )
]
