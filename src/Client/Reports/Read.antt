-- ===== src/Client/Reports/Read.antt =====
-- read_fifo with the parser: what diald has reported is what the screen shows.
use diald_top.Base.{
  ℕ, zero, suc, ◌+◌, ◌<◌, ◌≤◌, ◌≡◌, refl, sym, ap, ◌∙◌, true, false, arith, Bool-cases, Option,
  some, List, [], ◌∷◌, ◌++◌, inl, inr, ◌⊎◌, All, get_elem?, length, codes, c_str,
}
use diald_top.Client.Window.{Draw, prints_sub, erases_sub}
use diald_top.Client.Screen.{head_lines}
use diald_top.Client.Rows.{Packet}
use diald_top.Client.Rows.Columns.{IsRow}
use diald_top.Client.Status.{do_state}
use diald_top.Client.Refresh.{View, Terminal, shown_rows, read_fifo}
use diald_top.Client.Refresh.Below.{RowsOf, Shown}
use diald_top.Client.Refresh.Drawn.{Good, redraw-Shown}
use diald_top.Client.Reports.{Input, yyparse}
use diald_top.Client.Reports.Sound.{Holds, Sound, Sound-flags, Sound-Acts}
use diald_top.Client.Reports.Parses.{parses, last_queue, last_state, IsFineInput}
use diald_top.Client.Reports.Parsed.{parse_rounds-After}

-- Below the headers stand the packets, each one that has a line there in it, or that there are none.
abbrev pub Lists : ℕ → ℕ → List Packet → List Draw → Type 0
Lists w lines [] rows = rows ≡ prints_sub 0 5 (codes "No packets queued\n") ∷ []
Lists w lines (p ∷ ps) rows =
    (k : ℕ) (q : Packet)
    → get_elem? (p ∷ ps) k ≡ some q
    → k + head_lines ≤ lines
    → (line : List ℕ) × (get_elem? rows k ≡ some (prints_sub k 0 line)) × IsRow w q line

RowsOf-get :
    (k i j : ℕ) (rows : List Draw) (scr : ℕ → Option (List ℕ)) {b : List ℕ}
    → RowsOf i rows scr
    → k < length rows
    → j ≡ k + i
    → scr j ≡ some b
    → get_elem? rows k ≡ some (prints_sub j 0 (c_str b))
RowsOf-get k i j [] scr of lt index at = absurd (omega (arith, lt))
RowsOf-get zero i j (d ∷ rows) scr {b} ((c, e, drawn), _) lt index at =
    let first : i ≡ j = omega (arith, index) in
    let same : c ≡ b = cc (ap scr first, e, at) in
    ap some
      (drawn ∙ ap (λ x. prints_sub i 0 (c_str x)) same ∙ ap (λ n. prints_sub n 0 (c_str b)) first)
RowsOf-get (suc k) i j (d ∷ rows) scr (_, of) lt index at =
    RowsOf-get k (suc i) j rows scr of (omega (arith, lt)) (omega (arith, index)) at

get_elem?-below : (ps : List Packet) (k : ℕ) {p : Packet} → get_elem? ps k ≡ some p → k < length ps
get_elem?-below [] k at = absurd (cc at)
get_elem?-below (q ∷ ps) zero at = omega arith
get_elem?-below (q ∷ ps) (suc k) at = omega (arith, get_elem?-below ps k at)

Holds-Lists :
    (w : ℕ) (packets : List Packet) (v : View) (rows : List Draw)
    → Good v
    → Holds w packets v.screen
    → Shown v rows
    → Lists w v.screen.lines packets rows
Holds-Lists w [] v rows g h (inl (_, none_there)) = none_there
Holds-Lists w [] v rows g h (inr (some_there, _, _)) = absurd (omega (arith, some_there, h.count))
Holds-Lists w (p ∷ ps) v rows g h (inl (none_there, _)) =
    absurd (omega (arith, none_there, h.count))
Holds-Lists w (p ∷ ps) v rows g h (inr (_, size, of)) = λ k q at shown.
    let (line, (b, there, reads), is_row) = h.rows k q at shown in
    let below = get_elem?-below (p ∷ ps) k at in
    let drawn : k < shown_rows v.screen = ground (arith, below, h.count, shown, g.ready.enough) in
    (
      line,
      RowsOf-get k 0 k rows v.screen.scrbuff of (omega (arith, size, drawn)) (omega arith) there
          ∙ ap (λ x. some (prints_sub k 0 x)) reads,
      is_row,
    )

-- While the terminal keeps its size, the buffers are ready, the packets of the last queue are shown,
-- and the format is that of an ip_width below 230 that the terminal has room for: whatever the parser
-- then comes upon, so long as the texts of the reports fit their buffers, and the packets have no NUL
-- and a TTL of at most 8 bytes, read_fifo returns and leaves what comes after four parses, or after the
-- first that has to wait. It returns -1 exactly when one of these was at the end of the pipe. Else the
-- screen shows the last state that they have read, and the rows of the packets of the last queue, one
-- below the other, as many as have a line, or that there are none; and all is ready for the next time.
pub read_fifo-Lists :
    (w n : ℕ) (packets : List Packet) (inputs : List Input) (term : Terminal) (v : View)
    → Sound w n packets v
    → All (IsFineInput n) inputs
    → v.resize_event_p ≡ false
    → let p = parses 4 inputs in
      ((p.closed ≡ true)
        × ((u : View) × (draws : List Draw) × (read_fifo yyparse term inputs v
              ≡ some (false, p.left, u, draws))))
      ⊎ ((p.closed ≡ false)
          × ((u : View) × (parsed : List Draw) × (state : List Draw) × (rows : List Draw)
              × (read_fifo yyparse term inputs v
                  ≡ some (true, p.left, u, parsed ++ (state ++ erases_sub ∷ rows)))
              × (do_state u.screen.cols u.screen.count (last_state p.done v.curr_state)
                  ≡ some (u.curr_state, state))
              × Lists w u.screen.lines (last_queue p.done packets) rows
              × Sound w n (last_queue p.done packets) u))
unfolding read_fifo
read_fifo-Lists w n packets inputs term v h fine fixed =
    let p = parses 4 inputs in
    let (t, parsed, run, a) =
      parse_rounds-After n (Sound w n) (Sound-flags w n) (Sound-Acts w n) 4 packets inputs
        (record v { yacc_eof = false }) (Sound-flags w n packets v v.yacc_key v.yacc_block false h)
        fine in
    let same_size : t.resize_event_p ≡ false = a.resized ∙ fixed in
    elim (Bool-cases p.closed) [
      | inl closed ↦
          let eof : t.yacc_eof ≡ true = a.eof ∙ ground (arith, closed) in
          inl (closed, (t, parsed, simp (run, eof, read_fifo) refl))
      | inr more ↦
          let eof : t.yacc_eof ≡ false = a.eof ∙ ground (arith, more) in
          let (state, rows, drawn, status, shown) = redraw-Shown t a.kept.safe.good in
          inr (
            more,
            (
              t,
              parsed,
              state,
              rows,
              simp (run, eof, same_size, drawn, read_fifo) refl,
              ap (λ x. do_state t.screen.cols t.screen.count x) (sym a.state) ∙ status,
              Holds-Lists w _ t rows a.kept.safe.good a.kept.holds shown,
              a.kept,
            ),
          )
    ]
