-- ===== src/Client/Refresh/Below.antt =====
-- What stands below the headers: the packets, or that there are none.
use diald_top.Base.{
  ℕ, zero, suc, ◌+◌, ◌<◌, ◌≤◌, ◌≡◌, ◌==◌, refl, ap, arith, if◌then◌else◌, Option, some, List, [],
  ◌∷◌, inl, inr, ◌⊎◌, Bool-cases, codes, c_str, length,
}
use diald_top.Client.Window.{Draw, prints_sub}
use diald_top.Client.Screen.Buffers.{Ready, Allocated}
use diald_top.Client.Refresh.{View, draw_rows, shown_rows}

-- Each row is a buffer's text, from row `i` on.
abbrev pub RowsOf : ℕ → List Draw → (ℕ → Option (List ℕ)) → Type 0
RowsOf i [] scr = Unit
RowsOf i (d ∷ ds) scr =
    ((b : List ℕ) × (scr i ≡ some b) × (d ≡ prints_sub i 0 (c_str b))) × RowsOf (suc i) ds scr

draw_rows-RowsOf :
    (n i total cols : ℕ) (scr : ℕ → Option (List ℕ))
    → i + n ≤ total
    → Allocated total cols scr
    → (rows : List Draw) × (draw_rows n i scr ≡ some rows) × (length rows ≡ n) × RowsOf i rows scr
unfolding draw_rows
draw_rows-RowsOf zero i total cols scr le h = ([], refl, refl, tt)
draw_rows-RowsOf (suc n) i total cols scr le h =
    let (b, e, size) = h i (omega arith) in
    let (rows, run, count, of) = draw_rows-RowsOf n (suc i) total cols scr (omega arith) h in
    (prints_sub i 0 (c_str b) ∷ rows, rw (e, run, draw_rows) refl, ap suc count, ((b, e, refl), of))

-- What stands below the headers.
abbrev pub Shown : View → List Draw → Type 0
Shown u rows =
    ((u.screen.count ≡ 0) × (rows ≡ prints_sub 0 5 (codes "No packets queued\n") ∷ []))
    ⊎ ((0 < u.screen.count) × (length rows ≡ shown_rows u.screen) × RowsOf 0 rows u.screen.scrbuff)

unfoldable pub rows_of : View → Option (List Draw)
rows_of v =
    if v.screen.count == 0
    then some (prints_sub 0 5 (codes "No packets queued\n") ∷ [])
    else draw_rows (shown_rows v.screen) 0 v.screen.scrbuff

pub rows_of-Shown :
    (v : View) → Ready v.screen → (rows : List Draw) × (rows_of v ≡ some rows) × Shown v rows
unfolding rows_of
rows_of-Shown v r = elim (Bool-cases (v.screen.count == 0)) [
  | inl none_queued ↦ (_, rw none_queued refl, inl (ground arith, refl))
  | inr some_queued ↦
      let (rows, run, count, of) =
        draw_rows-RowsOf (shown_rows v.screen) 0 v.screen.numbuff v.screen.cols v.screen.scrbuff
          ground arith r.buffers in
      (rows, rw some_queued run, inr (ground arith, count, of))
]
