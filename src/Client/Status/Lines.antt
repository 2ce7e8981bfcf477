-- ===== src/Client/Status/Lines.antt =====
-- The lines of the link's state, of the packets queued, and of diald's message.
use mathlib.Core.List.{append-nil}
use diald_top.Base.{
  ℕ, ◌+◌, ◌-◌, ◌*◌, ◌/◌, ◌<◌, ◌≤◌, ◌≡◌, refl, ap, true, false, arith, Option, none, some, List, [],
  ◌∷◌, ◌++◌, length, ltb, Bool-cases, inl, inr, codes, ◌⊎◌, pos, decimal,
}
use diald_top.Base.Decimal.Read.{length-decimal}
use diald_top.Client.Printf.{
  text, number, pad, print, print_int, sprintf, format_step, convert, star_width, star_precision,
}
use diald_top.Client.Printf.Fields.{pad_plain, length-pad_column}
use diald_top.Client.Window.{Draw, clears, prints}
use diald_top.Client.Rows.Parts.{flat, length-flat}
use diald_top.Client.Rows.Columns.{fits_lem, fits-none, int_minus_pos}
use diald_top.Client.Status.{
  do_state, do_message, to_int, size_minus, line_state, line_message, linelength,
}
use diald_top.Client.Status.Interface.{to_int_pos}

-- The message line is as wide as the terminal, whatever the message.
pub do_message_lem :
    (cols : ℕ) (message : List ℕ)
    → 10 ≤ cols
    → let line = codes "Message:  " ++ pad true (cols - 10) (some (cols - 10)) message in
      (do_message cols message ≡ some (clears line_message ∷ prints line_message (pos 0) line ∷ []))
      × (length line ≡ cols)
unfolding do_message sprintf print format_step convert star_width star_precision
do_message_lem cols message wide =
    let w = cols - 10 in
    (
      rw (int_minus_pos cols 10 wide) (ap (λ t. shown (codes "Message:  " ++ t)) (append-nil _)),
      omega (arith, length-pad_column true w message),
    )
  where
    shown : List ℕ → Option (List Draw)
    shown t = some (clears line_message ∷ prints line_message (pos 0) t ∷ [])

abbrev pub status_parts : List ℕ → List (List ℕ)
status_parts state = codes "Link Status:  " ∷ state ∷ codes "          " ∷ []

sprintf-status :
    (state : List ℕ)
    → sprintf (codes "Link Status:  %s          ") (text state ∷ [])
      ≡ some (flat (status_parts state))
unfolding sprintf print format_step convert
sprintf-status state = rw (pad_plain false state) refl

abbrev pub queued_parts : ℕ → List (List ℕ)
queued_parts count = codes "   Packets Queued:  " ∷ decimal count ∷ codes "   " ∷ []

sprintf-queued :
    (count : ℕ)
    → sprintf (codes "   Packets Queued:  %d   ") (number (pos count) ∷ [])
      ≡ some (flat (queued_parts count))
unfolding sprintf print format_step convert print_int
sprintf-queued count = refl

-- The length of the packet count is the middle of the line.
queued_column :
    (cols count : ℕ)
    → 33 ≤ cols
    → cols < 2_147_483_648
    → count < 2_147_483_648
    → let queued = flat (queued_parts count) in
      (to_int (size_minus cols (length queued) / 2) ≡ pos ((cols - length queued) / 2))
      × (length queued ≤ 33)
queued_column cols count wide small few =
    let size : length (flat (queued_parts count)) ≤ 33 =
      omega (arith, length-flat (queued_parts count), length-decimal count 9 (omega arith)) in
    (to_int_pos _ _ (omega (arith, size)) (omega arith), size)

-- Either the state has less than 232 bytes, and then it is kept and shown, with the number of
-- packets in the middle, all of which is on the line, or it is written behind a buffer.
pub do_state_lem :
    (cols count : ℕ) (state : List ℕ)
    → 33 ≤ cols
    → cols < 2_147_483_648
    → count < 2_147_483_648
    → let queued = flat (queued_parts count) in
      ((length state < 232)
        × ((column : ℕ) × (do_state cols count state
              ≡ some (
                state,
                clears line_state
                    ∷ prints line_state (pos 0) (flat (status_parts state))
                    ∷ prints line_state (pos column) queued
                    ∷ [],
              ))
            × (column + length queued ≤ cols)
            × (cols ≤ 2 * column + length queued + 1)))
      ⊎ ((232 ≤ length state) × (do_state cols count state ≡ none))
unfolding do_state
do_state_lem cols count state wide small few =
    let status = flat (status_parts state) in
    let queued = flat (queued_parts count) in
    let size = length-flat (status_parts state) in
    let (middle, short) = queued_column cols count wide small few in
    elim (Bool-cases (ltb (length state) 232)) [
      | inl less ↦
          let lt : length state < 232 = ground arith in
          let kept = fits_lem linelength (some state) state refl (omega arith) in
          let shown = fits_lem linelength _ status (sprintf-status state) (omega (arith, size)) in
          let counted =
            fits_lem linelength _ queued (sprintf-queued count) (omega (arith, short)) in
          inl (
            lt,
            (
              (cols - length queued) / 2,
              rw (kept, shown, counted, middle, do_state) refl,
              omega (arith, short),
              omega (arith, short),
            ),
          )
      | inr more ↦
          let ge : 232 ≤ length state = ground arith in
          inr (
            ge,
            elim (Bool-cases (ltb (length state) linelength)) [
              | inl fits_kept ↦
                  let kept = fits_lem linelength (some state) state refl ground arith in
                  rw
                    (
                      kept,
                      sprintf-status state,
                      fits-none linelength status (omega (arith, size)),
                      do_state,
                    )
                    refl
              | inr long ↦ rw (fits-none linelength state ground arith, do_state) refl
            ],
          )
    ]
