-- ===== src/Client/Status/Room.antt =====
-- How much room the lines above the packets take, and how much they have.
use diald_top.Base.{
  ℕ, suc, ◌+◌, ◌-◌, ◌*◌, ◌/◌, ◌<◌, ◌≤◌, ◌≡◌, refl, true, false, arith, none, some, List, [], ◌∷◌,
  length, ltb, leb, Bool-cases, inl, inr, ◌⊎◌, pos, negsuc,
}
use diald_top.Base.Decimal.Read.{length-decimal}
use diald_top.Client.Printf.{print_int}
use diald_top.Client.Printf.Fields.{length-pad_blank}
use diald_top.Client.Window.{clears, prints, fits}
use diald_top.Client.Rows.Parts.{flat, length-flat}
use diald_top.Client.Rows.Columns.{fits_lem, fits-none}
use diald_top.Client.Status.{do_interface, line_interface}
use diald_top.Client.Status.Interface.{
  interface_spcs_room, interface_spcs_short, interface_format, sprintf-interface_format,
  interface_parts, sprintf-interface_parts,
}

-- Where the three texts fit the terminal they are spread over it.
pub do_interface-fits :
    (cols : ℕ) (interface local_ip remote_ip : List ℕ)
    → 32 + (length interface + length remote_ip + length local_ip) ≤ cols
    → cols < 2_147_483_648
    → let texts = length interface + length remote_ip + length local_ip in
      let spcs = (cols - (32 + texts)) / 2 in
      let line = flat (interface_parts (pos spcs) interface local_ip remote_ip) in
      (do_interface cols interface local_ip remote_ip
        ≡ some (clears line_interface ∷ prints line_interface (pos 0) line ∷ []))
      × (length line ≤ cols)
unfolding do_interface interface_format print_int
do_interface-fits cols interface local_ip remote_ip le small =
    let texts = length interface + length remote_ip + length local_ip in
    let spcs = (cols - (32 + texts)) / 2 in
    let line = flat (interface_parts (pos spcs) interface local_ip remote_ip) in
    let size : length line ≤ cols = omega (
      arith,
      length-flat (interface_parts (pos spcs) interface local_ip remote_ip),
      length-pad_blank false spcs,
    ) in
    let fmt =
      fits_lem cols _ (flat (interface_format (pos spcs))) (sprintf-interface_format (pos spcs))
        (short spcs (omega arith) (omega arith)) in
    let written =
      fits_lem (cols + 2) _ line (sprintf-interface_parts (pos spcs) interface local_ip remote_ip)
        (omega (arith, size)) in
    (rw (interface_spcs_room cols texts le small, fmt, written, do_interface) refl, size)
  where
    short :
        (spcs : ℕ)
        → 2 * spcs + 32 ≤ cols
        → spcs < 2_147_483_648
        → length (flat (interface_format (pos spcs))) < cols
    short spcs room small = elim (Bool-cases (ltb spcs 10)) [
      | inl one ↦
          let digits = length-decimal spcs 0 ground arith in
          omega (arith, length-flat (interface_format (pos spcs)), digits)
      | inr more ↦
          let digits = length-decimal spcs 9 (omega arith) in
          let wide : 52 ≤ cols = ground arith in
          omega (arith, length-flat (interface_format (pos spcs)), digits)
    ]

-- Where they do not, spcs is negative, which printf takes for a width again: the line is written
-- behind its buffer.
do_interface-overflows :
    (cols : ℕ) (interface local_ip remote_ip : List ℕ)
    → cols < 32 + (length interface + length remote_ip + length local_ip)
    → length interface + length remote_ip + length local_ip < 2_147_483_000
    → do_interface cols interface local_ip remote_ip ≡ none
unfolding do_interface
do_interface-overflows cols interface local_ip remote_ip lt small =
    let texts = length interface + length remote_ip + length local_ip in
    let n = (32 + texts - cols - 1) / 2 in
    let fmt = flat (interface_format (negsuc n)) in
    let line = flat (interface_parts (negsuc n) interface local_ip remote_ip) in
    let long : cols + 2 ≤ length line = omega (
      arith,
      length-flat (interface_parts (negsuc n) interface local_ip remote_ip),
      length-pad_blank true (suc n),
    ) in
    rw (interface_spcs_short cols texts lt small, sprintf-interface_format (negsuc n), do_interface)
      (elim (Bool-cases (ltb (length fmt) cols)) [
        | inl short ↦
            let there : fits cols (some fmt) ≡ some fmt =
              fits_lem cols (some fmt) fmt refl ground arith in
            rw
              (
                there,
                sprintf-interface_parts (negsuc n) interface local_ip remote_ip,
                fits-none (cols + 2) line long,
              )
              refl
        | inr long ↦ rw (fits-none cols fmt ground arith) refl
      ])

-- Either the three texts and the words before them fit the terminal, and then the line is written
-- and is no longer than it, or they do not, and then it is written behind the end of its buffer.
pub do_interface_lem :
    (cols : ℕ) (interface local_ip remote_ip : List ℕ)
    → cols < 2_147_483_648
    → length interface + length remote_ip + length local_ip < 2_147_483_000
    → let texts = length interface + length remote_ip + length local_ip in
      let spcs = (cols - (32 + texts)) / 2 in
      let line = flat (interface_parts (pos spcs) interface local_ip remote_ip) in
      ((32 + texts ≤ cols)
        × ((do_interface cols interface local_ip remote_ip
              ≡ some (clears line_interface ∷ prints line_interface (pos 0) line ∷ []))
            × (length line ≤ cols)))
      ⊎ ((cols < 32 + texts) × (do_interface cols interface local_ip remote_ip ≡ none))
do_interface_lem cols interface local_ip remote_ip small short =
    let texts = length interface + length remote_ip + length local_ip in
    elim (Bool-cases (leb (32 + texts) cols)) [
      | inl room ↦
          let le : 32 + texts ≤ cols = ground arith in
          inl (le, do_interface-fits cols interface local_ip remote_ip le small)
      | inr none_left ↦
          let lt : cols < 32 + texts = ground arith in
          inr (lt, do_interface-overflows cols interface local_ip remote_ip lt short)
    ]
