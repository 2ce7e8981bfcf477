-- ===== src/Client/Titles/Widths.antt =====
-- The first lines fill the terminal, and no more.
use diald_top.Base.{
  ℕ, zero, suc, ◌+◌, ◌-◌, ◌/◌, ◌<◌, ◌≤◌, ◌≡◌, refl, ap, arith, some, List, [], ◌∷◌, pos, codes,
  length, true, false,
}
use diald_top.Base.Decimal.Read.{length-decimal}
use diald_top.Client.Printf.{number, before, print, print_int, sprintf, format_step, convert}
use diald_top.Client.Printf.Fields.{pad_int, print-pad_int, pad_plain, length-pad_blank}
use diald_top.Client.Window.{prints}
use diald_top.Client.Rows.Parts.{flat, length-flat}
use diald_top.Client.Rows.Columns.{fits_lem, int_minus_pos, ip_width_lem, headers_lem, IsHeaders}
use diald_top.Client.Status.{size_minus, to_int}
use diald_top.Client.Status.Interface.{to_int_pos}
use diald_top.Client.Titles.{
  strrpt, copyright_args, copyright, revision_args, revision_line, titles, line_copyright,
  line_revision, line_headers, line_underline,
}

copyright_format : ℕ → List (List ℕ)
copyright_format n = codes "%-s%" ∷ print_int (pos n) ∷ codes "s%-s" ∷ []

copyright_parts : ℕ → List (List ℕ)
copyright_parts n =
    codes "DialD Packet statistics program"
    ∷ pad_int (pos n) []
    ∷ codes "(c) 1995-2001 Gavin J. Hurlbut"
    ∷ []

sprintf-copyright_format :
    (n : ℕ)
    → sprintf (codes "%%-s%%%ds%%-s") (number (pos n) ∷ []) ≡ some (flat (copyright_format n))
unfolding sprintf print format_step convert copyright_format
sprintf-copyright_format n = refl

sprintf-copyright :
    (n : ℕ) → sprintf (flat (copyright_format n)) copyright_args ≡ some (flat (copyright_parts n))
unfolding sprintf print format_step convert copyright_format copyright_parts
sprintf-copyright n =
    rw
      (
        print-pad_int (pos n) [] _ _,
        before,
        pad_plain true (codes "DialD Packet statistics program"),
        pad_plain true (codes "(c) 1995-2001 Gavin J. Hurlbut"),
      )
      refl

-- The copyright line is as wide as the terminal.
copyright_lem :
    (cols : ℕ)
    → 61 ≤ cols
    → cols < 2_147_483_648
    → (line : List ℕ) × (copyright cols ≡ some line) × (length line ≡ cols)
unfolding copyright copyright_format copyright_parts print_int
copyright_lem cols wide small =
    let n = cols - 61 in
    let digits = length-decimal n 9 (omega arith) in
    let fmt =
      fits_lem 80 _ (flat (copyright_format n)) (sprintf-copyright_format n)
        (omega (arith, length-flat (copyright_format n), digits)) in
    (
      flat (copyright_parts n),
      rw (int_minus_pos cols 61 wide, fmt, copyright) (sprintf-copyright n),
      omega (arith, length-flat (copyright_parts n), length-pad_blank false n),
    )

revision_format : ℕ → List (List ℕ)
revision_format n =
    codes "%-s%" ∷ print_int (pos n) ∷ codes "s%-s%" ∷ print_int (pos n) ∷ codes "s%-s" ∷ []

revision_parts : ℕ → List ℕ → List (List ℕ)
revision_parts n revision =
    revision
    ∷ pad_int (pos n) []
    ∷ codes "http://diald-top.sourceforge.net/"
    ∷ pad_int (pos n) []
    ∷ codes "(h) for help"
    ∷ []

sprintf-revision_format :
    (n : ℕ)
    → sprintf (codes "%%-s%%%ds%%-s%%%ds%%-s") (number (pos n) ∷ number (pos n) ∷ [])
      ≡ some (flat (revision_format n))
unfolding sprintf print format_step convert revision_format
sprintf-revision_format n = refl

sprintf-revision :
    (n : ℕ) (revision : List ℕ)
    → sprintf (flat (revision_format n)) (revision_args revision)
      ≡ some (flat (revision_parts n revision))
unfolding sprintf print format_step convert revision_format revision_parts
sprintf-revision n revision =
    rw
      (
        print-pad_int (pos n) [] _ _,
        before,
        print-pad_int (pos n) [] _ _,
        before,
        pad_plain true revision,
        pad_plain true (codes "http://diald-top.sourceforge.net/"),
        pad_plain true (codes "(h) for help"),
      )
      refl

revision_line_lem :
    (cols : ℕ) (revision : List ℕ)
    → 45 + length revision ≤ cols
    → cols < 2_147_483_648
    → (line : List ℕ) × (revision_line cols revision ≡ some line) × (length line ≤ cols)
unfolding revision_line revision_format revision_parts print_int
revision_line_lem cols revision wide small =
    let n = (cols - (45 + length revision)) / 2 in
    let digits = length-decimal n 9 (omega arith) in
    let spcs : to_int (size_minus cols (45 + length revision) / 2) ≡ pos n =
      to_int_pos _ _ (omega arith) (omega arith) in
    let fmt =
      fits_lem 80 _ (flat (revision_format n)) (sprintf-revision_format n)
        (omega (arith, length-flat (revision_format n), digits)) in
    (
      flat (revision_parts n revision),
      rw (spcs, fmt, revision_line) (sprintf-revision n revision),
      omega (arith, length-flat (revision_parts n revision), length-pad_blank false n),
    )

length-strrpt : (ch n : ℕ) → length (strrpt ch n) ≡ n
unfolding strrpt
length-strrpt ch zero = refl
length-strrpt ch (suc n) = ap suc (length-strrpt ch n)

-- On a terminal of at least 61 columns, and of 45 more than the revision has, screen_init prints its
-- four lines, none longer than the terminal: the copyright fills it, and the headers stand over the
-- columns of an `ip_width` of half of what is left of the columns beside 36.
pub titles-IsHeaders :
    (cols : ℕ) (revision : List ℕ)
    → 61 ≤ cols
    → 45 + length revision ≤ cols
    → cols < 2_147_483_648
    → (first : List ℕ) × (second : List ℕ) × (heads : List ℕ) × (underline : List ℕ) × (titles cols
          revision
        ≡ some (
            prints line_copyright (pos 0) first
            ∷ prints line_revision (pos 0) second
            ∷ prints line_headers (pos 0) heads
            ∷ prints line_underline (pos 0) underline
            ∷ []))
      × (length first ≡ cols)
      × (length second ≤ cols)
      × (length heads ≤ cols)
      × IsHeaders ((cols - 36) / 2) heads
      × (length underline + 1 ≡ cols)
unfolding titles
titles-IsHeaders cols revision wide room small =
    let (first, a, size) = copyright_lem cols wide small in
    let (second, b, most) = revision_line_lem cols revision room small in
    let (heads, c, columns) = headers_lem ((cols - 36) / 2) (omega arith) (omega arith) in
    (
      first,
      second,
      heads,
      strrpt b'=' (cols - 1),
      rw (a, b, ip_width_lem cols (omega arith), c, titles) refl,
      size,
      most,
      omega (arith, columns.size),
      columns,
      omega (arith, length-strrpt b'=' (cols - 1)),
    )
