-- ===== src/Client/Rows/Displayed.antt =====
-- The rows that the packets of a queue have on the screen.
use diald_top.Base.{
  ℕ, zero, suc, ◌+◌, ◌-◌, ◌*◌, ◌<◌, ◌≤◌, ◌≡◌, refl, ap, ◌∙◌, subst, true, false, arith, Bool, some,
  ◌>>=◌, pos, List, [], ◌∷◌, ◌++◌, length, take, leb, map, Bool-cases, Option-cases, inl, inr, All,
  get_elem?,
}
use diald_top.Client.Printf.{pad, cut, blanks}
use diald_top.Client.Screen.{Screen, head_lines, do_packet}
use diald_top.Client.Screen.Buffers.{Ready}
use diald_top.Client.Screen.Display.{do_packets, do_packets-Displays, IsText, Reads}
use diald_top.Client.Rows.{packet_format, Packet, packet_row, show_packet, show_packets}
use diald_top.Client.Rows.Parts.{flat}
use diald_top.Client.Rows.Fields.{format_of, row_parts, sprintf-row}
use diald_top.Client.Rows.Columns.{IsRow, row_parts-IsRow, packet_format-format_of, fits_lem}

-- do_packet does not look at a line that it does not show.
do_packet_hidden :
    (buf other : List ℕ) (s : Screen)
    → leb (s.count + head_lines) s.lines ≡ false
    → do_packet buf s ≡ do_packet other s
unfolding do_packet
do_packet_hidden buf other s hidden = rw hidden refl

show_packet-do_packet :
    (format buf : List ℕ) (p : Packet) (s : Screen)
    → packet_row format p ≡ some buf
    → show_packet format p s ≡ do_packet buf s
unfolding show_packet
show_packet-do_packet format buf p s e = elim (Bool-cases (leb (s.count + head_lines) s.lines)) [
  | inl shown ↦ rw (shown, e) refl
  | inr hidden ↦ rw hidden (do_packet_hidden [] buf s hidden)
]

-- Packets whose rows fit the buffer are shown as their rows.
show_packets-do_packets :
    (format : List ℕ) (row : Packet → List ℕ) (ps : List Packet) (s : Screen)
    → All (λ p. packet_row format p ≡ some (row p)) ps
    → show_packets format ps s ≡ do_packets (map row ps) s
unfolding show_packets do_packets
show_packets-do_packets format row [] s h = refl
show_packets-do_packets format row (p ∷ ps) s h =
    ap (λ o. o >>= λ t. show_packets format ps t) (show_packet-do_packet format (row p) p s h.0)
    ∙ (elim (Option-cases (do_packet (row p) s)) [
      | inl e ↦ rw (e, do_packets) refl
      | inr (t, e) ↦ rw (e, do_packets) (show_packets-do_packets format row ps t h.1)
    ])

IsText-append : (t u : List ℕ) → IsText t → IsText u → IsText (t ++ u)
IsText-append [] u h k = k
IsText-append (c ∷ t) u h k = (h.0, IsText-append t u h.1 k)

IsText-take : (n : ℕ) (t : List ℕ) → IsText t → IsText (take n t)
IsText-take zero t h = tt
IsText-take (suc n) [] h = tt
IsText-take (suc n) (c ∷ t) h = (h.0, IsText-take n t h.1)

IsText-blanks : (n : ℕ) → IsText (blanks n)
IsText-blanks zero = tt
IsText-blanks (suc n) = (refl, IsText-blanks n)

IsText-pad : (left : Bool) (w p : ℕ) (t : List ℕ) → IsText t → IsText (pad left w (some p) t)
unfolding pad cut
IsText-pad left w p t h =
    let fill = IsText-blanks (w - length (take p t)) in
    let kept = IsText-take p t h in
    elim (Bool-cases left) [
      | inl e ↦ rw e (IsText-append (take p t) _ kept fill)
      | inr e ↦ rw e (IsText-append _ (take p t) fill kept)
    ]

-- None of the texts of a packet holds a NUL, and its TTL is short.
pub record IsPlain (p : Packet) : Type 0 where
  pub protocol : IsText p.protocol
  pub destination : IsText p.destination
  pub destports : IsText p.destports
  pub source : IsText p.source
  pub sourceports : IsText p.sourceports
  pub ttl : IsText p.ttl
  pub short : length p.ttl ≤ 8

row-IsText : (w : ℕ) (p : Packet) → IsPlain p → IsText (flat (row_parts w p))
row-IsText w p h = IsText-append _ _ (IsText-pad true 4 4 p.protocol h.protocol) (
  refl,
  IsText-append _ _ (IsText-pad false w w p.destination h.destination) (
    refl,
    IsText-append _ _ (IsText-pad true 8 8 p.destports h.destports) (
      refl,
      IsText-append _ _ (IsText-pad false w w p.source h.source) (
        refl,
        IsText-append _ _ (IsText-pad true 8 8 p.sourceports h.sourceports)
            (refl, (refl, IsText-append p.ttl _ h.ttl (refl, tt))),
      ),
    ),
  ),
)

get_elem?-map :
    (row : Packet → List ℕ) (ps : List Packet) (k : ℕ) (p : Packet)
    → get_elem? ps k ≡ some p
    → get_elem? (map row ps) k ≡ some (row p)
get_elem?-map row [] k p at = ground arith
get_elem?-map row (q ∷ ps) zero p at = let same : q ≡ p = cc in ap (λ x. some (row x)) same
get_elem?-map row (q ∷ ps) (suc k) p at = get_elem?-map row ps k p at

All_at :
    (P : Packet → Type 0) (ps : List Packet) (k : ℕ) (p : Packet)
    → All P ps
    → get_elem? ps k ≡ some p
    → P p
All_at P [] k p h at = ground arith
All_at P (q ∷ ps) zero p h at = let same : q ≡ p = cc in subst P same h.0
All_at P (q ∷ ps) (suc k) p h at = All_at P ps k p h.1 at

packet_row_fits :
    (w : ℕ) (ps : List Packet)
    → w < 230
    → All IsPlain ps
    → All (λ p. packet_row (format_of w) p ≡ some (flat (row_parts w p))) ps
unfolding packet_row
packet_row_fits w [] small h = tt
packet_row_fits w (p ∷ ps) small h =
    let size = (row_parts-IsRow w p).size in
    (
      fits_lem 512 _ (flat (row_parts w p)) (sprintf-row w p) (omega (arith, size, h.0.short)),
      packet_row_fits w ps small h.1,
    )

-- The rows of a queue, so far as the terminal has room for them.
pub show_packets-rows :
    (w : ℕ) (ps : List Packet) (s : Screen)
    → Ready s
    → s.lines < 265
    → w < 230
    → All IsPlain ps
    → (t : Screen) × ((packet_format (pos w) >>= λ fmt. show_packets fmt ps s) ≡ some t)
      × Ready t
      × (t.count ≡ length ps + s.count)
      × ((t.lines ≡ s.lines) × (t.cols ≡ s.cols))
      × ((k : ℕ) (p : Packet)
          → get_elem? ps k ≡ some p
          → k + s.count + head_lines ≤ s.lines
          → 36 + 2 * w ≤ s.cols
          → (line : List ℕ) × Reads t (k + s.count) line × IsRow w p line)
show_packets-rows w ps s v small narrow plain =
    let row : Packet → List ℕ = λ p. flat (row_parts w p) in
    let (t, run, u, count, size, shows) = do_packets-Displays (map row ps) s v small in
    (
      t,
      rw (packet_format-format_of w (omega arith)) (
          show_packets-do_packets (format_of w) row ps s (packet_row_fits w ps narrow plain) ∙ run),
      u,
      count ∙ ap (λ n. n + s.count) (length-map row ps),
      size,
      λ k p at shown room.
          let is_row = row_parts-IsRow w p in
          let good = All_at IsPlain ps k p plain at in
          (
            row p,
            shows.0 k (row p) (get_elem?-map row ps k p at) shown
                (omega (arith, is_row.size, good.short, room)) (row-IsText w p good),
            is_row,
          ),
    )
  where
    length-map : (row : Packet → List ℕ) (ps : List Packet) → length (map row ps) ≡ length ps
    length-map row [] = refl
    length-map row (p ∷ ps) = ap suc (length-map row ps)

-- On a terminal of less than 265 lines and at most 495 columns, and with an `ip_width` that the
-- terminal has room for, every packet of a queue that has a line on the screen reads there as a row
-- with its data in their columns.
pub show_packets-IsRow :
    (w : ℕ) (ps : List Packet) (s : Screen)
    → Ready s
    → s.lines < 265
    → w < 230
    → 36 + 2 * w ≤ s.cols
    → All IsPlain ps
    → (t : Screen) × ((packet_format (pos w) >>= λ fmt. show_packets fmt ps s) ≡ some t)
      × Ready t
      × (t.count ≡ length ps + s.count)
      × ((t.lines ≡ s.lines) × (t.cols ≡ s.cols))
      × ((k : ℕ) (p : Packet)
          → get_elem? ps k ≡ some p
          → k + s.count + head_lines ≤ s.lines
          → (line : List ℕ) × Reads t (k + s.count) line × IsRow w p line)
show_packets-IsRow w ps s v small narrow room plain =
    let (t, run, u, count, size, rows) = show_packets-rows w ps s v small narrow plain in
    (t, run, u, count, size, λ k p at shown. rows k p at shown room)
