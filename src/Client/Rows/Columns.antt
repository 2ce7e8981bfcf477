-- ===== src/Client/Rows/Columns.antt =====
-- Which columns of the screen the data of a packet stand in, and under which headers.
use diald_top.Base.{
  ℕ, zero, suc, ◌+◌, ◌-◌, ◌*◌, ◌/◌, ◌<◌, ◌≤◌, ◌≡◌, refl, ap, ◌∙◌, true, false, arith, Option, none,
  some, ◌>>=◌, List, ◌++◌, pos, length, drop, ltb, if◌then◌else◌, codes,
}
use diald_top.Base.Decimal.Read.{length-decimal}
use diald_top.Client.Printf.{cut, pad}
use diald_top.Client.Printf.Fields.{length-pad, length-pad_column}
use diald_top.Client.Window.{half, fits, int_minus}
use diald_top.Client.Rows.{packet_format, Packet, packet_row, headers, ip_width}
use diald_top.Client.Rows.Parts.{flat, slice, slice_at, drop_at, length-flat}
use diald_top.Client.Rows.Fields.{
  format_parts, format_of, sprintf-format, row_parts, sprintf-row, headers_parts, sprintf-headers,
  headers_format, sprintf-headers_format,
}

-- The names of a packet and its TTL stand in these columns, for an `ip_width` of `w`.
pub record IsRow (w : ℕ) (p : Packet) (line : List ℕ) : Type 0 where
  pub size : length line ≡ 27 + 2 * w + length p.ttl
  pub protocol : slice 0 4 line ≡ pad true 4 (some 4) p.protocol
  pub destination : slice 5 w line ≡ pad false w (some w) p.destination
  pub destports : slice (6 + w) 8 line ≡ pad true 8 (some 8) p.destports
  pub source : slice (15 + w) w line ≡ pad false w (some w) p.source
  pub sourceports : slice (16 + 2 * w) 8 line ≡ pad true 8 (some 8) p.sourceports
  pub ttl : drop (26 + 2 * w) line ≡ p.ttl ++ codes "\n"

pub row_parts-IsRow : (w : ℕ) (p : Packet) → IsRow w p (flat (row_parts w p))
row_parts-IsRow w p =
    let a = length-pad_column true 4 p.protocol in
    let b = length-pad_column false w p.destination in
    let c = length-pad_column true 8 p.destports in
    let d = length-pad_column false w p.source in
    let e = length-pad_column true 8 p.sourceports in
    let parts = row_parts w p in
    record {
      size = omega (arith, length-flat parts, a, b, c, d, e);
      protocol = slice_at 0 0 4 parts _ refl refl a;
      destination = slice_at 2 5 w parts _ refl (omega (arith, a)) b;
      destports = slice_at 4 (6 + w) 8 parts _ refl (omega (arith, a, b)) c;
      source = slice_at 6 (15 + w) w parts _ refl (omega (arith, a, b, c)) d;
      sourceports = slice_at 8 (16 + 2 * w) 8 parts _ refl (omega (arith, a, b, c, d)) e;
      ttl = drop_at 10 (26 + 2 * w) parts (omega (arith, a, b, c, d, e));
    }

-- The headers stand over columns of the same width, where that is enough for them.
pub record IsHeaders (w : ℕ) (line : List ℕ) : Type 0 where
  pub size : length line ≡ 29 + 2 * w
  pub destination : slice 5 w line ≡ pad false w none (codes "Destination")
  pub source : slice (15 + w) w line ≡ pad false w none (codes "Source")
  pub ttl : drop (26 + 2 * w) line ≡ codes "TTL"

headers_parts-IsHeaders : (w : ℕ) → 11 ≤ w → IsHeaders w (flat (headers_parts w))
unfolding cut
headers_parts-IsHeaders w wide =
    let a : length (pad false w none (codes "Destination")) ≡ w =
      omega (arith, length-pad false w none (codes "Destination")) in
    let b : length (pad false w none (codes "Source")) ≡ w =
      omega (arith, length-pad false w none (codes "Source")) in
    let parts = headers_parts w in
    record {
      size = omega (arith, length-flat parts, a, b);
      destination = slice_at 1 5 w parts _ refl refl a;
      source = slice_at 3 (15 + w) w parts _ refl (omega (arith, a)) b;
      ttl = drop_at 5 (26 + 2 * w) parts (omega (arith, a, b));
    }

-- A text that fits is what the buffer holds.
pub fits_lem :
    (size : ℕ) (o : Option (List ℕ)) (t : List ℕ)
    → o ≡ some t
    → length t < size
    → fits size o ≡ some t
unfolding fits
fits_lem size o t e lt =
    let small : ltb (length t) size ≡ true = ground arith in rw (e, fits, small) refl

pub fits-none : (size : ℕ) (t : List ℕ) → size ≤ length t → fits size (some t) ≡ none
unfolding fits
fits-none size t le = let long : ltb (length t) size ≡ false = ground arith in rw long refl

length-format_of : (w : ℕ) → w < 2_147_483_648 → length (format_of w) < 80
length-format_of w small =
    let digits = length-decimal w 9 (omega arith) in
    omega (arith, length-flat (format_parts w), digits)

-- `format` is never longer than its buffer.
pub packet_format-format_of :
    (w : ℕ) → w < 2_147_483_648 → packet_format (pos w) ≡ some (format_of w)
unfolding packet_format
packet_format-format_of w small =
    fits_lem 80 _ (format_of w) (sprintf-format w) (length-format_of w small)

length-headers_format : (w : ℕ) → w < 2_147_483_648 → length (flat (headers_format w)) < 80
length-headers_format w small =
    let digits = length-decimal w 9 (omega arith) in
    omega (arith, length-flat (headers_format w), digits)

-- From the width to a row: the row has the packet's data in their columns, and it is written to
-- `buf` exactly when twice the width and the TTL have less than 485 bytes; else it goes behind it.
packet_row_lem :
    (w : ℕ) (p : Packet)
    → w < 2_147_483_648
    → (line : List ℕ) × IsRow w p line
      × ((packet_format (pos w) >>= λ fmt. packet_row fmt p)
          ≡ (if ltb (2 * w + length p.ttl) 485 then some line else none))
unfolding packet_row fits
packet_row_lem w p small =
    let line = flat (row_parts w p) in
    let row = row_parts-IsRow w p in
    (
      line,
      row,
      rw (packet_format-format_of w small, sprintf-row w p, packet_row, fits) (room line row.size),
    )
  where
    room :
        (line : List ℕ)
        → length line ≡ 27 + 2 * w + length p.ttl
        → (if ltb (length line) 512 then some line else none)
          ≡ (if ltb (2 * w + length p.ttl) 485 then some line else none)
    room line e = ground (arith, e)

pub headers_lem :
    (w : ℕ)
    → 11 ≤ w
    → w < 2_147_483_648
    → (line : List ℕ) × (headers (pos w) ≡ some line) × IsHeaders w line
unfolding headers
headers_lem w wide small =
    let fmt =
      fits_lem 80 _ (flat (headers_format w)) (sprintf-headers_format w)
        (length-headers_format w small) in
    (flat (headers_parts w), rw (fmt, headers) (sprintf-headers w), headers_parts-IsHeaders w wide)

pub int_minus_pos : (a b : ℕ) → b ≤ a → int_minus a b ≡ pos (a - b)
int_minus_pos a zero le = ap pos (omega arith)
int_minus_pos zero (suc b) le = absurd (omega arith)
int_minus_pos (suc a) (suc b) le = int_minus_pos a b (omega (arith, le)) ∙ ap pos (omega arith)

pub ip_width_lem : (cols : ℕ) → 36 ≤ cols → ip_width cols ≡ pos ((cols - 36) / 2)
unfolding half
ip_width_lem cols le = ap half (int_minus_pos cols 36 le)
