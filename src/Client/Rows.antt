-- ===== src/Client/Rows.antt =====
-- The rows of packets: `format`, which init_fifo of client/pipe.c prints for do_packet of
-- client/parser.c, and the headers that screen_init of client/screen.c puts above them.
pub mod Parts
pub mod Fields
pub mod Columns
pub mod Displayed
use diald_top.Base.{ℕ, ◌+◌, leb, if◌then◌else◌, Option, some, ◌>>=◌, List, [], ◌∷◌, ℤ, codes}
use diald_top.Client.Screen.{Screen, head_lines, do_packet}
use diald_top.Client.Printf.{Arg, text, number, sprintf}
use diald_top.Client.Window.{half, int_minus, fits}

-- `ip_width`, from COLS
abbrev pub ip_width : ℕ → ℤ
ip_width cols = half (int_minus cols 36)

-- The end of init_fifo; `format` has 80 bytes.
unfoldable pub packet_format : ℤ → Option (List ℕ)
packet_format width = fits 80 (
    sprintf (codes "%%-4.4s %%%d.%ds/%%-8.8s %%%d.%ds/%%-8.8s  %%s\n")
      (number width ∷ number width ∷ number width ∷ number width ∷ []))

-- The arguments of do_packet, with the names for its addresses and ports that resolve and service
-- return.
pub record Packet : Type 0 where
  pub protocol : List ℕ
  pub destination : List ℕ
  pub destports : List ℕ
  pub source : List ℕ
  pub sourceports : List ℕ
  pub ttl : List ℕ

-- The arguments of its sprintf.
abbrev pub row_args : Packet → List Arg
row_args p =
    text p.protocol
    ∷ text p.destination
    ∷ text p.destports
    ∷ text p.source
    ∷ text p.sourceports
    ∷ text p.ttl
    ∷ []

-- What do_packet prints to `buf`, of 512 bytes.
unfoldable pub packet_row : List ℕ → Packet → Option (List ℕ)
packet_row format p = fits 512 (sprintf format (row_args p))

abbrev pub header_args : List Arg
header_args =
    text (codes "Type")
    ∷ text (codes "Destination")
    ∷ text (codes "Source")
    ∷ text (codes "TTL")
    ∷ []

-- The row of headers; `fmt` has 80 bytes.
unfoldable pub headers : ℤ → Option (List ℕ)
headers width = do
  fmt ← fits 80 (
      sprintf (codes "%%-4.4s %%%ds          %%%ds           %%s")
        (number width ∷ number width ∷ []))
  sprintf fmt header_args

-- do_packet: a row that is not on the screen is counted only.
unfoldable pub show_packet : List ℕ → Packet → Screen → Option Screen
show_packet format p s =
    if leb (s.count + head_lines) s.lines
    then (do buf ← packet_row format p; do_packet buf s)
    else do_packet [] s

-- The calls that the packets of one queue lead to.
unfoldable pub show_packets : List ℕ → List Packet → Screen → Option Screen
show_packets format [] s = some s
show_packets format (p ∷ ps) s = do t ← show_packet format p s; show_packets format ps t
