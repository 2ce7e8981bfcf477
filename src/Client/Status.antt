-- ===== src/Client/Status.antt =====
-- The lines of client/parser.c above the packets: do_interface, do_state and do_message; and do_load.
pub mod Interface
pub mod Room
pub mod Lines
use diald_top.Base.{
  ℕ, ◌+◌, ◌-◌, ◌/◌, ◌%◌, ◌^◌, if◌then◌else◌, Option, some, ◌>>=◌, List, [], ◌∷◌, ℤ, pos, negsuc,
  ltb, length, codes,
}
use diald_top.Client.Printf.{Arg, text, number, sprintf}
use diald_top.Client.Resolve.{Loads}
use diald_top.Client.Window.{Draw, clears, prints, fits, half, int_minus}

abbrev pub line_state : ℕ
line_state = 3

abbrev pub line_interface : ℕ
line_interface = 4

abbrev pub line_message : ℕ
line_message = 5

abbrev pub linelength : ℕ
linelength = 256

-- `a - b` on a size_t of 64 bits
abbrev pub size_minus : ℕ → ℕ → ℕ
size_minus a b = (a + 2 ^ 64 - b % 2 ^ 64) % 2 ^ 64

-- A size_t that is assigned to an int of 32 bits.
abbrev pub to_int : ℕ → ℤ
to_int n = let m = n % 2 ^ 32 in if ltb m (2 ^ 31) then pos m else negsuc (2 ^ 32 - 1 - m)

-- `spcs` of do_interface: strlen makes the difference a size_t, and so the division.
unfoldable pub interface_spcs : (cols texts : ℕ) → ℤ
interface_spcs cols texts = to_int (size_minus cols (32 + texts) / 2)

abbrev pub interface_args : (interface local_ip remote_ip : List ℕ) → List Arg
interface_args interface local_ip remote_ip =
    text (codes "Interface: ")
    ∷ text interface
    ∷ text []
    ∷ text (codes "Local IP: ")
    ∷ text local_ip
    ∷ text []
    ∷ text (codes "Remote IP: ")
    ∷ text remote_ip
    ∷ []

unfoldable pub do_interface :
    (cols : ℕ) → (interface local_ip remote_ip : List ℕ) → Option (List Draw)
do_interface cols interface local_ip remote_ip = do
  let spcs = interface_spcs cols (length interface + length remote_ip + length local_ip)
  fmt ←
      fits cols (sprintf (codes "%%-s%%s%%%ds%%-s%%s%%%ds%%-s%%s") (number spcs ∷ number spcs ∷ []))
  line ← fits (cols + 2) (sprintf fmt (interface_args interface local_ip remote_ip))
  some (clears line_interface ∷ prints line_interface (pos 0) line ∷ [])

-- The state is kept in `curr_state`, of 256 bytes.
unfoldable pub do_state : (cols count : ℕ) → List ℕ → Option (List ℕ × List Draw)
do_state cols count state = do
  curr_state ← fits linelength (some state)
  status ← fits linelength (sprintf (codes "Link Status:  %s          ") (text curr_state ∷ []))
  queued ← fits linelength (sprintf (codes "   Packets Queued:  %d   ") (number (pos count) ∷ []))
  some (
    curr_state,
    clears line_state
        ∷ prints line_state (pos 0) status
        ∷ prints line_state (to_int (size_minus cols (length queued) / 2)) queued
        ∷ [],
  )

-- The prefix and the message, cut or filled up to the width of the terminal.
unfoldable pub do_message : (cols : ℕ) → List ℕ → Option (List Draw)
do_message cols message = do
  let w = int_minus cols 10
  line ← sprintf (codes "Message:  %-*.*s") (number w ∷ number w ∷ text message ∷ [])
  some (clears line_message ∷ prints line_message (pos 0) line ∷ [])

-- The three latest reports of the load, the oldest first.
unfoldable pub do_load : (itxtotal irxtotal : ℕ) → Loads → Loads
do_load itxtotal irxtotal l = record {
  rx0 = l.rx1;
  rx1 = l.rx2;
  rx2 = irxtotal;
  tx0 = l.tx1;
  tx1 = l.tx2;
  tx2 = itxtotal;
}
