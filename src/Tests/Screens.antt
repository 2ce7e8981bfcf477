-- ===== src/Tests/Screens.antt =====
-- Tests of what client/ shows.
use diald_top.Base.{
  ℕ, zero, suc, ◌+◌, ◌-◌, ◌/◌, ◌<◌, ◌≤◌, ◌≡◌, refl, true, false, arith, if◌then◌else◌, Option, none,
  some, ◌>>=◌, inl, ◌⊎◌, List, [], ◌∷◌, ◌++◌, pos, length, codes, ltb, get_elem?,
}
use diald_top.Client.Window.{Draw, clears, prints, erases_sub}
use diald_top.Client.Screen.{Screen, head_lines}
use diald_top.Client.Screen.Buffers.{Ready}
use diald_top.Client.Screen.Display.{Reads}
use diald_top.Client.Rows.{packet_format, Packet, show_packets}
use diald_top.Client.Rows.Parts.{flat}
use diald_top.Client.Rows.Columns.{IsRow, IsHeaders}
use diald_top.Client.Rows.Displayed.{IsPlain, show_packets-IsRow}
use diald_top.Client.Titles.{titles, line_copyright, line_revision, line_headers, line_underline}
use diald_top.Client.Titles.Widths.{titles-IsHeaders}
use diald_top.Client.Status.{do_interface, do_state, line_interface}
use diald_top.Client.Status.Interface.{interface_parts}
use diald_top.Client.Status.Room.{do_interface_lem}
use diald_top.Client.Resolve.{Loads}
use diald_top.Client.Rows.Fields.{format_of}
use diald_top.Client.Refresh.{View, Parser, Terminal, parse_rounds, read_fifo}
use diald_top.Client.Refresh.Drawn.{read_fifo-Shown}
use diald_top.Client.Refresh.Below.{Shown}

-- A terminal of 24 lines and 80 columns.
abbrev nines : ℕ → List ℕ
nines zero = []
nines (suc n) = 9 ∷ nines n

abbrev line_of : ℕ → Option (List ℕ)
line_of i = if ltb i 25 then some (0 ∷ nines 80) else none

abbrev pub wide : Screen
wide = record { lines = 24; cols = 80; numbuff = 25; scrbuff = line_of; count = 0 }

pub wide-Ready : Ready wide
wide-Ready = record {
  enough = inl refl;
  within = omega arith;
  buffers = λ i lt. let inside : ltb i 25 ≡ true = ground arith in rw inside (_, refl, refl);
}

abbrev pub web : Packet
web = record {
  protocol = codes "tcp";
  destination = codes "gate.lan";
  destports = codes "www  ";
  source = codes "10.0.0.17";
  sourceports = codes "40123";
  ttl = codes "00:09:58";
}

pub web-IsPlain : IsPlain web
web-IsPlain = record {
  protocol = (refl, (refl, (refl, tt)));
  destination = (refl, (refl, (refl, (refl, (refl, (refl, (refl, (refl, tt))))))));
  destports = (refl, (refl, (refl, (refl, (refl, tt)))));
  source = (refl, (refl, (refl, (refl, (refl, (refl, (refl, (refl, (refl, tt)))))))));
  sourceports = (refl, (refl, (refl, (refl, (refl, tt)))));
  ttl = (refl, (refl, (refl, (refl, (refl, (refl, (refl, (refl, tt))))))));
  short = omega arith;
}

show_packets-IsRow_example :
    (t : Screen) × ((packet_format (pos 22) >>= λ fmt. show_packets fmt (web ∷ []) wide) ≡ some t)
    × Ready t
    × (t.count ≡ 1 + 0)
    × ((t.lines ≡ 24) × (t.cols ≡ 80))
    × ((k : ℕ) (p : Packet)
        → get_elem? (web ∷ []) k ≡ some p
        → k + 0 + head_lines ≤ 24
        → (line : List ℕ) × Reads t (k + 0) line × IsRow 22 p line)
show_packets-IsRow_example =
    show_packets-IsRow 22 (web ∷ []) wide wide-Ready (omega arith) (omega arith) (omega arith)
      (web-IsPlain, tt)

titles-IsHeaders_example :
    (first : List ℕ) × (second : List ℕ) × (heads : List ℕ) × (underline : List ℕ) × (titles 80
        (codes "Revision: 2.0")
      ≡ some (
          prints line_copyright (pos 0) first
          ∷ prints line_revision (pos 0) second
          ∷ prints line_headers (pos 0) heads
          ∷ prints line_underline (pos 0) underline
          ∷ []))
    × (length first ≡ 80)
    × (length second ≤ 80)
    × (length heads ≤ 80)
    × IsHeaders ((80 - 36) / 2) heads
    × (length underline + 1 ≡ 80)
titles-IsHeaders_example =
    titles-IsHeaders 80 (codes "Revision: 2.0") (omega arith) (omega arith) (omega arith)

do_interface_lem_example :
    ((32 + 24 ≤ 80)
      × ((do_interface 80 (codes "ppp0") (codes "10.0.0.1") (codes "192.168.0.17")
            ≡ some (
                clears line_interface
                ∷ prints line_interface (pos 0) (
                    flat (
                      interface_parts
                        (pos 12)
                        (codes "ppp0")
                        (codes "10.0.0.1")
                        (codes "192.168.0.17")))
                ∷ []))
          × (length (
                flat (
                  interface_parts
                    (pos 12)
                    (codes "ppp0")
                    (codes "10.0.0.1")
                    (codes "192.168.0.17")))
              ≤ 80)))
    ⊎ ((80 < 32 + 24)
        × (do_interface 80 (codes "ppp0") (codes "10.0.0.1") (codes "192.168.0.17") ≡ none))
do_interface_lem_example =
    do_interface_lem 80 (codes "ppp0") (codes "10.0.0.1") (codes "192.168.0.17") (omega arith)
      (omega arith)

-- The parser has read a state, and there is nothing more yet.
abbrev reads_state : Parser ℕ
reads_state n v = some (suc n, record v { curr_state = codes "UP"; yacc_block = true }, [])

abbrev pub no_loads : Loads
no_loads = record { rx0 = 0; rx1 = 0; rx2 = 0; tx0 = 0; tx1 = 0; tx2 = 0 }

abbrev pub seen : View
seen = record {
  revision = codes "Revision: 2.0";
  screen = wide;
  ip_width = pos 22;
  format = format_of 22;
  curr_state = [];
  loads = no_loads;
  yacc_key = pos 0;
  resize_event_p = true;
  yacc_block = false;
  yacc_eof = false;
}

abbrev pub narrower : Terminal
narrower = record { lines = 24; cols = 72; fresh = λ _. nines 73 }

abbrev parsed : View
parsed = record seen { curr_state = codes "UP"; yacc_block = true }

read_fifo-Shown_example :
    ((false ≡ true) × (read_fifo reads_state narrower 0 seen ≡ some (false, 1, parsed, [])))
    ⊎ ((false ≡ false)
        × ((u : View) × (first : List Draw) × (state : List Draw) × (rows : List Draw) × (read_fifo
                reads_state narrower 0 seen
              ≡ some (true, 1, u, [] ++ (first ++ (state ++ erases_sub ∷ rows))))
            × (titles 72 (codes "Revision: 2.0") ≡ some first)
            × (do_state u.screen.cols u.screen.count u.curr_state ≡ some (u.curr_state, state))
            × (u.curr_state ≡ [])
            × (u.resize_event_p ≡ false)
            × Ready u.screen
            × Shown u rows))
unfolding parse_rounds
read_fifo-Shown_example =
    read_fifo-Shown reads_state narrower 0 seen refl
      (record { sized = λ i. refl; lines = omega arith; cols = (omega arith, omega arith) })
      (record {
        ready = wide-Ready;
        lines = omega arith;
        cols = (omega arith, omega arith);
        count = omega arith;
        state = omega arith;
        revision = omega arith;
      })
