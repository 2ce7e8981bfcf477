-- ===== src/Client/Reports/Sound.antt =====
-- That the screen shows the packets of the last queue, report after report.
use diald_top.Base.{ℕ, ◌+◌, ◌*◌, ◌≤◌, ◌≡◌, sym, subst, arith, some, List, length, get_elem?}
use diald_top.Client.Screen.{Screen, head_lines}
use diald_top.Client.Screen.Display.{Reads}
use diald_top.Client.Rows.{Packet}
use diald_top.Client.Rows.Columns.{IsRow}
use diald_top.Client.Reports.Parses.{IsFine, queue_after, Acts, NoFlags}
use diald_top.Client.Refresh.{View}
use diald_top.Client.Reports.Keeps.{Safe, Screened, unchanged, act-Acted}
use diald_top.Client.Reports.{Report, status, load, interface, state, message, queue}

-- The screen shows these packets: they are counted, and each one that has a line there reads as its
-- row.
pub record Holds (w : ℕ) (packets : List Packet) (s : Screen) : Type 0 where
  pub count : s.count ≡ length packets
  pub rows :
      (k : ℕ) (p : Packet)
      → get_elem? packets k ≡ some p
      → k + head_lines ≤ s.lines
      → (line : List ℕ) × Reads s k line × IsRow w p line

-- Between two reports, where the last queue has had these packets.
pub record Sound (w n : ℕ) (packets : List Packet) (v : View) : Type 0 where
  pub safe : Safe w n v
  pub room : 36 + 2 * w ≤ v.screen.cols
  pub holds : Holds w packets v.screen

pub Safe-flags : (w n : ℕ) → NoFlags (λ packets v. Safe w n v)
Safe-flags w n packets v key block eof h = unchanged w n v h

pub Sound-flags : (w n : ℕ) → NoFlags (Sound w n)
Sound-flags w n packets v key block eof h = record {
  safe = unchanged w n v h.safe;
  room = h.room;
  holds = h.holds;
}

pub Safe-Acts :
    (w n : ℕ) (report : Report) (packets : List Packet) (v : View)
    → Safe w n v
    → IsFine n report
    → Acts (λ packets v. Safe w n v) report packets v
Safe-Acts w n report packets v h fine =
    let (t, draws, run, a) = act-Acted w n report v h fine in
    (t, draws, run, a.safe, a.state, a.resized, a.eof)

-- The same screen holds the same packets.
kept :
    (w n : ℕ) (packets : List Packet) (v t : View)
    → Sound w n packets v
    → Safe w n t
    → t.screen ≡ v.screen
    → Sound w n packets t
kept w n packets v t h safe same = record {
  safe = safe;
  room = subst (λ s. 36 + 2 * w ≤ s.cols) (sym same) h.room;
  holds = subst (Holds w packets) (sym same) h.holds;
}

Screened-Sound :
    (w n : ℕ) (report : Report) (packets : List Packet) (v t : View)
    → Sound w n packets v
    → Safe w n t
    → Screened w report v.screen t.screen
    → Sound w n (queue_after report packets) t
Screened-Sound w n (queue ps) packets v t h safe (count, lines, cols, rows) = record {
  safe = safe;
  room = omega (arith, h.room, cols);
  holds = record {
    count = count;
    rows = λ k p at lt. rows k p at (omega (arith, lt, lines)) h.room;
  };
}
Screened-Sound w n status packets v t h safe same = kept w n packets v t h safe same
Screened-Sound w n (load _ _) packets v t h safe same = kept w n packets v t h safe same
Screened-Sound w n (interface _ _ _) packets v t h safe same = kept w n packets v t h safe same
Screened-Sound w n (state _) packets v t h safe same = kept w n packets v t h safe same
Screened-Sound w n (message _) packets v t h safe same = kept w n packets v t h safe same

pub Sound-Acts :
    (w n : ℕ) (report : Report) (packets : List Packet) (v : View)
    → Sound w n packets v
    → IsFine n report
    → Acts (Sound w n) report packets v
Sound-Acts w n report packets v h fine =
    let (t, draws, run, a) = act-Acted w n report v h.safe fine in
    (
      t,
      draws,
      run,
      Screened-Sound w n report packets v t h a.safe a.screen,
      a.state,
      a.resized,
      a.eof,
    )
