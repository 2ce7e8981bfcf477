-- ===== src/Client/Reports.antt =====
-- The actions of client/monitor.y: the reports of diald, once they are parsed, as calls of
-- client/parser.c.
pub mod Parses
pub mod Keeps
pub mod Sound
pub mod Parsed
pub mod Read
use diald_top.Base.{
  ℕ, zero, suc, Bool, true, false, if◌then◌else◌, Option, none, some, ◌>>=◌, List, [], ◌∷◌, ◌++◌, ℤ,
  pos, negsuc,
}
use diald_top.Client.Window.{Draw, erases_sub}
use diald_top.Client.Screen.{do_queue}
use diald_top.Client.Rows.{Packet, show_packets}
use diald_top.Client.Status.{do_interface, do_state, do_message, do_load}
use diald_top.Client.Refresh.{View, Parser}

-- A `blurb` with the values of its tokens, once it is there as a whole. The numbers and times of a
-- status are left out, because do_status does not look at them. The packets of a queue have the names
-- that resolve and service return; those of a queue that ends with an error are the ones before it.
pub data Report : Type 0 where
  status : Report
  load : (itxtotal irxtotal : ℕ) → Report
  interface : (interface local_ip remote_ip : List ℕ) → Report
  state : List ℕ → Report
  message : List ℕ → Report
  queue : List Packet → Report

-- The actions of one blurb, and what they draw.
unfoldable pub act : Report → View → Option (View × List Draw)
act status v = some (v, [])
act (load itxtotal irxtotal) v = some (record v { loads = do_load itxtotal irxtotal v.loads }, [])
act (interface name local_ip remote_ip) v = do
  draws ← do_interface v.screen.cols name local_ip remote_ip
  some (v, draws)
act (state text) v = do
  (curr_state, draws) ← do_state v.screen.cols v.screen.count text
  some (record v { curr_state = curr_state }, draws)
act (message text) v = do draws ← do_message v.screen.cols text; some (v, draws)
act (queue packets) v = do
  empty ← do_queue v.screen
  screen ← show_packets v.format packets empty
  some (record v { screen = screen }, erases_sub ∷ [])

-- Whether lex_testkey returns true; select(2) has answered this.
abbrev pub testkey : ℤ → Bool
testkey (pos zero) = false
testkey (pos (suc _)) = true
testkey (negsuc _) = true

-- Whether the parser ends with YYACCEPT after the blurb.
abbrev pub accepts : Report → ℤ → Bool
accepts (load _ _) ready = true
accepts _ ready = testkey ready

-- What the lexer comes upon: the tokens of a report, with what select(2) then answers for the keyboard;
-- that select(2) on the pipe has timed out, or read(2) has failed; or that read(2) has returned 0.
pub data Input : Type 0 where
  arrives : Report → ℤ → Input
  blocks : Input
  ends : Input

-- Whether the scanner comes to the end of the report: in the text of a message that is empty it does not.
abbrev pub scans : Report → Bool
scans (message []) = false
scans _ = true

-- One call, with what is left for the next one; `none` is a fault, or a call that never returns. Where nothing more is to come, select(2) times out; the
-- lexer asks read(2) again after an end of file.
unfoldable pub yyparse : Parser (List Input)
yyparse [] v = some ([], record v { yacc_block = true }, [])
yyparse (blocks ∷ inputs) v = some (inputs, record v { yacc_block = true }, [])
yyparse (ends ∷ inputs) v = some (inputs, record v { yacc_block = false; yacc_eof = true }, [])
yyparse (arrives report ready ∷ inputs) v =
    if scans report
    then (do
      (acted, draws) ← act report v
      let t = record acted { yacc_key = ready; yacc_block = false }
      if accepts report ready
          then some (inputs, t, draws)
          else do (left, u, more) ← yyparse inputs t; some (left, u, draws ++ more))
    else none
