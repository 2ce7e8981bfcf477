-- ===== src/Client/Tester.antt =====
-- client/tester.c, and client/parser.c as it is built for it with TESTER: the reports are printed.
pub mod Prints
pub mod Ends
use diald_top.Base.{
  ℕ, zero, suc, Bool, true, false, if◌then◌else◌, Option, none, some, ◌>>=◌, List, [], ◌∷◌, ◌++◌,
  pos, codes,
}
use diald_top.Client.Printf.{Arg, text, number, sprintf}

-- The arguments of do_packet and of do_status.
pub record RawPacket : Type 0 where
  pub protocol : List ℕ
  pub ip1 : List ℕ
  pub port1 : ℕ
  pub ip2 : List ℕ
  pub port2 : ℕ
  pub ttl : List ℕ

pub record RawStatus : Type 0 where
  pub up : ℕ
  pub force : ℕ
  pub im : ℕ
  pub im_itm : ℕ
  pub im_tm : ℕ
  pub im_fuzz : ℕ
  pub im_to : List ℕ
  pub force_to : List ℕ
  pub to : List ℕ

-- A report, with the values of its tokens.
pub data RawReport : Type 0 where
  status : RawStatus → RawReport
  load : (itxtotal irxtotal : ℕ) → RawReport
  interface : (interface local_ip remote_ip : List ℕ) → RawReport
  state : List ℕ → RawReport
  message : List ℕ → RawReport
  queue : List RawPacket → RawReport

abbrev int : ℕ → Arg
int n = number (pos n)

unfoldable pub print_packet : RawPacket → Option (List ℕ)
print_packet p =
    sprintf (codes "Packet: Protocol = %s; From = %s/%d; To = %s/%d; TTL = %s\n")
      (text p.protocol ∷ text p.ip1 ∷ int p.port1 ∷ text p.ip2 ∷ int p.port2 ∷ text p.ttl ∷ [])

unfoldable pub print_packets : List RawPacket → Option (List ℕ)
print_packets [] = some []
print_packets (p ∷ ps) = do first ← print_packet p; rest ← print_packets ps; some (first ++ rest)

-- What do_status to do_endqueue print for one report.
unfoldable pub print_report : RawReport → Option (List ℕ)
print_report (status s) =
    sprintf
      (codes
        "Status:  up = %d; force = %d; im = %d; im_itm = %d; im_tm = %d;\n\tim_fuzz = %d; im_to = %s; force_to = %s; to = %s\n")
      (int s.up
        ∷ int s.force
        ∷ int s.im
        ∷ int s.im_itm
        ∷ int s.im_tm
        ∷ int s.im_fuzz
        ∷ text s.im_to
        ∷ text s.force_to
        ∷ text s.to
        ∷ [])
print_report (load itxtotal irxtotal) =
    sprintf (codes "Load: Tx = %d; Rx = %d\n") (int itxtotal ∷ int irxtotal ∷ [])
print_report (interface name local_ip remote_ip) =
    sprintf (codes "Interface: IF = %s; Local IP = %s; Remote IP = %s\n")
      (text name ∷ text local_ip ∷ text remote_ip ∷ [])
print_report (state t) = sprintf (codes "State:  %s\n") (text t ∷ [])
print_report (message t) = sprintf (codes "Message:  %s\n") (text t ∷ [])
print_report (queue packets) = do
  rows ← print_packets packets
  some (codes "Start Queue\n" ++ (rows ++ codes "End Queue\n"))

-- What the lexer comes upon, as in Client/Reports.antt.
pub data Heard : Type 0 where
  hears : RawReport → Heard
  blocks : Heard
  ends : Heard

-- With TESTER lex_testkey returns 0, so that YYACCEPT comes after a load only.
abbrev pub accepted : RawReport → Bool
accepted (load _ _) = true
accepted _ = false

-- The scanner never comes to the end of an empty text of a message.
abbrev pub scanned : RawReport → Bool
scanned (message []) = false
scanned _ = true

-- One yyparse, `none` for one that never returns: what it prints, whether it has set yacc_eof, and what is left.
unfoldable pub test_parse : List Heard → Option (List ℕ × Bool × List Heard)
test_parse [] = some ([], false, [])
test_parse (blocks ∷ heard) = some ([], false, heard)
test_parse (ends ∷ heard) = some ([], true, heard)
test_parse (hears report ∷ heard) =
    if scanned report
    then (do
      first ← print_report report
      if accepted report
          then some (first, false, heard)
          else do (rest, eof, left) ← test_parse heard; some (first ++ rest, eof, left))
    else none

abbrev pub parse_result : List ℕ
parse_result = codes "Parse Result = 0\n\n"

-- The loop `while (!yacc_eof)` with so many rounds; `none` is one that goes on. yyparse returns 0, as
-- it does after YYACCEPT and at the end of the file.
unfoldable pub tester_loop : ℕ → List Heard → Option (List ℕ)
tester_loop zero heard = none
tester_loop (suc n) heard = do
  (out, eof, left) ← test_parse heard
  if eof
      then some (out ++ parse_result)
      else do rest ← tester_loop n left; some (out ++ (parse_result ++ rest))
