-- ===== src/Tests/Printed.antt =====
-- A run of the tester, and one of YY_INPUT.
use diald_top.Base.{
  ℕ, ◌≡◌, refl, true, false, some, none, List, [], ◌∷◌, pos, codes, decimal, c_str, length, suc,
}
use diald_top.Client.Printf.{print_int}
use diald_top.Client.Lexer.Filled.{PipeRead, Fill, yy_nolog_input, log_line, yy_log_input, fills}
use diald_top.Client.Lexer.Filled.Delivers.{logged, seen, fills_lem}
use diald_top.Client.Tester.{
  RawPacket, load, state, message, queue, Heard, hears, blocks, ends, tester_loop,
}
use diald_top.Client.Tester.Ends.{has_end, transcript, tester_loop_lem}

abbrev web : RawPacket
web = record {
  protocol = codes "tcp";
  ip1 = codes "10.0.0.1";
  port1 = 1025;
  ip2 = codes "192.168.0.17";
  port2 = 80;
  ttl = codes "00:01:59";
}

abbrev heard : List Heard
heard =
    hears (state (codes "UP"))
    ∷ hears (load 7 8)
    ∷ hears (queue (web ∷ []))
    ∷ blocks
    ∷ ends
    ∷ hears (message (codes "late"))
    ∷ []

printed :
    transcript heard
    ≡ codes
        "State:  UP\nLoad: Tx = 7; Rx = 8\nParse Result = 0\n\nStart Queue\nPacket: Protocol = tcp; From = 10.0.0.1/1025; To = 192.168.0.17/80; TTL = 00:01:59\nEnd Queue\nParse Result = 0\n\nParse Result = 0\n\n"
unfolding decimal
printed = refl

tester_loop_lem_example :
    (has_end heard ≡ true → tester_loop (suc (length heard)) heard ≡ some (transcript heard))
    × (has_end heard ≡ false → (n : ℕ) → tester_loop n heard ≡ none)
tester_loop_lem_example = tester_loop_lem heard

-- Two reads of the pipe, of which the second is shorter, and then nothing more.
abbrev pipe_answers : List PipeRead
pipe_answers =
    record { ready = pos 1; read = some (codes "STATE\nUP\n"); begun = 70; time = 90 }
    ∷ record { ready = pos 1; read = some (codes "LOAD\n"); begun = 0; time = 95 }
    ∷ record { ready = pos 0; read = none; begun = 0; time = 0 }
    ∷ []

abbrev unread : Fill
unread = record {
  oldyyin = none;
  yyfd = 0;
  clock_start = 0;
  buf = [];
  result = 0;
  yacc_block = false;
  input_file = [];
}

-- The second line of the log has the end of the first read too, up to the NULs behind it.
logged_twice : logged 0 [] pipe_answers ≡ codes "20> STATE\nUP\n25> LOAD\n\nUP\n"
unfolding decimal log_line print_int c_str
logged_twice = refl

fills_lem_example :
    (seen (fills (yy_nolog_input 4) pipe_answers unread)
      ≡ some (codes "STATE\nUP\nLOAD\n", false, []))
    × (seen (fills (yy_log_input 4) pipe_answers unread)
        ≡ some (codes "STATE\nUP\nLOAD\n", false, logged 0 [] pipe_answers))
fills_lem_example = fills_lem 4 pipe_answers unread
