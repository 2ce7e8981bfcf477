-- ===== src/Tests/Reports.antt =====
-- Tests of the reports of diald, as the client takes them in.
use diald_top.Base.{
  ℕ, ◌≤◌, none, All, subst, ◌≡◌, refl, true, false, arith, some, List, [], ◌∷◌, ◌++◌, pos, codes,
  ◌⊎◌,
}
use diald_top.Client.Window.{Draw, erases_sub}
use diald_top.Client.Rows.Columns.{packet_format-format_of}
use diald_top.Client.Status.{do_state}
use diald_top.Client.Refresh.{View, read_fifo}
use diald_top.Client.Reports.{
  status, load, interface, state, message, queue, Input, arrives, blocks, ends, yyparse,
}
use diald_top.Client.Reports.Parses.{IsFineInput}
use diald_top.Client.Reports.Keeps.{Safe}
use diald_top.Client.Reports.Sound.{Sound}
use diald_top.Client.Main.{client_loop}
use diald_top.Client.Running.{ready, failed, Turn, Client, main_loop}
use diald_top.Client.Running.Rounds.{FitsAt, SafeClient}
use diald_top.Client.Running.Keeps.{answers, main_loop-Safe}
use diald_top.Client.Lexer.{message_word, newline, string, initial, in_message, yylexes}
use diald_top.Client.Lexer.Messages.{at_line, strings, yylexes_message}
use diald_top.Client.Reports.Read.{Lists, read_fifo-Lists}
use diald_top.Tests.Screens.{wide-Ready, web, web-IsPlain, seen, narrower}

abbrev before : View
before = record seen { curr_state = codes "DOWN"; resize_event_p = false }

-- The end of the pipe is left for the next time.
abbrev left_over : List Input
left_over = ends ∷ []

-- Two parses: the first ends after the load, and the second has to wait.
abbrev inputs : List Input
inputs =
    arrives status (pos 0)
    ∷ arrives (interface (codes "ppp0") (codes "10.0.0.1") (codes "192.168.0.17")) (pos 0)
    ∷ arrives (state (codes "UP")) (pos 0)
    ∷ arrives (queue (web ∷ web ∷ [])) (pos 0)
    ∷ arrives (load 7 8) (pos 0)
    ∷ arrives (message (codes "Dialling")) (pos 0)
    ∷ arrives (queue (web ∷ [])) (pos 0)
    ∷ blocks
    ∷ left_over

before-Safe : (n : ℕ) → n ≤ 72 → Safe 22 n before
before-Safe n le = record {
  good = record {
    ready = wide-Ready;
    lines = omega arith;
    cols = (omega arith, omega arith);
    count = omega arith;
    state = omega arith;
    revision = omega arith;
  };
  format = packet_format-format_of 22 (omega arith);
  narrow = omega arith;
  wide = omega arith;
}

inputs-fine : (n : ℕ) → 56 ≤ n → All (IsFineInput n) inputs
inputs-fine n le = (
  tt,
  (
    omega arith,
    (
      omega arith,
      (
        ((web-IsPlain, (web-IsPlain, tt)), omega arith),
        (tt, (omega arith, (((web-IsPlain, tt), omega arith), (tt, (tt, tt))))),
      ),
    ),
  ),
)

read_fifo-Lists_example :
    ((false ≡ true)
      × ((u : View) × (draws : List Draw) × (read_fifo yyparse narrower inputs before
            ≡ some (false, left_over, u, draws))))
    ⊎ ((false ≡ false)
        × ((u : View) × (parsed : List Draw) × (state : List Draw) × (rows : List Draw) × (read_fifo
                yyparse narrower inputs before
              ≡ some (true, left_over, u, parsed ++ (state ++ erases_sub ∷ rows)))
            × (do_state u.screen.cols u.screen.count (codes "UP") ≡ some (u.curr_state, state))
            × Lists 22 u.screen.lines (web ∷ []) rows
            × Sound 22 70 (web ∷ []) u))
read_fifo-Lists_example =
    read_fifo-Lists 22 70 [] inputs narrower before
      (record {
        safe = before-Safe 70 (omega arith);
        room = omega arith;
        holds = record { count = refl; rows = λ k p at lt. absurd (cc at) };
      })
      (inputs-fine 70 (omega arith)) refl

-- The reports are read; then the terminal changes its size, and the pipe is at its end.
abbrev rounds : List Turn
rounds =
    record { winch = none; seen = ready (some (b'n', [])) true }
    ∷ record { winch = some narrower; seen = failed }
    ∷ record { winch = none; seen = ready none true }
    ∷ []

abbrev running : Client
running = record {
  session = record { quit = 0; numeric = 0; trunc_local_hosts = 0; sent = [] };
  view = before;
  terminal = narrower;
  inputs = inputs;
}

narrower-Fits : FitsAt 60 narrower
narrower-Fits = (
  record { sized = λ i. refl; lines = omega arith; cols = (omega arith, omega arith) },
  omega arith,
)

main_loop-Safe_example :
    (u : Client) × (draws : List Draw) × (main_loop rounds running
      ≡ some ((client_loop (answers rounds running) running.session).0, u, draws))
    × (u.session ≡ (client_loop (answers rounds running) running.session).1)
    × SafeClient 22 60 u
main_loop-Safe_example =
    main_loop-Safe 22 60 rounds running
      (record {
        view = before-Safe 60 (omega arith);
        inputs = inputs-fine 60 (omega arith);
        terminal = narrower-Fits;
      })
      (
        λ w e. absurd (cc e),
        (λ w e. subst (FitsAt 60) (cc e) narrower-Fits, (λ w e. absurd (cc e), tt)),
      )
      (refl, (tt, (refl, tt)))

yylexes_message_example :
    (yylexes 4 (at_line initial (codes "MESSAGE\nDialling\nSTATE\n"))
      ≡ some (
        message_word ∷ newline ∷ string (codes "Dialling") ∷ newline ∷ [],
        at_line initial (codes "STATE\n"),
      ))
    × (yylexes 5 (at_line initial (codes "MESSAGE\n\nSTATE\n"))
        ≡ some (message_word ∷ newline ∷ strings 3, at_line in_message (codes "\nSTATE\n")))
yylexes_message_example =
    yylexes_message b'D' (codes "ialling") (codes "STATE\n") 3
      (refl, (refl, (refl, (refl, (refl, (refl, (refl, (refl, tt))))))))
