-- ===== src/Client/Running.antt =====
-- The main loop of client/diald-top.c with read_fifo and the parser: the whole client, once it has
-- started.
pub mod Rounds
pub mod Keeps
use diald_top.Base.{
  ℕ, Bool, true, false, not, ◌||◌, ltb, length, ◌==◌, if◌then◌else◌, Option, none, some, ◌>>=◌,
  List, [], ◌∷◌, ◌++◌,
}
use diald_top.Client.Window.{Draw}
use diald_top.Client.Main.{Session, Answer, client_round}
use diald_top.Client.Refresh.{View, Terminal, handlesig_winch, read_fifo}
use diald_top.Client.Reports.{Input, yyparse}

-- What select(2) answers: that it failed; that there is an error; or else the key that is there with its
-- line, and whether the pipe is readable.
pub data Seen : Type 0 where
  failed : Seen
  wrong : Seen
  ready : Option (ℕ × List ℕ) → Bool → Seen

-- One round. Before select(2) answers, the terminal may have changed its size, with a SIGWINCH.
pub record Turn : Type 0 where
  pub winch : Option Terminal
  pub seen : Seen

-- The client, the terminal, and what is still to come through the pipe.
pub record Client : Type 0 where
  pub session : Session
  pub view : View
  pub terminal : Terminal
  pub inputs : List Input

abbrev pub signalled : Option Terminal → Client → Client
signalled none c = c
signalled (some terminal) c = record c { terminal = terminal; view = handlesig_winch c.view }

-- The session after a round in which select(2) and read_fifo have answered this.
abbrev pub answered : Answer → Client → Option (Bool × Client × List Draw)
answered a c =
    let (left, session) = client_round a c.session in
    some (left, record c { session = session }, [])

-- `line` of parse_keyboard has so many bytes.
abbrev pub line_size : ℕ
line_size = 256

-- get_command does not look how much is typed: whether the line and its NUL fit. No other key reads one.
abbrev pub typed_fits : Option (ℕ × List ℕ) → Bool
typed_fits none = true
typed_fits (some (key, line)) = not (key == b'c') || ltb (length line) line_size

unfoldable pub read_round : Option (ℕ × List ℕ) → Bool → Client → Option (Bool × Client × List Draw)
read_round key false c = answered (Answer.readable key none) c
read_round key true c = do
  (going, inputs, view, draws) ← read_fifo yyparse c.terminal c.inputs c.view
  let (left, session) = client_round (Answer.readable key (some going)) c.session
  some (left, record c { session = session; view = view; inputs = inputs }, draws)

-- The body of the loop: whether it is left by its break, and what is drawn; `none` is a fault, or a
-- round that never ends. The keys are read before the pipe, but no report depends on them.
unfoldable pub select_round : Seen → Client → Option (Bool × Client × List Draw)
unfolding read_round
select_round failed c = answered Answer.interrupted c
select_round wrong c = answered Answer.broken c
select_round (ready key piped) c = if typed_fits key then read_round key piped c else none

-- The loop on these rounds: whether it has come to its end, the client, and what it has drawn.
unfoldable pub main_loop : List Turn → Client → Option (Bool × Client × List Draw)
main_loop [] c = some (if c.session.quit == 0 then false else true, c, [])
main_loop (t ∷ turns) c =
    if c.session.quit == 0
    then (do
      (left, d, draws) ← select_round t.seen (signalled t.winch c)
      if left
          then some (true, d, draws)
          else do (over, last, more) ← main_loop turns d; some (over, last, draws ++ more))
    else some (true, c, [])
