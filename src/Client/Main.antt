-- ===== src/Client/Main.antt =====
-- The main loop of client/diald-top.c, and parse_keyboard of client/screen.c.
pub mod Sends
pub mod Ends
use diald_top.Base.{
  ℕ, ◌-◌, ◌==◌, Bool, true, false, if◌then◌else◌, Option, none, some, List, [], ◌∷◌, ◌++◌,
}
use diald_top.Client.Pipe.{validate_command, fifo_command}

-- The globals that the keys change: `quit`, `numeric` and `trunc_local_hosts`, each 0 or 1; with the
-- lines written to the control FIFO so far.
pub record Session : Type 0 where
  pub quit : ℕ
  pub numeric : ℕ
  pub trunc_local_hosts : ℕ
  pub sent : List (List ℕ)

-- The case of 'c', with the line that get_command has read. Whether its buffer has room for the line is
-- seen to in Client/Running.antt.
unfoldable pub send_command : List ℕ → Session → Session
send_command line s = record s { sent = s.sent ++ (fifo_command (validate_command line)).1 }

-- A build with gethostbyaddr and getdomainname, and without YYDEBUG.
unfoldable pub parse_keyboard : (key : ℕ) → List ℕ → Session → Session
unfolding send_command
parse_keyboard key line s =
    if key == b'q'
    then record s { quit = 1 }
    else if key == b'c'
    then send_command line s
    else if key == b'n'
    then record s { numeric = 1 - s.numeric }
    else if key == b'l'
    then record s { trunc_local_hosts = 1 - s.trunc_local_hosts }
    else s

-- What select(2) answers in one round: that it failed; that there is an error on the keyboard or on
-- the pipe; or else the key that is there, with the line that follows it, and what read_fifo returns
-- if the pipe is readable, `false` for -1.
pub data Answer : Type 0 where
  interrupted : Answer
  broken : Answer
  readable : Option (ℕ × List ℕ) → Option Bool → Answer

abbrev keys : Option (ℕ × List ℕ) → Session → Session
keys none s = s
keys (some (key, line)) s = parse_keyboard key line s

-- The body of the loop: the session, and whether the loop is left by its break.
unfoldable pub client_round : Answer → Session → Bool × Session
unfolding parse_keyboard
client_round interrupted s = (false, s)
client_round broken s = (false, record s { quit = 1 })
client_round (readable key none) s = (false, keys key s)
client_round (readable key (some true)) s = (false, keys key s)
client_round (readable key (some false)) s = (true, keys key s)

-- The loop on these answers: the session, and whether it has come to its end.
unfoldable pub client_loop : List Answer → Session → Bool × Session
unfolding client_round
client_loop [] s = (if s.quit == 0 then false else true, s)
client_loop (a ∷ rounds) s =
    let (left, t) = client_round a s in
    let rest = client_loop rounds t in
    if s.quit == 0 then (if left then (true, t) else rest) else (true, s)
