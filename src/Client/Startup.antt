-- ===== src/Client/Startup.antt =====
-- How the client starts: read_command_line of client/diald-top.c, and init_fifo of client/pipe.c.
pub mod CommandLine
pub mod Runs
use diald_top.Base.{
  ℕ, ◌==◌, ◌||◌, Bool, true, false, if◌then◌else◌, Option, none, some, ◌>>=◌, List, [], ◌∷◌, ◌++◌,
  ℤ, codes,
}
use diald_top.Client.Printf.{text, sprintf}
use diald_top.Client.Window.{fits}
use diald_top.Client.Pipe.{fifo_command}
use diald_top.Client.Rows.{packet_format, ip_width}
use diald_top.Client.Main.{Session, Answer, client_loop}
use diald_top.Client.Status.{linelength}

-- The globals that the options set. `remoteip` is that of `remotemode`, and `logfile` the name that
-- `input_file` was opened with, where it is not stderr.
pub record Options : Type 0 where
  pub quit_if_parse_error : ℕ
  pub numeric : ℕ
  pub trunc_local_hosts : ℕ
  pub control : List ℕ
  pub remoteip : Option (List ℕ)
  pub logfile : Option (List ℕ)

-- What is there before the options: CONTROL_FIFO of the build.
abbrev pub defaults : List ℕ → Options
defaults control_fifo = record {
  quit_if_parse_error = 0;
  numeric = 0;
  trunc_local_hosts = 0;
  control = control_fifo;
  remoteip = none;
  logfile = none;
}

-- A part of the client goes on, or exits with this status.
pub data Outcome {ℓ} (A : Type ℓ) : Type ℓ where
  goes_on : A → Outcome A
  exits : ℕ → Outcome A

-- The switch of read_command_line, on a letter that getopt returns and its argument, in a build with
-- gethostbyaddr and getdomainname and without YYDEBUG. `opens` is whether fopen succeeds.
unfoldable pub option : (opens : List ℕ → Bool) → ℕ → List ℕ → Options → Outcome Options
option opens opt optarg o =
    if opt == b'q'
    then goes_on (record o { quit_if_parse_error = 1 })
    else if opt == b'n'
    then goes_on (record o { numeric = 1 })
    else if opt == b'l'
    then goes_on (record o { trunc_local_hosts = 1 })
    else if opt == b'c'
    then goes_on (record o { control = optarg })
    else if opt == b'r'
    then goes_on (record o { remoteip = some optarg })
    else if opt == b'L'
    then (if opens optarg then goes_on (record o { logfile = some optarg }) else exits 1)
    else exits 2

-- The loop, on what getopt returns until its -1.
unfoldable pub options : (opens : List ℕ → Bool) → List (ℕ × List ℕ) → Options → Outcome Options
options opens [] o = goes_on o
options opens ((opt, optarg) ∷ opts) o = elim (option opens opt optarg o) [
  | exits n ↦ exits n
  | goes_on p ↦ options opens opts p
]

unfoldable pub read_command_line :
    (control_fifo : List ℕ) → (opens : List ℕ → Bool) → List (ℕ × List ℕ) → Outcome Options
read_command_line control_fifo opens opts = options opens opts (defaults control_fifo)

-- What the system answers to init_fifo: to inet_pton, bind and connect; to the opens of the control
-- and the monitor pipe; to select, whether the pipe is readable within 5 seconds; and to fdopen.
pub record Answers : Type 0 where
  pub remaddr : Bool
  pub binds : Bool
  pub connects : Bool
  pub opens_control : Bool
  pub opens_monitor : Bool
  pub readable : Bool
  pub fdopens : Bool

-- The calls that others can see: mknod and unlink of the monitor pipe, the connection to a server,
-- and a line written to the control descriptor.
pub data Call : Type 0 where
  mknods : List ℕ → Call
  connects_to : List ℕ → Call
  writes : List ℕ → Call
  unlinks : List ℕ → Call

-- The writes of fifo_command.
abbrev pub write_all : List (List ℕ) → List Call
write_all [] = []
write_all (line ∷ lines) = writes line ∷ write_all lines

unfoldable pub sends : List ℕ → List Call
sends command = write_all (fifo_command command).1

-- The end of init_fifo: its calls so far, and `format` where it goes on. A format that does not fit
-- its buffer is `none`.
abbrev pub Started : Type 0
Started = List Call × Outcome (Option (List ℕ))

unfoldable pub finish : Answers → ℤ → List Call → Started
finish a width calls =
    if a.fdopens then (calls, goes_on (packet_format width)) else (calls, exits 1)

-- With remotemode.
unfoldable pub init_remote : Answers → (remoteip : List ℕ) → ℤ → Started
init_remote a remoteip width =
    if a.remaddr
    then (if a.binds
        then (if a.connects
            then finish a width (connects_to remoteip ∷ sends (codes "monitor on"))
            else ([], exits 1))
        else ([], exits 1))
    else ([], exits 1)

-- Without it; `line` has 256 bytes, and `none` is a command behind them.
unfoldable pub init_local : Answers → (monitor : List ℕ) → ℤ → Option Started
init_local a monitor width =
    if a.opens_control
    then (if a.opens_monitor
        then (do
          line ← fits linelength (sprintf (codes "monitor %s") (text monitor ∷ []))
          let calls : List Call = mknods monitor ∷ sends line
          some (if a.readable then finish a width calls else (calls, exits 1)))
        else some (mknods monitor ∷ [], exits 1))
    else some ([], exits 1)

unfoldable pub init_fifo :
    Answers → (monitor : List ℕ) → (remoteip : Option (List ℕ)) → ℤ → Option Started
init_fifo a monitor remoteip width = elim remoteip [
  | some ip ↦ some (init_remote a ip width)
  | none ↦ init_local a monitor width
]

-- The part of main behind the options, on a terminal of so many columns: screen_init sets `ip_width`,
-- init_fifo starts the pipes, and the loop runs on these rounds. close_fifo, which unlinks the
-- monitor pipe, is an exit handler only once init_fifo has returned.
unfoldable pub run_client :
    Answers
    → (monitor : List ℕ) → (cols : ℕ) → List Answer
    → Options
    → Option (List Call × Outcome Session)
run_client a monitor cols rounds o = do
  (calls, started) ← init_fifo a monitor o.remoteip (ip_width cols)
  some (elim started [
    | exits n ↦ (calls, exits n)
    | goes_on format ↦
        let (over, s) = client_loop rounds (record {
          quit = 0;
          numeric = o.numeric;
          trunc_local_hosts = o.trunc_local_hosts;
          sent = [];
        }) in
        (calls ++ (write_all s.sent ++ (if over then unlinks monitor ∷ [] else [])), goes_on s)
  ])

-- main
unfoldable pub client_main :
    (control_fifo : List ℕ)
    → (opens : List ℕ → Bool) → List (ℕ × List ℕ)
    → Answers
    → (monitor : List ℕ) → (cols : ℕ) → List Answer
    → Option (List Call × Outcome Session)
client_main control_fifo opens opts a monitor cols rounds =
    elim (read_command_line control_fifo opens opts) [
      | exits n ↦ some ([], exits n)
      | goes_on o ↦ run_client a monitor cols rounds o
    ]
