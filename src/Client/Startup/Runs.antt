-- ===== src/Client/Startup/Runs.antt =====
-- What the client writes in a whole run, from its options to its end.
use mathlib.Core.List.{append-nil}
use diald_top.Base.{
  ℕ, ◌<◌, ◌≡◌, ◌==◌, ◌&&◌, Bool, true, false, if◌then◌else◌, Option, none, some, List, [], ◌∷◌,
  ◌++◌, refl, ap, sym, subst, arith, Bool-cases, Option-cases, inl, inr, ◌⊎◌, codes, ℤ, All, length,
}
use diald_top.Client.Printf.{text, sprintf, print, format_step, convert}
use diald_top.Client.Printf.Fields.{pad_plain}
use diald_top.Client.Pipe.{fifo_command}
use diald_top.Client.Rows.{packet_format, ip_width}
use diald_top.Client.Rows.Columns.{fits_lem}
use diald_top.Client.Main.{Session, Answer, client_loop}
use diald_top.Client.Main.Sends.{IsCommand, client_loop-Sends}
use diald_top.Client.Startup.CommandLine.{Opts, fault, says, read_command_line_lem}
use diald_top.Client.Startup.{
  defaults, client_main, Options, goes_on, exits, Answers, Call, mknods, connects_to, writes,
  unlinks, write_all, sends, finish, init_remote, init_local, init_fifo, run_client,
}

sends_line :
    (command : List ℕ)
    → (length command == 0) ≡ false
    → sends command ≡ writes (command ++ codes "\n") ∷ []
unfolding sends fifo_command
sends_line command e = rw e refl

-- The line that asks diald for its reports: diald itself for a pipe, a server by the word alone.
abbrev pub monitor_request : (remoteip : Option (List ℕ)) → (monitor : List ℕ) → List ℕ
monitor_request none monitor = codes "monitor " ++ (monitor ++ codes "\n")
monitor_request (some ip) monitor = codes "monitor on\n"

-- What has been done when it returns or exits.
abbrev pub opening : Option (List ℕ) → (monitor : List ℕ) → Answers → List Call
opening none monitor a =
    if a.opens_control
    then mknods monitor
      ∷ (if a.opens_monitor then writes (monitor_request none monitor) ∷ [] else [])
    else []
opening (some ip) monitor a =
    if a.remaddr && (a.binds && a.connects)
    then connects_to ip ∷ writes (monitor_request (some ip) monitor) ∷ []
    else []

-- Whether init_fifo gets to the end.
abbrev pub starts : Option (List ℕ) → Answers → Bool
starts none a = a.opens_control && (a.opens_monitor && (a.readable && a.fdopens))
starts (some ip) a = a.remaddr && (a.binds && (a.connects && a.fdopens))

sprintf-monitor :
    (monitor : List ℕ)
    → sprintf (codes "monitor %s") (text monitor ∷ []) ≡ some (codes "monitor " ++ monitor)
unfolding sprintf print format_step convert
sprintf-monitor monitor =
    rw (pad_plain false monitor) (ap (λ t. some (codes "monitor " ++ t)) (append-nil monitor))

init_remote_lem :
    (a : Answers) (ip monitor : List ℕ) (width : ℤ)
    → init_remote a ip width ≡ (
      opening (some ip) monitor a,
      if starts (some ip) a then goes_on (packet_format width) else exits 1,
    )
unfolding init_remote finish
init_remote_lem a ip monitor width = elim (Bool-cases a.remaddr) [
  | inr e ↦ rw (e, init_remote) refl
  | inl e ↦ elim (Bool-cases a.binds) [
    | inr f ↦ rw (e, f, init_remote) refl
    | inl f ↦ elim (Bool-cases a.connects) [
      | inr g ↦ rw (e, f, g, init_remote) refl
      | inl g ↦
          rw (e, f, g, init_remote, sends_line (codes "monitor on") refl)
            (elim (Bool-cases a.fdopens) [
              | inl h ↦ rw (h, finish) refl
              | inr h ↦ rw (h, finish) refl
            ])
    ]
  ]
]

init_local_lem :
    (a : Answers) (monitor : List ℕ) (width : ℤ)
    → length monitor < 248
    → init_local a monitor width
      ≡ some
          (opening none monitor a, if starts none a then goes_on (packet_format width) else exits 1)
unfolding init_local finish
init_local_lem a monitor width short = elim (Bool-cases a.opens_control) [
  | inr e ↦ rw (e, init_local) refl
  | inl e ↦ elim (Bool-cases a.opens_monitor) [
    | inr f ↦ rw (e, f, init_local) refl
    | inl f ↦
        let line =
          fits_lem 256 _ (codes "monitor " ++ monitor) (sprintf-monitor monitor) (omega arith) in
        let something : (length (codes "monitor " ++ monitor) == 0) ≡ false = ground arith in
        rw (e, f, line, sends_line (codes "monitor " ++ monitor) something, init_local)
          (elim (Bool-cases a.readable) [
            | inr g ↦ rw g refl
            | inl g ↦ rw g (elim (Bool-cases a.fdopens) [
              | inl h ↦ rw (h, finish) refl
              | inr h ↦ rw (h, finish) refl
            ])
          ])
  ]
]

pub init_fifo_lem :
    (a : Answers) (monitor : List ℕ) (remoteip : Option (List ℕ)) (width : ℤ)
    → length monitor < 248
    → init_fifo a monitor remoteip width
      ≡ some (
        opening remoteip monitor a,
        if starts remoteip a then goes_on (packet_format width) else exits 1,
      )
unfolding init_fifo
init_fifo_lem a monitor none width short = init_local_lem a monitor width short
init_fifo_lem a monitor (some ip) width short = ap some (init_remote_lem a ip monitor width)

-- The session that main begins with.
abbrev pub session : Options → Session
session o = record {
  quit = 0;
  numeric = o.numeric;
  trunc_local_hosts = o.trunc_local_hosts;
  sent = [];
}

-- Either all that init_fifo needs is there, and then the client asks for the reports, writes after
-- that only commands of the table, and unlinks the monitor pipe when its loop has ended; or it exits
-- with 1 after what it has done so far, and leaves the pipe where it has made it.
pub run_client_lem :
    (a : Answers) (monitor : List ℕ) (cols : ℕ) (rounds : List Answer) (o : Options)
    → length monitor < 248
    → ((starts o.remoteip a ≡ true)
        × ((lines : List (List ℕ)) × All IsCommand lines
            × (run_client a monitor cols rounds o
                ≡ some (
                  opening o.remoteip monitor a
                      ++ (write_all lines
                          ++ (if (client_loop rounds (session o)).0
                              then unlinks monitor ∷ []
                              else [])),
                  goes_on (client_loop rounds (session o)).1,
                ))))
      ⊎ ((starts o.remoteip a ≡ false)
          × (run_client a monitor cols rounds o ≡ some (opening o.remoteip monitor a, exits 1)))
unfolding run_client
run_client_lem a monitor cols rounds o short =
    let opened = init_fifo_lem a monitor o.remoteip (ip_width cols) short in
    elim (Bool-cases (starts o.remoteip a)) [
      | inr fails ↦ inr (fails, rw (opened, fails, run_client) refl)
      | inl starts_up ↦
          let sent = client_loop-Sends rounds (session o) in
          inl (
            starts_up,
            (
              (client_loop rounds (session o)).1.sent,
              subst (All IsCommand) (sym sent.later) sent.known,
              rw (opened, starts_up, run_client) refl,
            ),
          )
    ]

-- main: a fault among the options ends it before it does anything; else it runs with what the
-- options say.
client_main_lem :
    (control_fifo : List ℕ) (opens : List ℕ → Bool) (opts : Opts) (a : Answers) (monitor : List ℕ)
    (cols : ℕ) (rounds : List Answer)
    → ((n : ℕ) × (fault opens opts ≡ some n)
        × (client_main control_fifo opens opts a monitor cols rounds ≡ some ([], exits n)))
      ⊎ ((fault opens opts ≡ none)
          × (client_main control_fifo opens opts a monitor cols rounds
              ≡ run_client a monitor cols rounds (says opts (defaults control_fifo))))
unfolding client_main
client_main_lem control_fifo opens opts a monitor cols rounds =
    let read = read_command_line_lem control_fifo opens opts in
    elim (Option-cases (fault opens opts)) [
      | inr (n, e) ↦ inl (n, e, rw (read, e, client_main) refl)
      | inl e ↦ inr (e, rw (read, e, client_main) refl)
    ]
