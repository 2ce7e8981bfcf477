-- ===== src/Tests/Runs.antt =====
-- Tests of whole runs of the client, alone and with a server, and of client-lib/.
use diald_top.Base.{
  ℕ, ◌+◌, ◌%◌, ◌==◌, ℤ, negsuc, ◌≡◌, refl, true, false, arith, if◌then◌else◌, none, some, ◌⊎◌, List,
  [], ◌∷◌, ◌++◌, pos, inc, codes, All, get_elem?,
}
use diald_top.Client.Main.{Session, Answer, readable, client_loop}
use diald_top.Client.Main.Sends.{IsCommand}
use diald_top.Client.Startup.{
  Options, defaults, goes_on, exits, Answers, Call, unlinks, write_all, read_command_line,
  run_client,
}
use diald_top.Client.Startup.CommandLine.{Opts, outcome, says, read_command_line_lem}
use diald_top.Client.Startup.Runs.{opening, session, run_client_lem}
use diald_top.Server.Ports.{flag_monitor, raise, has_flag}
use diald_top.Server.Commands.{start_monitor}
use diald_top.Server.Invariant.{Inv}
use diald_top.Remote.{reads, lines_written}
use diald_top.Remote.Passed.{written}
use diald_top.Remote.Session.{run_client-reads}
use diald_top.ClientLib.Semaphores.{Semaphore, semaphore_create, semaphore_take}
use diald_top.ClientLib.Semaphores.Progress.{
  Turn, gives, goes_on as turns_on, turns, all_go_on, turns-done,
}
use diald_top.ClientLib.SystemV.{take, give, sys_create, sys_runs}
use diald_top.ClientLib.SystemV.Same.{runs_in_turn, as_semaphore, runs_in_turn-sys_runs}
use diald_top.ClientLib.SharedMemory.{
  librt, shmget, Buffer, null, failed, at, System, Held, shared_memory_get, shared_memory_remove,
  exits as held_at_exit,
}
use diald_top.ClientLib.SharedMemory.Released.{Op, get, remove, nothing, exits-runs}
use diald_top.Server.Fds.{fd_set, fd_zero}
use diald_top.Server.State.{Server}
use diald_top.Server.Main.{Round}
use diald_top.Server.Process.{Happens, round, interrupt, exits as process_exits}
use diald_top.Server.Process.Lives.{Lives}
use diald_top.Tests.{two, two-Inv, ann, pipe, connection, answers}

abbrev opts : Opts
opts = (b'n', []) ∷ (b'r', codes "10.0.0.2") ∷ (b'L', codes "/log") ∷ []

read_command_line_lem_example :
    read_command_line (codes "/ctl") (λ _. true) opts
    ≡ outcome (says opts (defaults (codes "/ctl"))) none
read_command_line_lem_example = read_command_line_lem (codes "/ctl") (λ _. true) opts

abbrev all_well : Answers
all_well = record {
  remaddr = true;
  binds = true;
  connects = true;
  opens_control = true;
  opens_monitor = true;
  readable = true;
  fdopens = true;
}

-- 'c' and a command, and then 'q'.
abbrev typed : List Answer
typed = readable (some (b'c', codes "Block")) (some true) ∷ readable (some (b'q', [])) none ∷ []

abbrev local : Options
local = defaults (codes "/ctl")

run_client_lem_example :
    ((true ≡ true)
      × ((lines : List (List ℕ)) × All IsCommand lines
          × (run_client all_well (codes "/tmp/m") 80 typed local
              ≡ some (
                opening none (codes "/tmp/m") all_well
                    ++ (write_all lines
                        ++ (if (client_loop typed (session local)).0
                            then unlinks (codes "/tmp/m") ∷ []
                            else [])),
                goes_on (client_loop typed (session local)).1,
              ))))
    ⊎ ((true ≡ false)
        × (run_client all_well (codes "/tmp/m") 80 typed local
            ≡ some (opening none (codes "/tmp/m") all_well, exits 1)))
run_client_lem_example = run_client_lem all_well (codes "/tmp/m") 80 typed local (omega arith)

abbrev remote : Options
remote = record local { remoteip = some (codes "10.0.0.2") }

-- ann, who has control access, and does not watch.
run_client-reads_example :
    (calls : List Call) × (u : Session) × (run_client all_well (codes "/tmp/m") 80 typed remote
      ≡ some (calls, goes_on u))
    × ((t : Server) × (reads pipe 0 (lines_written calls) two ≡ some t)
        × Inv t
        × (get_elem? t.pq 0 ≡ some (record ann { flag = raise 3 flag_monitor }))
        × (t.monitorcount ≡ inc two.monitorcount)
        × (t.trace ≡ written (some 5) u.sent (start_monitor pipe 0 ann two).trace))
unfolding has_flag
run_client-reads_example =
    run_client-reads all_well (codes "10.0.0.2") (codes "/tmp/m") 80 typed remote pipe 0 ann two
      (omega arith) refl refl two-Inv refl refl refl

runs_in_turn-sys_runs_example :
    runs_in_turn (take ∷ take ∷ give ∷ []) (semaphore_create (pos 1))
    ≡ as_semaphore (sys_runs (take ∷ take ∷ give ∷ []) (sys_create 1))
runs_in_turn-sys_runs_example = runs_in_turn-sys_runs 1 (take ∷ take ∷ give ∷ [])

-- Two threads wait; a give, a turn, and another give.
abbrev waiting_two : Semaphore
waiting_two = semaphore_take (semaphore_take (semaphore_create (pos 0)))

abbrev acts : List Turn
acts = gives ∷ turns_on ∷ gives ∷ []

turns-done_example :
    let t = turns (acts ++ all_go_on (turns acts waiting_two).woken) waiting_two in
    (t.waiting ≡ 0)
    × (t.woken ≡ 0)
    × (t.taken ≡ waiting_two.taken + waiting_two.woken + waiting_two.waiting)
unfolding semaphore_take semaphore_create
turns-done_example = turns-done acts waiting_two (omega arith)

-- mmap refuses an offset that is not a multiple of the page.
abbrev mmap_aligned : ℕ → ℕ → ℤ → Buffer
mmap_aligned size fd (pos offset) = if offset % 4096 == 0 then at 4096 else failed
mmap_aligned size fd (negsuc _) = failed

abbrev system : System
system = record {
  malloc = λ size. if size == 0 then null else at 512;
  shm_open = some 3;
  mmap = mmap_aligned;
  shmget = λ size. if size == 0 then none else some size;
  shmat = λ id. elim id [ none ↦ failed | some n ↦ at n ];
}

-- Two buffers are got, and a third time the system refuses; all are removed, not in their order.
abbrev three_buffers : List Op
three_buffers = get system 64 ∷ get system 128 ∷ get system 0 ∷ remove 1 ∷ remove 1 ∷ remove 0 ∷ []

-- What the program has at its exit: only the segments, and that they are to be destroyed.
abbrev before_exit : Held
before_exit = record nothing { segments = 128 ∷ 64 ∷ []; at_exit = none ∷ some 128 ∷ some 64 ∷ [] }

exits-runs_example : held_at_exit shmget before_exit ≡ nothing
unfolding shared_memory_get shared_memory_remove
exits-runs_example = exits-runs shmget three_buffers refl

-- With librt no memory is got: the descriptor stands where mmap has its offset.
unmapped : (shared_memory_get librt system 64 nothing).0 ≡ failed
unfolding shared_memory_get
unmapped = refl

-- The child that goes on serves one round, in which eve connects, and is then told to end.
abbrev first : Round
first = record {
  garbage = pos 0;
  ready = fd_set 3 fd_zero;
  result = pos 1;
  connection = connection;
  answers = answers;
  epipe = λ _. false;
  lines = [];
}

abbrev life : List Happens
life = round first ∷ interrupt ∷ []
