-- ===== src/Server/Monitor.antt =====
-- monitor_open, monitor_close and fifo_server of server/fifo-server.c: the pipe that diald writes to.
pub mod Keeps
use diald_top.Base.{
  ℕ, ◌==◌, if◌then◌else◌, Option, none, some, List, [], ◌∷◌, ◌++◌, ℤ, pos, minus_one, codes,
}
use diald_top.Server.Fds.{fd_zero, fd_set, ThreadFds}
use diald_top.Server.State.{Descriptor, Event, Server, emit, with_fs}

-- What the system answers to monitor_open: tmpnam's name, and the descriptor of the pipe.
pub record PipeAnswer : Type 0 where
  pub name : List ℕ
  pub fd : Descriptor

abbrev pub command_line : List ℕ → List ℕ
command_line name = codes "monitor " ++ (name ++ codes "\n")

-- `fds->fs` once the pipe is open on `fd`.
abbrev watching : ℕ → ThreadFds → ThreadFds
watching fd t = record t { fullcount = pos 1; full = fd_set fd fd_zero; maxfd = pos fd }

unfoldable pub monitor_open : PipeAnswer → Server → Server
monitor_open a s = elim s.monitorfd [
  | some open_already ↦ s
  | none ↦
      let made = emit (Event.mknods a.name) (record s { monitor = a.name; monitorfd = a.fd }) in
      elim a.fd [
        | none ↦ made
        | some fd ↦
            with_fs (watching fd s.fds.fs)
              (emit (Event.writes s.controlfd (command_line a.name)) made)
      ]
]

-- `fds->fs` once the pipe is closed.
abbrev idle : ThreadFds → ThreadFds
idle t = record t {
  fullcount = pos 0;
  selcount = pos 0;
  full = fd_zero;
  sel = fd_zero;
  maxfd = minus_one;
}

unfoldable pub monitor_close : Server → Server
monitor_close s = elim s.monitorfd [
  | none ↦ s
  | some fd ↦
      with_fs (idle s.fds.fs)
        (emit (Event.unlinks s.monitor) (emit (Event.closes fd) (record s { monitorfd = none })))
]
