-- ===== src/Server/Main.antt =====
-- server/diald-top-server.c: the start of the server, its main loop, and SIGHUP; with
-- port_daemon_init, port_server_init and fifo_server_init.
pub mod Selected
pub mod Reach
use diald_top.Base.{
  ℕ, Bool, true, false, if◌then◌else◌, Option, none, some, List, [], ℤ, pos, minus_one, eqb_ℤ,
}
use diald_top.Server.Fds.{FdSet, fd_zero, fd_set, ThreadFds, Fds}
use diald_top.Server.State.{Descriptor, Server}
use diald_top.Server.Select.{do_select}
use diald_top.Server.Auth.{Token, read_conf}
use diald_top.Server.PortServer.{Answers, port_server}
use diald_top.Server.Fifo.{Failures, fifo_server}
use diald_top.Server.Daemon.{Connection, port_daemon}

-- What port_daemon_init returns, once `fd` is bound to port 1313 and listens.
unfoldable pub port_daemon_init : ℕ → ThreadFds
port_daemon_init fd = record {
  fullcount = pos 1;
  full = fd_set fd fd_zero;
  maxfd = pos fd;
  selcount = pos 0;
  sel = fd_zero;
}

unfoldable pub port_server_init : ThreadFds
port_server_init = record {
  fullcount = pos 0;
  full = fd_zero;
  maxfd = minus_one;
  selcount = pos 0;
  sel = fd_zero;
}

unfoldable pub fifo_server_init : ThreadFds
fifo_server_init = record {
  fullcount = pos 0;
  full = fd_zero;
  maxfd = minus_one;
  selcount = pos 0;
  sel = fd_zero;
}

-- A global in the data segment.
abbrev zeroed : ThreadFds
zeroed = record {
  fullcount = pos 0;
  full = fd_zero;
  maxfd = pos 0;
  selcount = pos 0;
  sel = fd_zero;
}

-- The globals before the configuration is read.
abbrev pub booted : ℕ → Descriptor → Server
booted fd control = record {
  fds = record { pd = port_daemon_init fd; ps = port_server_init; fs = fifo_server_init };
  muxedfds = zeroed;
  pq = [];
  aq = [];
  controlfd = control;
  monitorfd = none;
  monitorcount = pos 0;
  monitor = [];
  trace = [];
}

-- `main` up to its loop. `listener` is the bound socket, `none` where bind fails; `control` is what
-- the open of the control FIFO returns. The result is `none` where the server exits.
unfoldable pub start : Option ℕ → Descriptor → Option (List Token) → Option Server
unfolding read_conf
start listener control file = elim listener [
  | none ↦ none
  | some fd ↦ read_conf file (booted fd control)
]

-- What happens in one round of the loop: the stack slot of `count`, the answer of select(2), and
-- the answers to the calls of the three servers.
pub record Round : Type 0 where
  pub garbage : ℤ
  pub ready : FdSet
  pub result : ℤ
  pub connection : Connection
  pub answers : Answers
  pub epipe : Failures
  pub lines : List (List ℕ)

abbrev pub selected : Round → Server → Server
selected r s =
    let (fds, muxed) = do_select r.garbage r.ready r.result s.fds s.muxedfds in
    record s { fds = fds; muxedfds = muxed }

-- `if (selcount) call();`
abbrev pub when : ℤ → (Server → Option Server) → Server → Option Server
when selcount call s = if eqb_ℤ selcount (pos 0) then some s else call s

infixl 5 ◌>>=◌
abbrev pub ◌>>=◌ : Option Server → (Server → Option Server) → Option Server
none >>= f = none
some s >>= f = f s

unfoldable pub main_round : Round → Server → Option Server
main_round r s = do
  t ← when (selected r s).fds.pd.selcount (port_daemon r.connection) (selected r s)
  u ← when t.fds.ps.selcount (port_server r.answers) t
  when u.fds.fs.selcount (fifo_server r.epipe r.lines) u
