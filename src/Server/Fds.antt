-- ===== src/Server/Fds.antt =====
-- server/fds.h, and the descriptor sets of select(2).
use diald_top.Base.{ℕ, Bool, false, not, ◌&&◌, ◌||◌, ◌==◌, ℤ}

-- An `fd_set`. A descriptor is below FD_SETSIZE, as FD_SET and FD_ISSET demand.
abbrev pub FdSet : Type 0
FdSet = ℕ → Bool

abbrev pub fd_zero : FdSet
fd_zero = λ _. false

abbrev pub fd_set : ℕ → FdSet → FdSet
fd_set fd set = λ i. (fd == i) || set i

abbrev pub fd_clr : ℕ → FdSet → FdSet
fd_clr fd set = λ i. not (fd == i) && set i

-- `thread_fds_t`
pub record ThreadFds : Type 0 where
  pub fullcount : ℤ
  pub full : FdSet
  pub maxfd : ℤ
  pub selcount : ℤ
  pub sel : FdSet

-- `fds_t`: the sets of the port daemon, the port server and the fifo server.
pub record Fds : Type 0 where
  pub pd : ThreadFds
  pub ps : ThreadFds
  pub fs : ThreadFds
