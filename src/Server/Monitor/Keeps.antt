-- ===== src/Server/Monitor/Keeps.antt =====
-- Opening and closing the monitor pipe keeps the invariant.
use diald_top.Base.{◌≡◌, arith}
use diald_top.Server.State.{Server}
use diald_top.Server.Invariant.{Inv}
use diald_top.Server.Monitor.{PipeAnswer, monitor_open, monitor_close}

-- The pipe is opened at most once, and then it alone is watched.
pub monitor_open-Inv : (a : PipeAnswer) (s : Server) → Inv s → Inv (monitor_open a s)
unfolding monitor_open
monitor_open-Inv a s v = ground arith

pub monitor_close-Inv : (s : Server) → Inv s → Inv (monitor_close s)
unfolding monitor_close
monitor_close-Inv s v = ground arith

-- Opening the pipe leaves the clients and their sets alone.
pub monitor_open-pq : (a : PipeAnswer) (s : Server) → (monitor_open a s).pq ≡ s.pq
unfolding monitor_open
monitor_open-pq a s = ground arith

pub monitor_open-ps : (a : PipeAnswer) (s : Server) → (monitor_open a s).fds.ps ≡ s.fds.ps
unfolding monitor_open
monitor_open-ps a s = ground arith
