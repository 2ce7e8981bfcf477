-- ===== src/Server/Invariant.antt =====
-- What holds of the server between any two of its operations.
use diald_top.Base.{
  ℕ, ◌<◌, ◌≡◌, Bool, false, ◌==◌, none, some, List, ℤ, pos, minus_one, length, All,
}
use diald_top.Server.Fds.{ThreadFds}
use diald_top.Server.Ports.{Port}
use diald_top.Server.State.{Descriptor, Event, Server, emit}
use diald_top.Server.Select.Maxfd.{IsTop}
use diald_top.Server.PortQueue.Queue.{has, monitors, Distinct}

-- Only the three flags of ports.h are set.
abbrev pub IsPlain : Port → Type 0
IsPlain p = p.flag < 8

-- The sets of the port server list the clients of the queue.
pub record Lists (ps : ThreadFds) (pq : List Port) : Type 0 where
  pub full : (i : ℕ) → ps.full i ≡ has i pq
  pub fullcount : ps.fullcount ≡ pos (length pq)
  pub top : IsTop ps.full ps.maxfd

abbrev pub holds : Descriptor → ℕ → Bool
holds none i = false
holds (some fd) i = fd == i

abbrev pub to_int : Descriptor → ℤ
to_int none = minus_one
to_int (some fd) = pos fd

abbrev pub size : Descriptor → ℕ
size none = 0
size (some fd) = 1

-- The sets of the fifo server hold the monitor pipe, if it is open, and nothing else.
pub record HoldsPipe (fs : ThreadFds) (pipe : Descriptor) : Type 0 where
  pub full : (i : ℕ) → fs.full i ≡ holds pipe i
  pub fullcount : fs.fullcount ≡ pos (size pipe)
  pub maxfd : fs.maxfd ≡ to_int pipe

pub record Inv (s : Server) : Type 0 where
  pub distinct : Distinct s.pq
  pub plain : All IsPlain s.pq
  pub lists : Lists s.fds.ps s.pq
  pub counted : s.monitorcount ≡ pos (monitors s.pq)
  pub pipe : HoldsPipe s.fds.fs s.monitorfd
  pub listening : IsTop s.fds.pd.full s.fds.pd.maxfd

pub emit-Inv : {s : Server} → Inv s → (e : Event) → Inv (emit e s)
emit-Inv v e = record {
  distinct = v.distinct;
  plain = v.plain;
  lists = v.lists;
  counted = v.counted;
  pipe = v.pipe;
  listening = v.listening;
}
