-- ===== src/Server/PortQueue.antt =====
-- server/port-queue.c, without parse_incoming and port_server: the queue of connected clients.
pub mod Queue
pub mod Keeps
pub mod Roundtrip
use diald_top.Base.{
  ℕ, Bool, true, false, if◌then◌else◌, Option, none, some, List, [], ◌∷◌, ℤ, pos, inc, dec, max_ℤ,
}
use diald_top.Server.Fds.{fd_set, fd_clr, ThreadFds}
use diald_top.Server.Ports.{Port, flag_monitor, has_flag, same_port}
use diald_top.Server.State.{Server, Event, emit, with_ps}
use diald_top.Server.Select.{adjust_maxfd}

-- `allocated` says whether malloc returned a node.
unfoldable pub port_enqueue : Bool → Port → Server → Bool × Server
port_enqueue false p s = (false, s)
port_enqueue true p s = (true, with_ps wider (record s { pq = p ∷ s.pq }))
  where
    ps : ThreadFds
    ps = s.fds.ps

    wider : ThreadFds
    wider = record ps {
      fullcount = inc ps.fullcount;
      full = fd_set p.fd ps.full;
      maxfd = max_ℤ (pos p.fd) ps.maxfd;
    }

-- The loop of close_port: the queue without the first node that equals `p`, if there is one.
unfoldable pub unlink : Port → List Port → Option (List Port)
unlink p [] = none
unlink p (curr ∷ next) =
    let rest = unlink p next in
    if same_port curr p
    then some next
    else elim rest [ none ↦ none | some left ↦ some (curr ∷ left) ]

-- What the body of that loop does to the sets once the node is out.
unfoldable pub forget_fd : ℕ → ThreadFds → ThreadFds
forget_fd fd t = record fewer { maxfd = adjust_maxfd fewer (pos fd) }
  where
    fewer : ThreadFds
    fewer = record t { fullcount = dec t.fullcount; full = fd_clr fd t.full }

unfoldable pub dequeue : Port → Server → Server
unfolding unlink forget_fd
dequeue p s = elim (unlink p s.pq) [
  | none ↦ s
  | some rest ↦ with_ps (forget_fd p.fd s.fds.ps) (record s { pq = rest })
]

unfoldable pub hang_up : Port → Server → Server
hang_up p s =
    emit (Event.closes p.fd)
      (if has_flag p.flag flag_monitor then record s { monitorcount = dec s.monitorcount } else s)

unfoldable pub close_port : Port → Server → Server
unfolding dequeue hang_up
close_port p s = if s.fds.ps.full p.fd then dequeue p (hang_up p s) else s
