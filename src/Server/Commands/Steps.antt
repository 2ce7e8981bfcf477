-- ===== src/Server/Commands/Steps.antt =====
-- What a line makes of its client, and of the queue.
use diald_top.Base.{
  ℕ, zero, suc, ◌≡◌, refl, ap, Bool, true, false, arith, if◌then◌else◌, Option, none, some, List,
  [], ◌∷◌, inc, get_elem?, set,
}
use diald_top.Server.Ports.{Port, flag_monitor, raise, lower}
use diald_top.Server.State.{Server}
use diald_top.Server.PortQueue.{forget_fd, hang_up, close_port}
use diald_top.Server.PortQueue.Queue.{is_monitor, delete_at}
use diald_top.Server.PortQueue.Keeps.{close_port-closed}
use diald_top.Server.Invariant.{Inv}
use diald_top.Server.Monitor.{PipeAnswer}
use diald_top.Server.Monitor.Keeps.{monitor_open-pq, monitor_open-ps}
use diald_top.Server.Commands.{
  asks_off, asks_on, asks_close, set_flag, stop_monitor, start_monitor, parse_incoming, parse_cases,
}

-- What becomes of the client: `none` if its port is closed.
unfoldable pub after_line : List ℕ → Port → Option Port
after_line line p =
    if asks_off line
    then some (if is_monitor p then record p { flag = lower p.flag flag_monitor } else p)
    else if asks_on line
    then some (if is_monitor p then p else record p { flag = raise p.flag flag_monitor })
    else if asks_close line
    then none
    else some p

-- The queue with the node at this index written over, or taken out.
abbrev pub put_back : List Port → ℕ → Option Port → List Port
put_back ps k none = delete_at k ps
put_back ps k (some q) = set ps k q

abbrev pub is_none : Option Port → Bool
is_none none = true
is_none (some q) = false

-- How a step for the client at index `k` leaves the queue.
pub record Steps (s : Server) (k : ℕ) (q : Option Port) (r : Bool × Server) : Type 0 where
  pub closes : r.0 ≡ is_none q
  pub queue : r.1.pq ≡ put_back s.pq k q
  pub ready : r.1.fds.ps.sel ≡ s.fds.ps.sel

set_self : (ps : List Port) (k : ℕ) {p : Port} → get_elem? ps k ≡ some p → ps ≡ set ps k p
set_self [] k e = cc
set_self (q ∷ ps) zero e = ground arith
set_self (q ∷ ps) (suc k) e = ap (λ r. q ∷ r) (set_self ps k e)

module _ {s : Server} (v : Inv s) (k : ℕ) {p : Port} (at : get_elem? s.pq k ≡ some p) where
  pub close_port-Steps : Steps s k none (true, close_port p s)
  unfolding forget_fd hang_up
  close_port-Steps =
      rw (close_port-closed v k at) (record { closes = refl; queue = refl; ready = ground arith })

  stop_monitor-Steps :
      Steps s k
        (some (if is_monitor p then record p { flag = lower p.flag flag_monitor } else p))
        (false, stop_monitor k p s)
  unfolding stop_monitor
  stop_monitor-Steps = record {
    closes = refl;
    queue = ground (arith, set_self s.pq k at);
    ready = ground arith;
  }

  start_monitor-Steps :
      (a : PipeAnswer)
      → Steps s k
          (some (if is_monitor p then p else record p { flag = raise p.flag flag_monitor }))
          (false, start_monitor a k p s)
  unfolding start_monitor
  start_monitor-Steps a =
      let q : Port = record p { flag = raise p.flag flag_monitor } in
      let marked =
        set_flag k p (raise p.flag flag_monitor) (record s { monitorcount = inc s.monitorcount }) in
      record {
        closes = refl;
        queue = ground (arith, set_self s.pq k at, monitor_open-pq a marked);
        ready = ground (arith, monitor_open-ps a marked);
      }

  pub parse_incoming-Steps :
      (a : PipeAnswer) (line : List ℕ) (r : Bool × Server)
      → parse_incoming a line k p s ≡ some r
      → Steps s k (after_line line p) r
  unfolding after_line
  parse_incoming-Steps a line =
      parse_cases (Steps s k (after_line line p)) a line k p s (λ e. rw e stop_monitor-Steps)
        (λ e f. rw (e, f) (start_monitor-Steps a)) (λ e f g. rw (e, f, g) close_port-Steps)
        (λ e f g _.
          rw (e, f, g) (record { closes = refl; queue = set_self s.pq k at; ready = refl }))
        (λ e f g _.
          rw (e, f, g) (record { closes = refl; queue = set_self s.pq k at; ready = refl }))
