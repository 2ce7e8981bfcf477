-- ===== src/Server/Commands/Effects.antt =====
-- What parse_incoming does to the queue, on each branch, and that it keeps the invariant.
use diald_top.Base.{
  ℕ, ◌<◌, ◌≡◌, refl, arith, some, List, ℤ, inc, pos, get_elem?, set, eqb_ℤ, Bool-cases, inl, inr,
  Bool,
}
use diald_top.Server.Ports.{Port, flag_monitor, raise, lower}
use diald_top.Server.Ports.Flags.{raise-Toggled, lower-Toggled}
use diald_top.Server.State.{Server}
use diald_top.Server.PortQueue.{close_port}
use diald_top.Server.PortQueue.Queue.{
  is_monitor, monitors, has-set, length-set, monitors-set, Distinct-set, All-set, All-get,
}
use diald_top.Server.PortQueue.Keeps.{close_port-closed, closed-Inv}
use diald_top.Server.Invariant.{emit-Inv, IsPlain, Inv}
use diald_top.Server.Monitor.{PipeAnswer}
use diald_top.Server.Monitor.Keeps.{monitor_open-Inv}
use diald_top.Server.Commands.{set_flag, stop_monitor, start_monitor, parse_incoming, parse_cases}

module _ {s : Server} (v : Inv s) (k : ℕ) {p : Port} (at : get_elem? s.pq k ≡ some p) where
  plain : IsPlain p
  plain = All-get IsPlain s.pq k v.plain at

  -- The node's flags are written, and the counter is set to what the queue then holds.
  set_flag-Inv :
      (flag : ℕ) (count : ℤ)
      → flag < 8
      → count ≡ pos (monitors (set s.pq k (record p { flag = flag })))
      → Inv (set_flag k p flag (record s { monitorcount = count }))
  set_flag-Inv flag count small e = record {
    distinct = Distinct-set s.pq k (record p { flag = flag }) v.distinct at refl;
    plain = All-set IsPlain s.pq k (record p { flag = flag }) small v.plain;
    lists = record {
      full = λ i. ground (arith, v.lists.full i, has-set i s.pq k (record p { flag = flag }) at);
      fullcount = ground (arith, v.lists.fullcount, length-set s.pq k (record p { flag = flag }));
      top = v.lists.top;
    };
    counted = e;
    pipe = v.pipe;
    listening = v.listening;
  }

  stop_monitor-Inv : Inv (stop_monitor k p s)
  unfolding stop_monitor
  stop_monitor-Inv = elim (Bool-cases (is_monitor p)) [
    | inr off ↦ rw off v
    | inl on ↦
        let t = lower-Toggled p.flag plain in
        let q : Port = record p { flag = lower p.flag flag_monitor } in
        rw on (
          set_flag-Inv _ _ t.plain (ground (arith, v.counted, t.monitor, monitors-set s.pq k q at)))
  ]

  start_monitor-Inv : (a : PipeAnswer) → Inv (start_monitor a k p s)
  unfolding start_monitor
  start_monitor-Inv a = elim (Bool-cases (is_monitor p)) [
    | inl on ↦ rw on v
    | inr off ↦
        let t = raise-Toggled p.flag plain in
        let q : Port = record p { flag = raise p.flag flag_monitor } in
        let u =
          set_flag-Inv (raise p.flag flag_monitor) (inc s.monitorcount) t.plain
            (ground (arith, v.counted, t.monitor, monitors-set s.pq k q at)) in
        rw off (elim (Bool-cases (eqb_ℤ s.fds.fs.fullcount (pos 0))) [
          | inl closed_pipe ↦ rw closed_pipe (monitor_open-Inv a _ u)
          | inr open_pipe ↦ rw open_pipe u
        ])
  ]

  pub close_port-Inv : Inv (close_port p s)
  close_port-Inv = rw (close_port-closed v k at) (closed-Inv v k at)

  -- One line from a client of the queue, whatever it says, keeps the invariant.
  pub parse_incoming-Inv :
      (a : PipeAnswer) (line : List ℕ) (r : Bool × Server)
      → parse_incoming a line k p s ≡ some r
      → Inv r.1
  parse_incoming-Inv a line =
      parse_cases (λ r. Inv r.1) a line k p s (λ _. stop_monitor-Inv) (λ _ _. start_monitor-Inv a)
        (λ _ _ _. close_port-Inv) (λ _ _ _ _. emit-Inv v _) (λ _ _ _ _. emit-Inv v _)
