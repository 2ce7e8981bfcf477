-- ===== src/Server/PortServer/Reasons.antt =====
-- port_server writes to diald on behalf of clients with control access only.
use diald_top.Base.{
  ℕ, zero, suc, ◌≡◌, refl, sym, subst, arith, Bool, inl, inr, Bool-cases, Option-cases,
  if◌then◌else◌, Option, none, some, List, [], ◌∷◌, ℤ, pos, inc, ltb_ℤ, eqb_ℤ, get_elem?, length,
}
use diald_top.Server.Ports.{Port, flag_write, flag_monitor, has_flag, raise}
use diald_top.Server.Ports.Flags.{raise-Toggled, lower-Toggled}
use diald_top.Server.State.{Server}
use diald_top.Server.PortQueue.{hang_up, close_port}
use diald_top.Server.PortQueue.Queue.{All-get}
use diald_top.Server.PortQueue.Keeps.{close_port-closed}
use diald_top.Server.Invariant.{IsPlain, Inv}
use diald_top.Server.Monitor.{PipeAnswer, monitor_open}
use diald_top.Server.Commands.{stop_monitor, start_monitor, set_flag, parse_incoming, parse_cases}
use diald_top.Server.Commands.Steps.{after_line, put_back}
use diald_top.Server.PortServer.{Answers, receive, serve, port_server}
use diald_top.Server.PortServer.Keeps.{
  outcome, receive_cases, receive-Inv, receive-Steps, AllShort, port_server-Inv,
}
use diald_top.Server.PortServer.Control.{
  may_command_of_get, may_command_delete_at, may_command_set, Within, hung_up, commanded, refused,
  made, told, Accounted, quiet, one, join, Accounted-Within,
}

module _ (a : Answers) where
  abbrev Grows : Server → Server → Type 0
  Grows s t = Accounted a s.controlfd s.pq s.trace t.trace

  monitor_open-Accounted :
      (fd : ℕ) (pq : List Port) (s : Server)
      → Accounted a s.controlfd pq s.trace (monitor_open (a.pipe fd) s).trace
  unfolding monitor_open
  monitor_open-Accounted fd pq s = elim (Option-cases s.monitorfd) [
    | inr (pipe, e) ↦ rw e (quiet a _ _ _)
    | inl e ↦ rw e (elim (Option-cases (a.pipe fd).fd) [
      | inl g ↦ rw g (one a _ _ (made fd))
      | inr (pipe, g) ↦ rw g (join a _ (one a _ _ (made fd)) (one a _ _ (told fd)))
    ])
  ]

  module _ {s : Server} (v : Inv s) (k : ℕ) {p : Port} (at : get_elem? s.pq k ≡ some p) where
    close_port-Grows : Grows s (close_port p s)
    unfolding hang_up
    close_port-Grows =
        rw (close_port-closed v k at) (elim (Bool-cases (has_flag p.flag flag_monitor)) [
          | inl e ↦ rw e (one a _ _ (hung_up p.fd))
          | inr e ↦ rw e (one a _ _ (hung_up p.fd))
        ])

    stop_monitor-Grows : Grows s (stop_monitor k p s)
    unfolding stop_monitor
    stop_monitor-Grows = elim (Bool-cases (has_flag p.flag flag_monitor)) [
      | inl e ↦ rw e (quiet a _ _ _)
      | inr e ↦ rw e (quiet a _ _ _)
    ]

    start_monitor-Grows : Grows s (start_monitor (a.pipe p.fd) k p s)
    unfolding start_monitor
    start_monitor-Grows = elim (Bool-cases (has_flag p.flag flag_monitor)) [
      | inl e ↦ rw e (quiet a _ _ _)
      | inr e ↦ rw e (elim (Bool-cases (eqb_ℤ s.fds.fs.fullcount (pos 0))) [
        | inl g ↦ rw g (
            monitor_open-Accounted p.fd s.pq (
              set_flag k p (raise p.flag flag_monitor)
                (record s { monitorcount = inc s.monitorcount })))
        | inr g ↦ rw g (quiet a _ _ _)
      ])
    ]

    parse_incoming-Grows :
        (r : Bool × Server)
        → parse_incoming (a.pipe p.fd) (a.recv p.fd) k p s ≡ some r
        → Grows s r.1
    parse_incoming-Grows =
        parse_cases (λ r. Grows s r.1) (a.pipe p.fd) (a.recv p.fd) k p s (λ _. stop_monitor-Grows)
          (λ _ _. start_monitor-Grows) (λ _ _ _. close_port-Grows)
          (λ _ _ _ w. one a _ _ (commanded p.fd (may_command_of_get s.pq k at w)))
          (λ _ _ _ _. one a _ _ (refused p.fd))

    receive-Grows : (r : Bool × Server) → receive a k p s ≡ some r → Grows s r.1
    receive-Grows =
        receive_cases a v k at (λ r. Grows s r.1) (λ _. close_port-Grows)
          (λ c line r e run.
            parse_incoming-Grows r
              (subst (λ l. parse_incoming (a.pipe p.fd) l k p s ≡ some r) (sym e) run))

-- A line changes no more of its client than the monitor flag.
pub after_line-kept :
    (line : List ℕ) (p q : Port)
    → IsPlain p
    → after_line line p ≡ some q
    → (q.fd ≡ p.fd) × (has_flag q.flag flag_write ≡ has_flag p.flag flag_write)
unfolding after_line
after_line-kept line p q plain e =
    ground (arith, (raise-Toggled p.flag plain).write, (lower-Toggled p.flag plain).write)

outcome-kept :
    (a : Answers) (p q : Port)
    → IsPlain p
    → outcome a p ≡ some q
    → (q.fd ≡ p.fd) × (has_flag q.flag flag_write ≡ has_flag p.flag flag_write)
unfolding outcome
outcome-kept a p q plain e = by_bytes (a.recv p.fd) refl
  where
    by_bytes :
        (bytes : List ℕ)
        → a.recv p.fd ≡ bytes
        → (q.fd ≡ p.fd) × (has_flag q.flag flag_write ≡ has_flag p.flag flag_write)
    by_bytes [] g = let gone = rw (g, outcome) at e in cc
    by_bytes (c ∷ line) g = after_line-kept (c ∷ line) p q plain (rw (g, outcome) at e)

monitor_open-controlfd : (a : PipeAnswer) (s : Server) → (monitor_open a s).controlfd ≡ s.controlfd
unfolding monitor_open
monitor_open-controlfd a s = ground arith

module _ (a : Answers) {s : Server} (v : Inv s) (k : ℕ) {p : Port}
    (at : get_elem? s.pq k ≡ some p) where
  outcome-Within : (q : Option Port) → outcome a p ≡ q → Within (put_back s.pq k q) s.pq
  outcome-Within none e = may_command_delete_at s.pq k
  outcome-Within (some q) e =
      let kept = outcome-kept a p q (All-get IsPlain s.pq k v.plain at) e in
      may_command_set s.pq k q at kept.0 kept.1

  receive-Within : (r : Bool × Server) → receive a k p s ≡ some r → Within r.1.pq s.pq
  receive-Within r run =
      subst (λ ps. Within ps s.pq) (sym (receive-Steps a v k at r run).queue)
        (outcome-Within (outcome a p) refl)

  close_port-controlfd : (close_port p s).controlfd ≡ s.controlfd
  unfolding hang_up
  close_port-controlfd = rw (close_port-closed v k at) ground arith

  parse_incoming-controlfd :
      (line : List ℕ) (r : Bool × Server)
      → parse_incoming (a.pipe p.fd) line k p s ≡ some r
      → r.1.controlfd ≡ s.controlfd
  unfolding stop_monitor start_monitor
  parse_incoming-controlfd line =
      parse_cases (λ r. r.1.controlfd ≡ s.controlfd) (a.pipe p.fd) line k p s (λ _. ground arith)
        (λ _ _. ground (
          arith,
          monitor_open-controlfd (a.pipe p.fd) (
              set_flag k p (raise p.flag flag_monitor)
                (record s { monitorcount = inc s.monitorcount })),
        ))
        (λ _ _ _. close_port-controlfd) (λ _ _ _ _. refl) (λ _ _ _ _. refl)

  receive-controlfd : (r : Bool × Server) → receive a k p s ≡ some r → r.1.controlfd ≡ s.controlfd
  receive-controlfd =
      receive_cases a v k at (λ r. r.1.controlfd ≡ s.controlfd) (λ _. close_port-controlfd)
        (λ c line r _. parse_incoming-controlfd (c ∷ line) r)

-- The loop from any index on.
serve-Grows :
    (a : Answers) (count : ℤ) (fuel k : ℕ) (i : ℤ) (s t : Server)
    → Inv s
    → serve a count fuel k i s ≡ some t
    → Grows a s t
unfolding serve
serve-Grows a count zero k i s t v run = cc
serve-Grows a count (suc fuel) k i s t v run = elim (Option-cases (get_elem? s.pq k)) [
  | inl e ↦ ends (rw (e, serve) at run)
  | inr (p, e) ↦ elim (Bool-cases (ltb_ℤ i count)) [
    | inr done ↦ ends (rw (e, serve, done) at run)
    | inl more ↦ elim (Bool-cases (s.fds.ps.sel p.fd)) [
      | inr idle ↦ serve-Grows a count fuel (suc k) i s t v (rw (e, serve, more, idle) at run)
      | inl ready ↦ elim (Option-cases (receive a k p s)) [
        | inl fault ↦ let stopped = rw (e, serve, more, ready, fault) at run in cc
        | inr (r, got) ↦
            let rest =
              serve-Grows a count fuel (if r.0 then k else suc k) (inc i) r.1 t
                (receive-Inv a v k e r got) (rw (e, serve, more, ready, got) at run) in
            join a s.controlfd (receive-Grows a v k e r got) (
              Accounted-Within a s.controlfd (receive-Within a v k e r got) (
                subst (λ c. Accounted a c r.1.pq r.1.trace t.trace)
                  (receive-controlfd a v k e r got) rest))
      ]
    ]
  ]
]
  where
    ends : some s ≡ some t → Grows a s t
    ends e = let same : s ≡ t = ground arith in subst (Grows a s) same (quiet a _ _ _)

-- So long as none of the lines has more than 968 bytes when it is cleaned: port_server ends, and all
-- that it does to the outside has a reason: it hangs up, it sends a client the refusal of its line, it
-- makes the monitor pipe and tells diald of it, or it writes to diald the line of a client of the
-- queue that has control access, and no other line.
pub port_server-Accounted :
    (a : Answers) (s : Server)
    → AllShort a
    → Inv s
    → (t : Server) × (port_server a s ≡ some t) × Accounted a s.controlfd s.pq s.trace t.trace
unfolding port_server
port_server-Accounted a s short v =
    let (t, run, w) = port_server-Inv a s short v in
    (t, run, serve-Grows a s.fds.ps.selcount (suc (length s.pq)) 0 (pos 0) s t v run)
