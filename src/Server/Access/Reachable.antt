-- ===== src/Server/Access/Reachable.antt =====
-- Access in the states that the server can reach.
use diald_top.Base.{ℕ, ◌≡◌, subst, false, arith, inl, inr, Option, none, some, List, [], pos, eqb_ℤ}
use diald_top.Server.State.{Descriptor, Server}
use diald_top.Server.PortQueue.Queue.{has}
use diald_top.Server.Invariant.{Inv}
use diald_top.Server.Auth.{Token, reread_conf}
use diald_top.Server.Auth.Reload.{read_conf_cases, reread_conf_lem, reread_conf_exits}
use diald_top.Server.PortServer.{Answers, port_server}
use diald_top.Server.PortServer.Keeps.{port_server_kept}
use diald_top.Server.Fifo.{Failures, fifo_server}
use diald_top.Server.Fifo.Keeps.{fifo_server-Inv}
use diald_top.Server.Daemon.{Connection, port_daemon}
use diald_top.Server.Daemon.Keeps.{port_daemon_kept}
use diald_top.Server.Main.{booted, start, Round, selected, main_round}
use diald_top.Server.Main.Selected.{selected-Inv}
use diald_top.Server.Main.Reach.{
  bind-cases, when-keeps, Accepts, Ends-Inv, rounds, reloads, Reach, starts, later, Reach-Inv,
}
use diald_top.Server.Access.{Authorised, Kept-Authorised}
use diald_top.Server.Access.Lines.{port_server-Kept}
use diald_top.Server.Access.Broadcast.{fifo_server-Kept}
use diald_top.Server.Access.Entry.{port_daemon-Authorised, Reloaded-Authorised}

abbrev Good : Server → Type 0
Good s = Inv s × Authorised s

port_daemon-Good :
    (c : Connection) (fd : ℕ) (s t : Server)
    → c.fd ≡ some fd
    → has fd s.pq ≡ false
    → Good s
    → port_daemon c s ≡ some t
    → Good t
port_daemon-Good c fd s t got new (v, h) run =
    (port_daemon_kept c fd s t got new v run, port_daemon-Authorised c s t run h)

port_server-Good : (a : Answers) (s t : Server) → Good s → port_server a s ≡ some t → Good t
port_server-Good a s t (v, h) run =
    (port_server_kept a s t v run, Kept-Authorised s t (port_server-Kept a s t v run) h)

fifo_server-Good :
    (epipe : Failures) (lines : List (List ℕ)) (s t : Server)
    → Good s
    → fifo_server epipe lines s ≡ some t
    → Good t
fifo_server-Good epipe lines s t (v, h) run = (
  Ends-Inv (fifo_server-Inv epipe lines s v) run,
  Kept-Authorised s t (fifo_server-Kept epipe lines s t v run) h,
)

round-Good :
    (r : Round) (s t : Server)
    → (eqb_ℤ (selected r s).fds.pd.selcount (pos 0) ≡ false → Accepts r s)
    → Good s
    → main_round r s ≡ some t
    → Good t
unfolding main_round
round-Good r s t accepts (v, h) run =
    let (u, run1, more) = bind-cases _ _ t run in
    let (x, run2, run3) = bind-cases _ _ t more in
    let g1 : Good u =
      when-keeps Good (selected r s).fds.pd.selcount (port_daemon r.connection) (selected r s) u
        (selected-Inv r s v, h) (λ busy e. joined u (accepts busy) e) run1 in
    let g2 : Good x =
      when-keeps Good u.fds.ps.selcount (port_server r.answers) u x g1
        (λ _ e. port_server-Good r.answers u x g1 e) run2 in
    when-keeps Good x.fds.fs.selcount (fifo_server r.epipe r.lines) x t g2
      (λ _ e. fifo_server-Good r.epipe r.lines x t g2 e) run3
  where
    joined : (u : Server) → Accepts r s → port_daemon r.connection (selected r s) ≡ some u → Good u
    joined u (fd, got, new) e =
        port_daemon-Good r.connection fd (selected r s) u got new (selected-Inv r s v, h) e

reread_conf-Authorised :
    (file : Option (List Token)) (s t : Server) → Inv s → reread_conf file s ≡ some t → Authorised t
reread_conf-Authorised file s t v e = elim (read_conf_cases file (record s { aq = [] })) [
  | inl exits ↦ let stopped : reread_conf file s ≡ none = reread_conf_exits file s exits in cc
  | inr (aq, read) ↦ elim (reread_conf_lem file aq s read v) [
    | inl (fault, _, _) ↦ cc
    | inr (u, run, reloaded, _) ↦
        let same : u ≡ t = ground arith in
        subst Authorised same (Reloaded-Authorised aq s u reloaded)
  ]
]

start-Authorised :
    (listener : Option ℕ) (control : Descriptor) (file : Option (List Token)) (s : Server)
    → start listener control file ≡ some s
    → Authorised s
unfolding start
start-Authorised none control file s e = cc
start-Authorised (some fd) control file s e = elim (read_conf_cases file (booted fd control)) [
  | inl exits ↦ cc
  | inr (aq, read) ↦
      let same : record (booted fd control) { aq = aq } ≡ s = ground arith in
      subst Authorised same tt
]

-- In every state that the server can reach, the configuration then in force grants access, to the
-- user kept for it and from its address, to each client that has control access.
pub Reach-Authorised : {s : Server} → Reach s → Authorised s
Reach-Authorised {s} (starts listener control file e) = start-Authorised listener control file s e
Reach-Authorised {s} (later {s = p} r (rounds round accepts e)) =
    (round-Good round p s accepts (Reach-Inv r, Reach-Authorised r) e).1
Reach-Authorised {s} (later {s = p} r (reloads file e)) =
    reread_conf-Authorised file p s (Reach-Inv r) e
