-- ===== src/Server/Main/Reach.antt =====
-- The states that the server can reach.
use diald_top.Base.{
  ℕ, ◌≡◌, refl, subst, false, arith, inl, inr, Bool-cases, Option, none, some, List, [], ℤ, pos,
  eqb_ℤ,
}
use diald_top.Server.State.{AuthData, Descriptor, Server}
use diald_top.Server.Select.Maxfd.{set-IsTop, no-IsTop}
use diald_top.Server.PortQueue.Queue.{has, monitors}
use diald_top.Server.Invariant.{Inv}
use diald_top.Server.Auth.{Token, reread_conf}
use diald_top.Server.Auth.Reload.{read_conf_cases, reread_conf_lem, reread_conf_exits}
use diald_top.Server.PortServer.{port_server}
use diald_top.Server.PortServer.Keeps.{AllShort, port_server_kept, port_server-Inv}
use diald_top.Server.Fifo.{fifo_server}
use diald_top.Server.Fifo.Keeps.{fifo_server-Inv}
use diald_top.Server.Daemon.{port_daemon}
use diald_top.Server.Daemon.Keeps.{GreetingFits, port_daemon_kept, port_daemon-Admitted}
use diald_top.Server.Main.Selected.{selected-Inv}
use diald_top.Server.Main.{
  booted, start, port_daemon_init, port_server_init, fifo_server_init, Round, selected, when, ◌>>=◌,
  main_round,
}

-- What accept promises: a descriptor, and one that no open connection has.
abbrev pub Accepts : Round → Server → Type 0
Accepts r s = (fd : ℕ) × (r.connection.fd ≡ some fd) × (has fd s.pq ≡ false)

abbrev pub Ends : Option Server → Type 0
Ends r = (t : Server) × (r ≡ some t) × Inv t

when-Ends :
    (count : ℤ) (call : Server → Option Server) (s : Server)
    → Inv s
    → (eqb_ℤ count (pos 0) ≡ false → Ends (call s))
    → Ends (when count call s)
when-Ends count call s v run = elim (Bool-cases (eqb_ℤ count (pos 0))) [
  | inl idle ↦ rw idle (s, refl, v)
  | inr busy ↦ rw busy (run busy)
]

bind-Ends :
    (m : Option Server) (f : Server → Option Server)
    → Ends m
    → ((t : Server) → Inv t → Ends (f t))
    → Ends (m >>= f)
bind-Ends m f (t, e, v) next = rw e (next t v)

-- The texts of the round fit the buffers that they go into: the user that identd names, and the line of
-- each client.
pub record Fits (r : Round) : Type 0 where
  pub greeting : GreetingFits r.connection
  pub lines : AllShort r.answers

-- One round of the main loop does not fault and keeps the invariant, so long as accept does not fail
-- where the listening socket is said to be ready, the user that identd names and the address have at
-- most 213 bytes, and no line of a client has more than 968 when it is cleaned: whatever the answers
-- of the system, and whatever else the clients, identd and diald send.
pub main_round-Inv :
    (r : Round) (s : Server)
    → (eqb_ℤ (selected r s).fds.pd.selcount (pos 0) ≡ false → Accepts r s)
    → Fits r
    → Inv s
    → (t : Server) × (main_round r s ≡ some t) × Inv t
unfolding main_round
main_round-Inv r s accepts fits v =
    let w = selected-Inv r s v in
    bind-Ends _ _
      (when-Ends (selected r s).fds.pd.selcount (port_daemon r.connection) (selected r s) w
        (λ busy. joined (accepts busy) w))
      λ t vt.
        bind-Ends _ _
          (when-Ends t.fds.ps.selcount (port_server r.answers) t vt
            (λ _. port_server-Inv r.answers t fits.lines vt))
          λ u vu.
            when-Ends u.fds.fs.selcount (fifo_server r.epipe r.lines) u vu
              (λ _. fifo_server-Inv r.epipe r.lines u vu)
  where
    joined : Accepts r s → Inv (selected r s) → Ends (port_daemon r.connection (selected r s))
    joined (fd, got, new) w =
        let (t, run, vt, _) =
          port_daemon-Admitted r.connection fd (selected r s) got new fits.greeting w in
        (t, run, vt)

pub Ends-Inv : {r : Option Server} {t : Server} → Ends r → r ≡ some t → Inv t
Ends-Inv {t} (u, run, v) e = let same : u ≡ t = ground arith in subst Inv same v

pub bind-cases :
    (m : Option Server) (f : Server → Option Server) (t : Server)
    → (m >>= f) ≡ some t
    → (u : Server) × (m ≡ some u) × (f u ≡ some t)
bind-cases none f t e = cc
bind-cases (some u) f t e = (u, refl, e)

-- What holds before a call that may be left out, and after it, holds in any case.
pub when-keeps :
    (P : Server → Type 0) (count : ℤ) (call : Server → Option Server) (s t : Server)
    → P s
    → (eqb_ℤ count (pos 0) ≡ false → call s ≡ some t → P t)
    → when count call s ≡ some t
    → P t
when-keeps P count call s t g calls run = elim (Bool-cases (eqb_ℤ count (pos 0))) [
  | inl idle ↦ let last = rw idle at run in let same : s ≡ t = ground arith in subst P same g
  | inr busy ↦ calls busy (rw busy at run)
]

-- A round that comes to its end keeps the invariant.
main_round_kept :
    (r : Round) (s t : Server)
    → (eqb_ℤ (selected r s).fds.pd.selcount (pos 0) ≡ false → Accepts r s)
    → Inv s
    → main_round r s ≡ some t
    → Inv t
unfolding main_round
main_round_kept r s t accepts v run =
    let (u, run1, more) = bind-cases _ _ t run in
    let (x, run2, run3) = bind-cases _ _ t more in
    let w = selected-Inv r s v in
    let vu : Inv u =
      when-keeps Inv (selected r s).fds.pd.selcount (port_daemon r.connection) (selected r s) u w
        (λ busy e. joined u w (accepts busy) e) run1 in
    let vx : Inv x =
      when-keeps Inv u.fds.ps.selcount (port_server r.answers) u x vu
        (λ _ e. port_server_kept r.answers u x vu e) run2 in
    when-keeps Inv x.fds.fs.selcount (fifo_server r.epipe r.lines) x t vx
      (λ _ e. Ends-Inv (fifo_server-Inv r.epipe r.lines x vx) e) run3
  where
    joined :
        (u : Server)
        → Inv (selected r s)
        → Accepts r s
        → port_daemon r.connection (selected r s) ≡ some u
        → Inv u
    joined u w (fd, got, new) e = port_daemon_kept r.connection fd (selected r s) u got new w e

booted-Inv : (fd : ℕ) (control : Descriptor) → Inv (booted fd control)
unfolding port_daemon_init port_server_init fifo_server_init has monitors
booted-Inv fd control = record {
  distinct = tt;
  plain = tt;
  lists = record { full = λ i. refl; fullcount = refl; top = no-IsTop };
  counted = refl;
  pipe = record { full = λ i. refl; fullcount = refl; maxfd = refl };
  listening = set-IsTop fd _ _ no-IsTop;
}

users-Inv : {s : Server} (aq : List AuthData) → Inv s → Inv (record s { aq = aq })
users-Inv aq v = record {
  distinct = v.distinct;
  plain = v.plain;
  lists = v.lists;
  counted = v.counted;
  pipe = v.pipe;
  listening = v.listening;
}

start-Inv :
    (listener : Option ℕ) (control : Descriptor) (file : Option (List Token)) (s : Server)
    → start listener control file ≡ some s
    → Inv s
unfolding start
start-Inv none control file s e = cc
start-Inv (some fd) control file s e = elim (read_conf_cases file (booted fd control)) [
  | inl exits ↦ cc
  | inr (aq, read) ↦ Ends-Inv (_, read, users-Inv aq (booted-Inv fd control)) e
]

-- A round of the main loop, or SIGHUP between two rounds.
pub data Step (s : Server) : Server → Type 0 where
  rounds :
      {t : Server} (r : Round)
      → (eqb_ℤ (selected r s).fds.pd.selcount (pos 0) ≡ false → Accepts r s)
      → main_round r s ≡ some t
      → Step s t
  reloads : {t : Server} (file : Option (List Token)) → reread_conf file s ≡ some t → Step s t

-- From a start of the server.
pub data Reach : Server → Type 0 where
  starts :
      {s : Server} (listener : Option ℕ) (control : Descriptor) (file : Option (List Token))
      → start listener control file ≡ some s
      → Reach s
  later : {s t : Server} → Reach s → Step s t → Reach t

Step-Inv : {s t : Server} → Step s t → Inv s → Inv t
Step-Inv {s} {t} (rounds r accepts e) v = main_round_kept r s t accepts v e
Step-Inv {s} (reloads file e) v = elim (read_conf_cases file (record s { aq = [] })) [
  | inl exits ↦ let stopped : reread_conf file s ≡ none = reread_conf_exits file s exits in cc
  | inr (aq, read) ↦ elim (reread_conf_lem file aq s read v) [
    | inl (fault, _, _) ↦ cc
    | inr (u, run, reloaded, _) ↦ Ends-Inv (u, run, reloaded.inv) e
  ]
]

-- In every state that the server can reach the invariant holds: the clients have distinct
-- descriptors, the sets and the counts of the port server are those of the queue, the counter of
-- watching clients is right, and the fifo server watches the monitor pipe exactly while it is open.
pub Reach-Inv : {s : Server} → Reach s → Inv s
Reach-Inv {s} (starts listener control file e) = start-Inv listener control file s e
Reach-Inv (later r st) = Step-Inv st (Reach-Inv r)
