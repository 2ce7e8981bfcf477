-- ===== src/Server/Daemon/Keeps.antt =====
-- port_daemon keeps the invariant, and grants no more than the configuration says.
use diald_top.Base.{
  ltb, if◌then◌else◌, List, inl, inr, subst, length, Option-cases, ◌≤◌, ◌+◌, ℕ, ◌<◌, ◌≡◌, refl, ap,
  ◌∙◌, Bool, true, false, arith, none, some, ◌∷◌,
}
use diald_top.Server.Ports.{Port, flag_read, flag_write, flag_monitor, has_flag, raise}
use diald_top.Server.State.{Event, Server, emit}
use diald_top.Server.PortQueue.{port_enqueue}
use diald_top.Server.PortQueue.Queue.{has, is_monitor}
use diald_top.Server.PortQueue.Keeps.{port_enqueue-Inv}
use diald_top.Server.Invariant.{IsPlain, Inv, emit-Inv}
use diald_top.Server.Auth.{auth_search}
use diald_top.Server.Daemon.{
  Connection, Greeted, request, no_ident_text, greeting, user_size, ident_user, greet, greet_cases,
  admit, port_daemon,
}
use diald_top.Server.Daemon.Greeting.{length-greeting}

-- By the reply of identd and the configuration the client may write.
abbrev pub may_write : Connection → Server → Bool
may_write c s = elim c.ident [
  | none ↦ false
  | some reply ↦ auth_search s.aq (ident_user c reply) c.sa.addr
]

-- A client that has been greeted: what it may do, and that it does not watch yet.
record Welcomed (c : Connection) (s : Server) (g : Greeted) : Type 0 where
  plain : g.flag < 8
  quiet : has_flag g.flag flag_monitor ≡ false
  read : has_flag g.flag flag_read ≡ true
  write : has_flag g.flag flag_write ≡ may_write c s
  queue : g.server.pq ≡ s.pq
  inv : Inv s → Inv g.server

greet-Welcomed : (c : Connection) (s : Server) (g : Greeted) → greet c s ≡ some g → Welcomed c s g
unfolding raise has_flag
greet-Welcomed c s =
    greet_cases (Welcomed c s) c s
      (λ e. record {
        plain = omega arith;
        quiet = refl;
        read = refl;
        write = rw e refl;
        queue = refl;
        inv = λ v. emit-Inv v _;
      })
      (λ reply e. record {
        plain = ground arith;
        quiet = ground arith;
        read = ground arith;
        write = ground arith;
        queue = refl;
        inv = λ v. emit-Inv (emit-Inv (emit-Inv v _) _) _;
      })

-- The user that identd names, if it answers, and the address fit the greeting.
abbrev pub GreetingFits : Connection → Type 0
GreetingFits c =
    (reply : List ℕ) → c.ident ≡ some reply → length (ident_user c reply) + length c.dotted ≤ 213

greet_fits : (c : Connection) (s : Server) → GreetingFits c → (g : Greeted) × (greet c s ≡ some g)
unfolding greet
greet_fits c s fits = elim (Option-cases c.ident) [
  | inl e ↦ (
    record { flag = flag_read; userid = none; server = emit (Event.writes c.fd no_ident_text) s },
    rw (e, greet) refl,
  )
  | inr (reply, e) ↦
      let user = ident_user c reply in
      let full = auth_search s.aq user c.sa.addr in
      let small : ltb user_size (length (greeting full user c.dotted) + 1) ≡ false =
        ground (arith, length-greeting full user c.dotted, fits reply e) in
      (
        record {
          flag = if full then raise flag_read flag_write else flag_read;
          userid = some (record { at = c.place; text = user });
          server = emit (Event.writes c.fd (greeting full user c.dotted)) (
              emit (Event.closes c.ident_fd) (emit (Event.writes (some c.ident_fd) (request c)) s));
        },
        rw (e, greet, small) refl,
      )
]

admit-Inv :
    (allocated : Bool) (p : Port) (s : Server)
    → has p.fd s.pq ≡ false
    → IsPlain p
    → is_monitor p ≡ false
    → Inv s
    → Inv (admit allocated p s)
unfolding admit
admit-Inv true p s new plain quiet v = port_enqueue-Inv true p s new plain quiet v
admit-Inv false p s new plain quiet v = emit-Inv v _

-- The client at the head of the queue after its connection.
pub record Admitted (c : Connection) (accepted : ℕ) (s t : Server) (p : Port) : Type 0 where
  pub queue : t.pq ≡ p ∷ s.pq
  pub fd : p.fd ≡ accepted
  pub read : has_flag p.flag flag_read ≡ true
  pub write : has_flag p.flag flag_write ≡ may_write c s
  pub quiet : is_monitor p ≡ false

module _ (c : Connection) (fd : ℕ) (s : Server) (e : c.fd ≡ some fd) (new : has fd s.pq ≡ false)
    (v : Inv s) (g : Greeted) (greeted : greet c s ≡ some g) where
  abbrev joined : Port
  joined = record { fd = fd; sa = c.sa; flag = g.flag; userid = g.userid }

  port_daemon_runs : port_daemon c s ≡ some (admit c.allocated joined g.server)
  unfolding port_daemon
  port_daemon_runs = rw (port_daemon, greeted, e) refl

  joined-Inv : Inv (admit c.allocated joined g.server)
  joined-Inv =
      let w = greet-Welcomed c s g greeted in
      admit-Inv c.allocated joined g.server (ap (has fd) w.queue ∙ new) w.plain w.quiet (w.inv v)

  joined-Admitted :
      c.allocated ≡ true → (p : Port) × Admitted c fd s (admit c.allocated joined g.server) p
  unfolding port_enqueue admit
  joined-Admitted a =
      let w = greet-Welcomed c s g greeted in
      (
        joined,
        record {
          queue = ground (arith, w.queue);
          fd = refl;
          read = w.read;
          write = w.write;
          quiet = w.quiet;
        },
      )

pub port_daemon_kept :
    (c : Connection) (fd : ℕ) (s t : Server)
    → c.fd ≡ some fd
    → has fd s.pq ≡ false
    → Inv s
    → port_daemon c s ≡ some t
    → Inv t
unfolding port_daemon
port_daemon_kept c fd s t e new v run = elim (Option-cases (greet c s)) [
  | inl fault ↦ let stopped = rw (port_daemon, fault) at run in cc
  | inr (g, greeted) ↦
      let done = port_daemon_runs c fd s e new v g greeted in
      let same : admit c.allocated (joined c fd s e new v g greeted) g.server ≡ t = ground arith in
      subst Inv same (joined-Inv c fd s e new v g greeted)
]

-- When accept returns a descriptor that no client has, and the user that identd names, if it answers,
-- and the address have at most 213 bytes, port_daemon does not fault and keeps the invariant. If
-- memory is left the client is then at the head of the queue, with the read flag, with
-- the write flag exactly when identd answered with a user to whom the configuration grants access
-- from that address, and without the monitor flag.
pub port_daemon-Admitted :
    (c : Connection) (fd : ℕ) (s : Server)
    → c.fd ≡ some fd
    → has fd s.pq ≡ false
    → GreetingFits c
    → Inv s
    → (t : Server) × (port_daemon c s ≡ some t)
      × Inv t
      × (c.allocated ≡ true → (p : Port) × Admitted c fd s t p)
port_daemon-Admitted c fd s e new fits v =
    let (g, greeted) = greet_fits c s fits in
    (
      admit c.allocated (joined c fd s e new v g greeted) g.server,
      port_daemon_runs c fd s e new v g greeted,
      joined-Inv c fd s e new v g greeted,
      joined-Admitted c fd s e new v g greeted,
    )
