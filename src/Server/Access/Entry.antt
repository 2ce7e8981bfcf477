-- ===== src/Server/Access/Entry.antt =====
-- Control access begins in port_daemon and on SIGHUP.
use diald_top.Base.{
  ℕ, ◌≡◌, sym, subst, ◌∙◌, ap, refl, Bool, true, false, arith, inl, inr, Bool-cases, Option-cases,
  some, List, [], ◌∷◌, All,
}
use diald_top.Server.Ports.{Port, flag_write, has_flag, raise}
use diald_top.Server.State.{AuthData, Server}
use diald_top.Server.PortQueue.{port_enqueue}
use diald_top.Server.Auth.Reauth.{may_write, Rechecked, AllRechecked}
use diald_top.Server.Auth.Reload.{Reloaded}
use diald_top.Server.Daemon.{Connection, Greeted, greet, greet_cases, admit, port_daemon}
use diald_top.Server.Access.{verdict, Covered, Authorised}

-- What the greeting leaves, and that who is greeted with control access has it from the configuration.
record Granted (c : Connection) (s : Server) (g : Greeted) : Type 0 where
  access : has_flag g.flag flag_write ≡ true → verdict s.aq g.userid c.sa.addr ≡ true
  queue : g.server.pq ≡ s.pq
  users : g.server.aq ≡ s.aq

greet-Granted : (c : Connection) (s : Server) (g : Greeted) → greet c s ≡ some g → Granted c s g
unfolding has_flag raise
greet-Granted c s =
    greet_cases (Granted c s) c s
      (λ e. record { access = λ w. ground arith; queue = refl; users = refl })
      (λ reply e. record { access = λ w. ground arith; queue = refl; users = refl })

admit-Authorised :
    (allocated : Bool) (p : Port) (s : Server)
    → Covered s.aq p
    → Authorised s
    → Authorised (admit allocated p s)
unfolding admit port_enqueue
admit-Authorised true p s h a = (h, a)
admit-Authorised false p s h a = a

pub port_daemon-Authorised :
    (c : Connection) (s t : Server) → port_daemon c s ≡ some t → Authorised s → Authorised t
unfolding port_daemon
port_daemon-Authorised c s t run h = elim (Option-cases (greet c s)) [
  | inl long ↦ let fault = rw (port_daemon, long) at run in cc
  | inr (g, k) ↦ elim (Option-cases c.fd) [
    | inl e ↦ elim (Bool-cases c.allocated) [
      | inl full ↦ let fault = rw (port_daemon, k, e, full) at run in cc
      | inr refused ↦
          let last = rw (port_daemon, k, e, refused) at run in
          let same : g.server ≡ t = ground arith in subst Authorised same (greeted g k)
    ]
    | inr (fd, e) ↦
        let last = rw (port_daemon, k, e) at run in
        let same : admit c.allocated (joined g fd) g.server ≡ t = ground arith in
        let granted = greet-Granted c s g k in
        subst Authorised same (
          admit-Authorised c.allocated (joined g fd) g.server
            (subst (λ aq. Covered aq (joined g fd)) (sym granted.users) granted.access)
            (greeted g k))
  ]
]
  where
    greeted : (g : Greeted) → greet c s ≡ some g → Authorised g.server
    greeted g k = let granted = greet-Granted c s g k in rw (granted.users, granted.queue) h

    joined : Greeted → ℕ → Port
    joined g fd = record { fd = fd; sa = c.sa; flag = g.flag; userid = g.userid }

verdict_of : (aq : List AuthData) (p : Port) → verdict aq p.userid p.sa.addr ≡ may_write aq p
verdict_of aq p = ground arith

Rechecked-Covered : (aq : List AuthData) (p q : Port) → Rechecked aq p q → Covered aq q
Rechecked-Covered aq p q r w =
    ap (λ u. verdict aq u q.sa.addr) r.userid
    ∙ (ap (λ sa. verdict aq p.userid sa.addr) r.addr ∙ (verdict_of aq p ∙ (sym r.access.write ∙ w)))

AllRechecked-Covered :
    (aq : List AuthData) (ps qs : List Port) → AllRechecked aq ps qs → All (Covered aq) qs
AllRechecked-Covered aq [] [] h = tt
AllRechecked-Covered aq [] (q ∷ qs) h = absurd h
AllRechecked-Covered aq (p ∷ ps) [] h = absurd h
AllRechecked-Covered aq (p ∷ ps) (q ∷ qs) h =
    (Rechecked-Covered aq p q h.0, AllRechecked-Covered aq ps qs h.1)

pub Reloaded-Authorised : (aq : List AuthData) (s t : Server) → Reloaded aq s t → Authorised t
Reloaded-Authorised aq s t r =
    subst (λ users. All (Covered users) t.pq) (sym r.users)
      (AllRechecked-Covered aq s.pq t.pq r.clients)
