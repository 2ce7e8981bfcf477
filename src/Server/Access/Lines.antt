-- ===== src/Server/Access/Lines.antt =====
-- Lines from clients, and the ends of connections, give no one control access.
use diald_top.Base.{
  ℕ, zero, suc, ◌≡◌, refl, sym, subst, ◌∙◌, ap, arith, Bool, inl, inr, Bool-cases, Option-cases,
  if◌then◌else◌, Option, none, some, List, [], ◌∷◌, ℤ, pos, inc, ltb_ℤ, get_elem?, length, All,
}
use diald_top.Server.Ports.{Port, flag_monitor, raise}
use diald_top.Server.State.{AuthData, Server}
use diald_top.Server.PortQueue.{hang_up, close_port}
use diald_top.Server.PortQueue.Queue.{All-get, All-set, All-delete_at}
use diald_top.Server.PortQueue.Keeps.{close_port-closed}
use diald_top.Server.Invariant.{IsPlain, Inv}
use diald_top.Server.Monitor.{PipeAnswer, monitor_open}
use diald_top.Server.Commands.{stop_monitor, start_monitor, set_flag, parse_incoming, parse_cases}
use diald_top.Server.Commands.Steps.{after_line, put_back}
use diald_top.Server.PortServer.{Answers, receive, serve, port_server}
use diald_top.Server.PortServer.Keeps.{outcome, receive_cases, receive-Inv, receive-Steps}
use diald_top.Server.PortServer.Reasons.{after_line-kept}
use diald_top.Server.Access.{verdict, Covered, Kept, stays, follows}

after_line-same :
    (line : List ℕ) (p q : Port)
    → after_line line p ≡ some q
    → (q.userid ≡ p.userid) × (q.sa ≡ p.sa)
unfolding after_line
after_line-same line p q e = ground arith

after_line-Covered :
    (aq : List AuthData) (line : List ℕ) (p q : Port)
    → IsPlain p
    → after_line line p ≡ some q
    → Covered aq p
    → Covered aq q
after_line-Covered aq line p q plain e h w =
    let kept = after_line-kept line p q plain e in
    let same = after_line-same line p q e in
    ap (λ u. verdict aq u q.sa.addr) same.0
    ∙ (ap (λ sa. verdict aq p.userid sa.addr) same.1 ∙ h (sym kept.1 ∙ w))

outcome-Covered :
    (a : Answers) (aq : List AuthData) (p q : Port)
    → IsPlain p
    → outcome a p ≡ some q
    → Covered aq p
    → Covered aq q
unfolding outcome
outcome-Covered a aq p q plain e h = by_bytes (a.recv p.fd) refl
  where
    by_bytes : (bytes : List ℕ) → a.recv p.fd ≡ bytes → Covered aq q
    by_bytes [] g = let gone = rw (g, outcome) at e in cc
    by_bytes (c ∷ line) g = after_line-Covered aq (c ∷ line) p q plain (rw (g, outcome) at e) h

monitor_open-aq : (a : PipeAnswer) (s : Server) → (monitor_open a s).aq ≡ s.aq
unfolding monitor_open
monitor_open-aq a s = ground arith

module _ {s : Server} (v : Inv s) (k : ℕ) {p : Port} (at : get_elem? s.pq k ≡ some p) where
  close_port-aq : (close_port p s).aq ≡ s.aq
  unfolding hang_up
  close_port-aq = rw (close_port-closed v k at) ground arith

  pub close_port-Kept : Kept s (close_port p s)
  unfolding hang_up
  close_port-Kept = record {
    users = close_port-aq;
    clients = λ aq h. rw (close_port-closed v k at) (All-delete_at (Covered aq) s.pq k h);
  }

  parse_incoming-aq :
      (a : PipeAnswer) (line : List ℕ) (r : Bool × Server)
      → parse_incoming a line k p s ≡ some r
      → r.1.aq ≡ s.aq
  unfolding stop_monitor start_monitor
  parse_incoming-aq a line =
      parse_cases (λ r. r.1.aq ≡ s.aq) a line k p s (λ _. ground arith)
        (λ _ _. ground (
          arith,
          monitor_open-aq a (
              set_flag k p (raise p.flag flag_monitor)
                (record s { monitorcount = inc s.monitorcount })),
        ))
        (λ _ _ _. close_port-aq) (λ _ _ _ _. refl) (λ _ _ _ _. refl)

  module _ (a : Answers) where
    receive-aq : (r : Bool × Server) → receive a k p s ≡ some r → r.1.aq ≡ s.aq
    receive-aq =
        receive_cases a v k at (λ r. r.1.aq ≡ s.aq) (λ _. close_port-aq)
          (λ c line r _. parse_incoming-aq (a.pipe p.fd) (c ∷ line) r)

    put_back-Covered :
        (aq : List AuthData) (q : Option Port)
        → outcome a p ≡ q
        → All (Covered aq) s.pq
        → All (Covered aq) (put_back s.pq k q)
    put_back-Covered aq none e h = All-delete_at (Covered aq) s.pq k h
    put_back-Covered aq (some q) e h =
        All-set (Covered aq) s.pq k q
          (outcome-Covered a aq p q (All-get IsPlain s.pq k v.plain at) e
            (All-get (Covered aq) s.pq k h at))
          h

    receive-Kept : (r : Bool × Server) → receive a k p s ≡ some r → Kept s r.1
    receive-Kept r run = record {
      users = receive-aq r run;
      clients = λ aq h.
          subst (All (Covered aq)) (sym (receive-Steps a v k at r run).queue)
            (put_back-Covered aq (outcome a p) refl h);
    }

serve-Kept :
    (a : Answers) (count : ℤ) (fuel k : ℕ) (i : ℤ) (s t : Server)
    → Inv s
    → serve a count fuel k i s ≡ some t
    → Kept s t
unfolding serve
serve-Kept a count zero k i s t v run = cc
serve-Kept a count (suc fuel) k i s t v run = elim (Option-cases (get_elem? s.pq k)) [
  | inl e ↦ ends (rw (e, serve) at run)
  | inr (p, e) ↦ elim (Bool-cases (ltb_ℤ i count)) [
    | inr done ↦ ends (rw (e, serve, done) at run)
    | inl more ↦ elim (Bool-cases (s.fds.ps.sel p.fd)) [
      | inr idle ↦ serve-Kept a count fuel (suc k) i s t v (rw (e, serve, more, idle) at run)
      | inl ready ↦ elim (Option-cases (receive a k p s)) [
        | inl fault ↦ let stopped = rw (e, serve, more, ready, fault) at run in cc
        | inr (r, got) ↦ follows s r.1 t (receive-Kept v k e a r got) (
            serve-Kept a count fuel (if r.0 then k else suc k) (inc i) r.1 t
              (receive-Inv a v k e r got) (rw (e, serve, more, ready, got) at run))
      ]
    ]
  ]
]
  where
    ends : some s ≡ some t → Kept s t
    ends e = let same : s ≡ t = ground arith in subst (Kept s) same (stays s)

pub port_server-Kept : (a : Answers) (s t : Server) → Inv s → port_server a s ≡ some t → Kept s t
unfolding port_server
port_server-Kept a s t v run =
    serve-Kept a s.fds.ps.selcount (suc (length s.pq)) 0 (pos 0) s t v run
