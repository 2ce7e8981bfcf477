-- ===== src/Server/Access/Broadcast.antt =====
-- fifo_server gives no one control access.
use diald_top.Base.{
  ℕ, zero, suc, ◌≡◌, sym, subst, ◌||◌, arith, inl, inr, Bool-cases, Option-cases, Option, some,
  List, [], ◌∷◌, ℤ, pos, inc, ltb_ℤ, eqb_ℤ, get_elem?, length, All,
}
use diald_top.Server.Ports.{flag_monitor, has_flag}
use diald_top.Server.State.{Server, Event, emit}
use diald_top.Server.PortQueue.{close_port}
use diald_top.Server.Invariant.{Inv, emit-Inv}
use diald_top.Server.Commands.Effects.{close_port-Inv}
use diald_top.Server.Monitor.{monitor_close}
use diald_top.Server.Fifo.{Failures, spread, spread_fuel, pump, fifo_server}
use diald_top.Server.Access.{Covered, Kept, stays, follows}
use diald_top.Server.Access.Lines.{close_port-Kept}

-- A run from `s` that comes to its end keeps the clients, and the invariant.
abbrev Holds : Server → Server → Type 0
Holds s t = Kept s t × Inv t

spread-Holds :
    (epipe : Failures) (line : List ℕ) (fuel k : ℕ) (i : ℤ) (n n' : ℕ) (s t : Server)
    → Inv s
    → spread epipe line fuel k i n s ≡ some (n', t)
    → Holds s t
unfolding spread
spread-Holds epipe line zero k i n n' s t v run = cc
spread-Holds epipe line (suc f) k i n n' s t v run = elim (Option-cases (get_elem? s.pq k)) [
  | inl e ↦ ends n (rw (e, spread) at run)
  | inr (p, e) ↦ elim (Bool-cases (ltb_ℤ i s.monitorcount)) [
    | inr done ↦ ends n (rw (e, spread, done) at run)
    | inl more ↦ elim (Bool-cases (has_flag p.flag flag_monitor)) [
      | inr off ↦ spread-Holds epipe line f (suc k) i n n' s t v (rw (e, spread, more, off) at run)
      | inl on ↦
          let told = emit (Event.writes (some p.fd) line) s in
          let w = emit-Inv v (Event.writes (some p.fd) line) in
          elim (Bool-cases (epipe n)) [
            | inr fine ↦
                let (h, x) =
                  spread-Holds epipe line f (suc k) (inc i) (suc n) n' told t w
                    (rw (e, spread, more, on, fine) at run) in
                (record { users = h.users; clients = h.clients }, x)
            | inl broken ↦
                let (h, x) =
                  spread-Holds epipe line f 0 (inc i) (suc n) n' (close_port p told) t
                    (close_port-Inv w k e) (rw (e, spread, more, on, broken) at run) in
                let g = close_port-Kept w k e in
                (
                  follows s (close_port p told) t (record { users = g.users; clients = g.clients })
                      h,
                  x,
                )
          ]
    ]
  ]
]
  where
    ends : (m : ℕ) → ◌≡◌ {A = Option (ℕ × Server)} (some (m, s)) (some (n', t)) → Holds s t
    ends m e = let same : s ≡ t = ground arith in subst (Holds s) same (stays s, v)

pump-Holds :
    (epipe : Failures) (lines : List (List ℕ)) (n : ℕ) (s t : Server)
    → Inv s
    → pump epipe lines n s ≡ some t
    → Kept s t
unfolding pump
pump-Holds epipe [] n s t v run = let same : s ≡ t = ground arith in subst (Kept s) same (stays s)
pump-Holds epipe (line ∷ lines) n s t v run =
    elim (Option-cases (spread epipe line (spread_fuel (length s.pq)) 0 (pos 0) n s)) [
      | inl e ↦ let out = rw (e, pump) at run in cc
      | inr ((n', u), e) ↦
          let (h, w) = spread-Holds epipe line (spread_fuel (length s.pq)) 0 (pos 0) n n' s u v e in
          elim (Bool-cases (eqb_ℤ u.monitorcount (pos 0))) [
            | inl unwatched ↦
                let last = rw (e, pump, unwatched) at run in
                let same : u ≡ t = ground arith in subst (Kept s) same h
            | inr watched ↦
                follows s u t h (pump-Holds epipe lines n' u t w (rw (e, pump, watched) at run))
          ]
    ]

monitor_close-pq : (s : Server) → (monitor_close s).pq ≡ s.pq
unfolding monitor_close
monitor_close-pq s = ground arith

monitor_close-aq : (s : Server) → (monitor_close s).aq ≡ s.aq
unfolding monitor_close
monitor_close-aq s = ground arith

monitor_close-Kept : (s : Server) → Kept s (monitor_close s)
monitor_close-Kept s = record {
  users = monitor_close-aq s;
  clients = λ aq h. subst (All (Covered aq)) (sym (monitor_close-pq s)) h;
}

pub fifo_server-Kept :
    (epipe : Failures) (lines : List (List ℕ)) (s t : Server)
    → Inv s
    → fifo_server epipe lines s ≡ some t
    → Kept s t
unfolding fifo_server
fifo_server-Kept epipe lines s t v run =
    elim (Bool-cases (eqb_ℤ s.fds.ps.fullcount (pos 0) || eqb_ℤ s.monitorcount (pos 0))) [
      | inl unwatched ↦
          let last = rw (unwatched, fifo_server) at run in
          let same : monitor_close s ≡ t = ground arith in
          subst (Kept s) same (monitor_close-Kept s)
      | inr watched ↦ pump-Holds epipe lines 0 s t v (rw (watched, fifo_server) at run)
    ]
