-- ===== src/Server/Fifo/Keeps.antt =====
-- fifo_server ends, and keeps the invariant.
use diald_top.Base.{
  ℕ, zero, suc, ◌+◌, ◌*◌, ◌<◌, ◌≤◌, ◌≡◌, refl, ◌||◌, arith, inl, inr, Bool-cases, Option-cases,
  Option, some, List, [], ◌∷◌, ℤ, pos, inc, ltb_ℤ, eqb_ℤ, get_elem?, length,
}
use diald_top.Server.Ports.{Port, flag_monitor, has_flag}
use diald_top.Server.State.{Event, Server, emit}
use diald_top.Server.PortQueue.{close_port}
use diald_top.Server.PortQueue.Queue.{length-delete_at}
use diald_top.Server.Invariant.{Inv, emit-Inv}
use diald_top.Server.Monitor.{monitor_close}
use diald_top.Server.Monitor.Keeps.{monitor_close-Inv}
use diald_top.Server.Commands.Effects.{close_port-Inv}
use diald_top.Server.Commands.Steps.{close_port-Steps}
use diald_top.Server.PortServer.Keeps.{get_bound}
use diald_top.Server.Fifo.{Failures, spread, spread_fuel, pump, fifo_server}

-- The run returns, with the invariant.
abbrev Returns : Option (ℕ × Server) → Type 0
Returns r = (n : ℕ) × (t : Server) × (r ≡ some (n, t)) × Inv t

closed-length :
    {s : Server} (v : Inv s) (k : ℕ) {p : Port}
    → get_elem? s.pq k ≡ some p
    → length s.pq ≡ suc (length (close_port p s).pq)
closed-length {s} v k at = rw (close_port-Steps v k at).queue (length-delete_at s.pq k at)

shrinks : (l m f k : ℕ) → l ≡ suc m → k < l → l * l + l < suc f + k → m * m + m < f + 0
shrinks l m f k e lt h = let h' : suc m * suc m + suc m < suc f + k = rw e at h in omega arith

spread-Returns :
    (epipe : Failures) (line : List ℕ) (fuel k : ℕ) (i : ℤ) (n : ℕ) (s : Server)
    → Inv s
    → k ≤ length s.pq
    → length s.pq * length s.pq + length s.pq < fuel + k
    → Returns (spread epipe line fuel k i n s)
unfolding spread
spread-Returns epipe line zero k i n s v le enough = absurd (omega arith)
spread-Returns epipe line (suc f) k i n s v le enough = elim (Option-cases (get_elem? s.pq k)) [
  | inl e ↦ (n, s, rw (e, spread), v)
  | inr (p, e) ↦ elim (Bool-cases (ltb_ℤ i s.monitorcount)) [
    | inr done ↦ (n, s, rw (e, spread, done), v)
    | inl more ↦ elim (Bool-cases (has_flag p.flag flag_monitor)) [
      | inr off ↦
          rw (e, spread, more, off)
            (spread-Returns epipe line f (suc k) i n s v (get_bound s.pq k e) (omega arith))
      | inl on ↦
          let t = emit (Event.writes (some p.fd) line) s in
          let w = emit-Inv v (Event.writes (some p.fd) line) in
          elim (Bool-cases (epipe n)) [
            | inr fine ↦
                rw (e, spread, more, on, fine)
                  (spread-Returns epipe line f (suc k) (inc i) (suc n) t w (get_bound s.pq k e)
                    (omega arith))
            | inl broken ↦
                rw (e, spread, more, on, broken)
                  (spread-Returns epipe line f 0 (inc i) (suc n) (close_port p t)
                    (close_port-Inv w k e) (omega arith)
                    (shrinks _ _ f k (closed-length w k e) (get_bound s.pq k e) enough))
          ]
    ]
  ]
]

pump-Inv :
    (epipe : Failures) (lines : List (List ℕ)) (n : ℕ) (s : Server)
    → Inv s
    → (t : Server) × (pump epipe lines n s ≡ some t) × Inv t
unfolding pump
pump-Inv epipe [] n s v = (s, refl, v)
pump-Inv epipe (line ∷ lines) n s v =
    let (n', t, run, w) =
      spread-Returns epipe line (spread_fuel (length s.pq)) 0 (pos 0) n s v (omega arith)
        (omega arith) in
    elim (Bool-cases (eqb_ℤ t.monitorcount (pos 0))) [
      | inl unwatched ↦ (t, rw (run, pump, unwatched), w)
      | inr watched ↦ rw (run, pump, watched) (pump-Inv epipe lines n' t w)
    ]

-- fifo_server ends, within the rounds given, whatever diald writes and whichever writes to the
-- clients fail, and keeps the invariant.
pub fifo_server-Inv :
    (epipe : Failures) (lines : List (List ℕ)) (s : Server)
    → Inv s
    → (t : Server) × (fifo_server epipe lines s ≡ some t) × Inv t
unfolding fifo_server
fifo_server-Inv epipe lines s v =
    elim (Bool-cases (eqb_ℤ s.fds.ps.fullcount (pos 0) || eqb_ℤ s.monitorcount (pos 0))) [
      | inl unwatched ↦ rw unwatched (monitor_close s, refl, monitor_close-Inv s v)
      | inr watched ↦ rw watched (pump-Inv epipe lines 0 s v)
    ]
