-- ===== src/Server/Fifo/Lost.antt =====
-- After a failed write the inner loop of fifo_server starts again at the head of the queue, with its
-- counter kept: the clients behind the failure may get nothing.
use diald_top.Base.{
  ℕ, suc, ◌≡◌, ap, ◌∙◌, true, false, ◌||◌, arith, some, List, [], ◌∷◌, pos, eqb_ℤ, get_elem?,
  length,
}
use diald_top.Server.Ports.{Port}
use diald_top.Server.State.{Event, Server, emit}
use diald_top.Server.PortQueue.{hang_up, close_port}
use diald_top.Server.PortQueue.Queue.{is_monitor, monitors}
use diald_top.Server.PortQueue.Keeps.{close_port-closed}
use diald_top.Server.Invariant.{Inv, emit-Inv}
use diald_top.Server.Fifo.{Failures, spread, spread_fuel, pump, fifo_server}

-- What is left of three watching clients after the second was closed on a failed write.
pub record Lost (s : Server) (line : List ℕ) (p q r : Port) (t : Server) : Type 0 where
  pub queue : t.pq ≡ p ∷ r ∷ []
  pub trace :
      t.trace
      ≡ Event.closes q.fd
        ∷ (Event.writes (some q.fd) line ∷ (Event.writes (some p.fd) line ∷ s.trace))

module _ {s : Server} (v : Inv s) (line : List ℕ) {p q r : Port} (clients : s.pq ≡ p ∷ q ∷ r ∷ [])
    (wp : is_monitor p ≡ true) (wq : is_monitor q ≡ true) (wr : is_monitor r ≡ true) where
  abbrev told : Server
  told = emit (Event.writes (some q.fd) line) (emit (Event.writes (some p.fd) line) s)

  told-Inv : Inv told
  told-Inv = emit-Inv (emit-Inv v _) _

  second : get_elem? told.pq 1 ≡ some q
  second = rw clients

  watching : s.monitorcount ≡ pos 3
  unfolding monitors
  watching = ground (arith, v.counted)

  closed-Lost : Lost s line p q r (close_port q told) × ((close_port q told).monitorcount ≡ pos 2)
  unfolding hang_up
  closed-Lost =
      rw (close_port-closed told-Inv 1 second)
        (record { queue = ground arith; trace = ground arith }, ground (arith, watching))

  module _ (epipe : Failures) (fine : epipe 0 ≡ false) (broken : epipe 1 ≡ true) where
    ends :
        (f : ℕ)
        → spread epipe line (suc f) 0 (pos 2) 2 (close_port q told) ≡ some (2, close_port q told)
    unfolding spread
    ends f = ground (arith, closed-Lost.0.queue, closed-Lost.1)

    spread_lost :
        (f : ℕ) → spread epipe line (suc (suc (suc f))) 0 (pos 0) 0 s ≡ some (2, close_port q told)
    unfolding spread
    spread_lost f = ground (arith, watching, ends f)

    pump_lost : pump epipe (line ∷ []) 0 s ≡ some (close_port q told)
    unfolding pump
    pump_lost =
        let fuel = ap (λ (z : List Port). spread_fuel (length z)) clients in
        let run = ap (λ n. spread epipe line n 0 (pos 0) 0 s) fuel ∙ spread_lost 10 in
        let still : eqb_ℤ (close_port q told).monitorcount (pos 0) ≡ false =
          ground (arith, closed-Lost.1) in
        rw (run, pump, still)

-- When three clients watch, the write of a line to the first succeeds, and that to the second fails
-- with EPIPE, fifo_server closes the second and ends without having written the line to the third,
-- which stays connected.
pub fifo_server-Lost :
    (epipe : Failures) (line : List ℕ) (s : Server) (p q r : Port)
    → Inv s
    → s.pq ≡ p ∷ q ∷ r ∷ []
    → is_monitor p ≡ true
    → is_monitor q ≡ true
    → is_monitor r ≡ true
    → epipe 0 ≡ false
    → epipe 1 ≡ true
    → (t : Server) × (fifo_server epipe (line ∷ []) s ≡ some t) × Lost s line p q r t
unfolding fifo_server
fifo_server-Lost epipe line s p q r v clients wp wq wr fine broken =
    let busy : (eqb_ℤ s.fds.ps.fullcount (pos 0) || eqb_ℤ s.monitorcount (pos 0)) ≡ false =
      ground (arith, v.lists.fullcount, watching v line clients wp wq wr) in
    (
      close_port q (told v line clients wp wq wr),
      rw busy (pump_lost v line clients wp wq wr epipe fine broken),
      (closed-Lost v line clients wp wq wr).0,
    )
