-- ===== src/Server/Fifo/Broadcast.antt =====
-- While no write fails, every line goes to every client that watches, once.
use mathlib.Core.List.{append-nil}
use diald_top.Base.{
  ℕ, zero, suc, ◌+◌, ◌<◌, ◌≤◌, ◌≡◌, ◌≢◌, refl, ap, ◌∙◌, sym, false, ◌||◌, arith, inl, inr,
  Bool-cases, if◌then◌else◌, Option, none, some, List, [], ◌∷◌, ◌++◌, pos, ltb_ℤ, eqb_ℤ, get_elem?,
  length,
}
use diald_top.Server.Ports.{Port}
use diald_top.Server.State.{Event, Server, emit}
use diald_top.Server.PortQueue.Queue.{is_monitor, monitors}
use diald_top.Server.PortServer.Served.{get-append, get-end, snoc, length-snoc}
use diald_top.Server.Invariant.{Inv}
use diald_top.Server.Fifo.{Failures, spread, spread_fuel, pump, fifo_server}

-- The trace after one line has been written to each watching client, in the order of the queue.
unfoldable pub sent : List ℕ → List Port → List Event → List Event
sent line [] trace = trace
sent line (p ∷ ps) trace =
    sent line ps (if is_monitor p then Event.writes (some p.fd) line ∷ trace else trace)

unfoldable pub all_sent : List (List ℕ) → List Port → List Event → List Event
all_sent [] ps trace = trace
all_sent (line ∷ lines) ps trace = all_sent lines ps (sent line ps trace)

sent_unwatched :
    (line : List ℕ) (ps : List Port) (trace : List Event)
    → monitors ps ≡ 0
    → sent line ps trace ≡ trace
unfolding sent monitors
sent_unwatched line [] trace e = refl
sent_unwatched line (p ∷ ps) trace e = ground (arith, sent_unwatched line ps trace)

monitors-le : (ps : List Port) → monitors ps ≤ length ps
unfolding monitors
monitors-le [] = omega arith
monitors-le (p ∷ ps) = ground (arith, monitors-le ps)

module _ {epipe : Failures} (fine : (n : ℕ) → epipe n ≡ false) (line : List ℕ) (c : ℕ) where
  abbrev Sends : Server → List Port → Option (ℕ × Server) → Type 0
  Sends s rest r = (n : ℕ) × (r ≡ some (n, record s { trace = sent line rest s.trace }))

  spread-Sends :
      (fuel k m n : ℕ) (s : Server) (pre rest : List Port)
      → s.monitorcount ≡ pos c
      → k ≡ length pre
      → s.pq ≡ pre ++ rest
      → m + monitors rest ≡ c
      → length rest < fuel
      → Sends s rest (spread epipe line fuel k (pos m) n s)
  unfolding spread sent monitors
  spread-Sends zero k m n s pre rest count at q e enough = absurd (omega arith)
  spread-Sends (suc f) k m n s pre [] count at q e enough =
      let done : get_elem? s.pq k ≡ none = rw (q, append-nil pre, at) (get-end pre) in
      (n, rw (done, spread))
  spread-Sends (suc f) k m n s pre (p ∷ rest) count at q e enough =
      elim (Bool-cases (ltb_ℤ (pos m) s.monitorcount)) [
        | inr done ↦
            let left : monitors (p ∷ rest) ≡ 0 = ground arith in
            (
              n,
              rw (here, spread, done)
                  (ap (λ z. some (n, record s { trace = z }))
                    (sym (sent_unwatched line (p ∷ rest) s.trace left))),
            )
        | inl more ↦ elim (Bool-cases (is_monitor p)) [
          | inr off ↦
              rw (here, spread, more, off)
                (spread-Sends f (suc k) m n s (pre ++ p ∷ []) rest count
                  (ap suc at ∙ length-snoc pre p) (q ∙ snoc pre rest p) (ground arith)
                  (omega arith))
          | inl on ↦
              rw (here, spread, more, on, fine n)
                (spread-Sends f (suc k) (suc m) (suc n) (emit (Event.writes (some p.fd) line) s)
                  (pre ++ p ∷ []) rest count (ap suc at ∙ length-snoc pre p) (q ∙ snoc pre rest p)
                  (ground arith) (omega arith))
        ]
      ]
    where
      here : get_elem? s.pq k ≡ some p
      here = rw (q, at) (get-append p rest pre)

pump-all_sent :
    (epipe : Failures) (fine : (n : ℕ) → epipe n ≡ false) (lines : List (List ℕ)) (n : ℕ)
    (s : Server)
    → s.monitorcount ≡ pos (monitors s.pq)
    → monitors s.pq ≢ 0
    → pump epipe lines n s ≡ some (record s { trace = all_sent lines s.pq s.trace })
unfolding pump all_sent
pump-all_sent epipe fine [] n s count watched = refl
pump-all_sent epipe fine (line ∷ lines) n s count watched =
    let (n', run) =
      spread-Sends fine line (monitors s.pq) (spread_fuel (length s.pq)) 0 0 n s [] s.pq count refl
        refl (omega arith) (omega arith) in
    let still : eqb_ℤ s.monitorcount (pos 0) ≡ false = ground arith in
    rw (run, pump, still)
      (pump-all_sent epipe fine lines n' (record s { trace = sent line s.pq s.trace }) count
        watched)

-- While some client watches and no write fails, fifo_server writes each line that diald wrote to
-- each watching client exactly once, line by line and in the order of the queue, and changes
-- nothing else.
pub fifo_server-all_sent :
    (epipe : Failures) (lines : List (List ℕ)) (s : Server)
    → ((n : ℕ) → epipe n ≡ false)
    → Inv s
    → monitors s.pq ≢ 0
    → fifo_server epipe lines s ≡ some (record s { trace = all_sent lines s.pq s.trace })
unfolding fifo_server
fifo_server-all_sent epipe lines s fine v watched =
    let busy : (eqb_ℤ s.fds.ps.fullcount (pos 0) || eqb_ℤ s.monitorcount (pos 0)) ≡ false =
      ground (arith, v.lists.fullcount, v.counted, monitors-le s.pq) in
    rw busy (pump-all_sent epipe fine lines 0 s v.counted watched)
