-- ===== src/Server/Fifo.antt =====
-- fifo_server of server/fifo-server.c: what diald says, passed on to the clients that watch.
pub mod Keeps
pub mod Broadcast
pub mod Lost
use diald_top.Base.{
  ℕ, zero, suc, ◌+◌, ◌*◌, Bool, true, false, ◌||◌, if◌then◌else◌, Option, none, some, List, [], ◌∷◌,
  ℤ, pos, inc, ltb_ℤ, eqb_ℤ, get_elem?, length,
}
use diald_top.Server.Ports.{flag_monitor, has_flag}
use diald_top.Server.State.{Event, Server, emit}
use diald_top.Server.PortQueue.{close_port}
use diald_top.Server.Monitor.{monitor_close}

-- `epipe n` says whether the n-th write of the call fails with EPIPE.
abbrev pub Failures : Type 0
Failures = ℕ → Bool

-- The inner loop. `curr` is the index of the node `curr`, `i` is the loop's own counter, and `n`
-- counts the writes. `prev` is NULL throughout, so after a close the loop goes on at the head.
-- `none` is a run out of fuel.
unfoldable pub spread : Failures → List ℕ → (fuel curr : ℕ) → ℤ → ℕ → Server → Option (ℕ × Server)
spread epipe line zero curr i n s = none
spread epipe line (suc fuel) curr i n s = elim (get_elem? s.pq curr) [
  | none ↦ some (n, s)
  | some p ↦ elim (ltb_ℤ i s.monitorcount) [
    | false ↦ some (n, s)
    | true ↦ elim (has_flag p.flag flag_monitor) [
      | false ↦ spread epipe line fuel (suc curr) i n s
      | true ↦
          let t = emit (Event.writes (some p.fd) line) s in
          elim (epipe n) [
            | true ↦ spread epipe line fuel 0 (inc i) (suc n) (close_port p t)
            | false ↦ spread epipe line fuel (suc curr) (inc i) (suc n) t
          ]
    ]
  ]
]

-- Rounds enough for every client to be closed and the queue to be walked after each.
abbrev pub spread_fuel : ℕ → ℕ
spread_fuel clients = suc (clients * clients + clients)

-- The outer loop, on what the reads of the pipe return before one returns nothing.
unfoldable pub pump : Failures → List (List ℕ) → ℕ → Server → Option Server
pump epipe [] n s = some s
pump epipe (line ∷ lines) n s = elim (spread epipe line (spread_fuel (length s.pq)) 0 (pos 0) n s) [
  | none ↦ none
  | some (n', t) ↦ elim (eqb_ℤ t.monitorcount (pos 0)) [
    | true ↦ some t
    | false ↦ pump epipe lines n' t
  ]
]

unfoldable pub fifo_server : Failures → List (List ℕ) → Server → Option Server
fifo_server epipe lines s =
    if eqb_ℤ s.fds.ps.fullcount (pos 0) || eqb_ℤ s.monitorcount (pos 0)
    then some (monitor_close s)
    else pump epipe lines 0 s
