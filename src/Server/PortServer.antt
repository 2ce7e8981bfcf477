-- ===== src/Server/PortServer.antt =====
-- port_server of server/port-queue.c: one round over the clients that have something to say.
pub mod Keeps
pub mod Served
pub mod Control
pub mod Reasons
use diald_top.Base.{
  ℕ, zero, suc, Bool, true, false, if◌then◌else◌, Option, none, some, List, [], ◌∷◌, ℤ, pos, inc,
  ltb_ℤ, get_elem?, length,
}
use diald_top.Server.Ports.{Port}
use diald_top.Server.State.{Server}
use diald_top.Server.PortQueue.{close_port}
use diald_top.Server.Monitor.{PipeAnswer}
use diald_top.Server.Commands.{parse_incoming}

-- What the system answers to the calls made for the client at each descriptor: the bytes that read
-- returns, none of them where `len` is not positive, and the answers to monitor_open.
pub record Answers : Type 0 where
  pub recv : ℕ → List ℕ
  pub pipe : ℕ → PipeAnswer

-- The body of the loop for a client that is ready; the first result says that it was closed.
unfoldable pub receive : Answers → ℕ → Port → Server → Option (Bool × Server)
receive a curr p s = elim (a.recv p.fd) [
  | [] ↦ some (true, close_port p s)
  | c ∷ line ↦ parse_incoming (a.pipe p.fd) (c ∷ line) curr p s
]

-- The loop. `curr` is the index of the node `curr`, and `prev` is the node before it: after a close
-- `curr = prev` and then its successor, or the head, stands at the same index. `none` is a fault,
-- or a run out of fuel.
unfoldable pub serve : Answers → ℤ → (fuel curr : ℕ) → ℤ → Server → Option Server
serve a count zero curr i s = none
serve a count (suc fuel) curr i s = elim (get_elem? s.pq curr) [
  | none ↦ some s
  | some p ↦ elim (ltb_ℤ i count) [
    | false ↦ some s
    | true ↦ elim (s.fds.ps.sel p.fd) [
      | false ↦ serve a count fuel (suc curr) i s
      | true ↦ elim (receive a curr p s) [
        | none ↦ none
        | some (was_closed, t) ↦
            serve a count fuel (if was_closed then curr else suc curr) (inc i) t
      ]
    ]
  ]
]

-- A round more than there are clients.
unfoldable pub port_server : Answers → Server → Option Server
unfolding serve receive
port_server a s = serve a s.fds.ps.selcount (suc (length s.pq)) 0 (pos 0) s
