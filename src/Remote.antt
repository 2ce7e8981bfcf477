-- ===== src/Remote.antt =====
-- A remote client and its server: the lines of client/pipe.c as server/port-queue.c reads them.
pub mod Passed
pub mod Session
use diald_top.Base.{ℕ, true, false, Bool, Option, none, some, List, [], ◌∷◌, get_elem?}
use diald_top.Client.Startup.{Call}
use diald_top.Server.State.{Server}
use diald_top.Server.Monitor.{PipeAnswer}
use diald_top.Server.Commands.{parse_incoming}

-- The server reads these lines, each on its own, from the client at this index of the queue, until
-- it closes its port. `none` is a fault.
unfoldable pub reads : PipeAnswer → ℕ → List (List ℕ) → Server → Option Server
reads a k [] s = some s
reads a k (line ∷ lines) s = elim (get_elem? s.pq k) [
  | none ↦ some s
  | some p ↦ elim (parse_incoming a line k p s) [
    | none ↦ none
    | some (true, t) ↦ some t
    | some (false, t) ↦ reads a k lines t
  ]
]

-- The lines that the client writes to its connection, among its calls.
abbrev pub lines_written : List Call → List (List ℕ)
lines_written [] = []
lines_written (Call.writes line ∷ calls) = line ∷ lines_written calls
lines_written (Call.mknods name ∷ calls) = lines_written calls
lines_written (Call.connects_to ip ∷ calls) = lines_written calls
lines_written (Call.unlinks name ∷ calls) = lines_written calls
