-- ===== src/Server/Commands/Refusal.antt =====
-- How much of `outline` the refusal of parse_incoming takes.
use diald_top.Server.Ports.{Port}
use diald_top.Server.State.{Server}
use diald_top.Server.Monitor.{PipeAnswer}
use diald_top.Base.{Bool, some, ℕ, ◌+◌, ◌≤◌, ◌≡◌, arith, List, length, length-append, codes, c_str}
use diald_top.Server.Userid.{clean_userid}
use diald_top.Server.Commands.{refusal, parse_incoming, parse_incoming_fits}

exact_length : (line : List ℕ) → length (refusal line) ≡ 55 + length (clean_userid (c_str line))
unfolding refusal
exact_length line = omega (arith, length-append (clean_userid (c_str line)) (codes "\" ignored\n"))

-- The refusal is 55 bytes longer than the cleaned line, so with its NUL it fits the 1024 bytes of
-- `outline` exactly when the cleaned line has at most 968.
pub length-refusal :
    (line : List ℕ)
    → (length (refusal line) ≡ 55 + length (clean_userid (c_str line)))
      × (length (refusal line) + 1 ≤ 1024 → length (clean_userid (c_str line)) ≤ 968)
      × (length (clean_userid (c_str line)) ≤ 968 → length (refusal line) + 1 ≤ 1024)
length-refusal line = (
  exact_length line,
  (λ h. omega (arith, exact_length line)),
  λ h. omega (arith, exact_length line),
)

-- A line whose refusal fits.
abbrev pub Short : List ℕ → Type 0
Short line = length (clean_userid (c_str line)) ≤ 968

pub parse_incoming-Short :
    (a : PipeAnswer) (line : List ℕ) (curr : ℕ) (p : Port) (s : Server)
    → Short line
    → (r : Bool × Server) × (parse_incoming a line curr p s ≡ some r)
parse_incoming-Short a line curr p s short =
    parse_incoming_fits a line curr p s ((length-refusal line).2 short)
