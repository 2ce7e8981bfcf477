-- ===== src/Server/Commands.antt =====
-- parse_incoming of server/port-queue.c: one line from a client.
pub mod Effects
pub mod Steps
pub mod Refusal
use diald_top.Base.{
  ℕ, ◌+◌, Bool, true, false, ◌||◌, if◌then◌else◌, Option, some, List, ◌++◌, ℤ, pos, inc, dec, eqb_ℤ,
  ◌≡◌, ◌≤◌, refl, subst, arith, none, inl, inr, Bool-cases, set, codes, c_str, strncaseeq, ltb,
  length,
}
use diald_top.Server.Ports.{Port, flag_write, flag_monitor, has_flag, raise, lower}
use diald_top.Server.State.{Event, Server, emit}
use diald_top.Server.PortQueue.{close_port}
use diald_top.Server.Monitor.{PipeAnswer, monitor_open}
use diald_top.Server.Userid.{clean_userid}

-- `!strncasecmp(line, text, n)`: the buffer ends in zeros, so it is read as a C string.
unfoldable pub asks : ℕ → List ℕ → List ℕ → Bool
unfolding c_str strncaseeq
asks n text line = strncaseeq n (c_str line) text

abbrev pub asks_off : List ℕ → Bool
asks_off line = asks 12 (codes "monitor off\r") line || asks 8 (codes "monitor\r") line

abbrev pub asks_on : List ℕ → Bool
asks_on line = asks 8 (codes "monitor ") line

abbrev pub asks_close : List ℕ → Bool
asks_close line = asks 5 (codes "close") line

-- What sprintf writes to `outline`.
unfoldable pub refusal : List ℕ → List ℕ
unfolding c_str clean_userid
refusal line =
    codes "MESSAGE\nYou have no control access: Command \""
    ++ (clean_userid (c_str line) ++ codes "\" ignored\n")

-- `curr->port.flag = flag`, with `curr` the node at this index.
abbrev pub set_flag : ℕ → Port → ℕ → Server → Server
set_flag curr p flag s = record s { pq = set s.pq curr (record p { flag = flag }) }

unfoldable pub stop_monitor : ℕ → Port → Server → Server
stop_monitor curr p s =
    if has_flag p.flag flag_monitor
    then set_flag curr p (lower p.flag flag_monitor)
        (record s { monitorcount = dec s.monitorcount })
    else s

unfoldable pub start_monitor : PipeAnswer → ℕ → Port → Server → Server
start_monitor a curr p s =
    if has_flag p.flag flag_monitor
    then s
    else (let counted =
          set_flag curr p (raise p.flag flag_monitor)
            (record s { monitorcount = inc s.monitorcount }) in
        if eqb_ℤ s.fds.fs.fullcount (pos 0) then monitor_open a counted else counted)

-- `char outline[1024]`
abbrev pub outline_size : ℕ
outline_size = 1024

-- `none` is a fault: the text and its NUL go behind the end of `outline`.
unfoldable pub refuse : List ℕ → Port → Server → Option (Bool × Server)
refuse line p s =
    if ltb outline_size (length (refusal line) + 1)
    then none
    else some (false, emit (Event.writes (some p.fd) (refusal line)) s)

-- `curr` is the index of the client's node, and `p` its port. The first result says whether the
-- port was closed.
unfoldable pub parse_incoming : PipeAnswer → List ℕ → ℕ → Port → Server → Option (Bool × Server)
parse_incoming a line curr p s =
    if asks_off line
    then some (false, stop_monitor curr p s)
    else if asks_on line
    then some (false, start_monitor a curr p s)
    else if asks_close line
    then some (true, close_port p s)
    else if has_flag p.flag flag_write
    then some (false, emit (Event.writes s.controlfd line) s)
    else refuse line p s

-- What is to be shown of each of the five outcomes.
pub parse_cases {ℓ} :
    (P : Bool × Server → Type ℓ) (a : PipeAnswer) (line : List ℕ) (curr : ℕ) (p : Port) (s : Server)
    → (asks_off line ≡ true → P (false, stop_monitor curr p s))
    → (asks_off line ≡ false → asks_on line ≡ true → P (false, start_monitor a curr p s))
    → (asks_off line ≡ false
        → asks_on line ≡ false
        → asks_close line ≡ true
        → P (true, close_port p s))
    → (asks_off line ≡ false
        → asks_on line ≡ false
        → asks_close line ≡ false
        → has_flag p.flag flag_write ≡ true
        → P (false, emit (Event.writes s.controlfd line) s))
    → (asks_off line ≡ false
        → asks_on line ≡ false
        → asks_close line ≡ false
        → has_flag p.flag flag_write ≡ false
        → P (false, emit (Event.writes (some p.fd) (refusal line)) s))
    → (r : Bool × Server) → parse_incoming a line curr p s ≡ some r
    → P r
unfolding parse_incoming refuse
parse_cases P a line curr p s off on close command refused r run =
    elim (Bool-cases (asks_off line)) [
      | inl e ↦ at_end (rw (e, parse_incoming) at run) (off e)
      | inr e ↦ elim (Bool-cases (asks_on line)) [
        | inl f ↦ at_end (rw (e, f, parse_incoming) at run) (on e f)
        | inr f ↦ elim (Bool-cases (asks_close line)) [
          | inl g ↦ at_end (rw (e, f, g, parse_incoming) at run) (close e f g)
          | inr g ↦ elim (Bool-cases (has_flag p.flag flag_write)) [
            | inl h ↦ at_end (rw (e, f, g, h, parse_incoming) at run) (command e f g h)
            | inr h ↦ elim (Bool-cases (ltb outline_size (length (refusal line) + 1))) [
              | inl long ↦ let fault = rw (e, f, g, h, long, parse_incoming, refuse) at run in cc
              | inr fits ↦
                  at_end (rw (e, f, g, h, fits, parse_incoming, refuse) at run) (refused e f g h)
            ]
          ]
        ]
      ]
    ]
  where
    at_end : {x : Bool × Server} → some x ≡ some r → P x → P r
    at_end {x} e h = let same : x ≡ r = cc in subst P same h

-- Where the refusal fits, there is an outcome.
pub parse_incoming_fits :
    (a : PipeAnswer) (line : List ℕ) (curr : ℕ) (p : Port) (s : Server)
    → length (refusal line) + 1 ≤ outline_size
    → (r : Bool × Server) × (parse_incoming a line curr p s ≡ some r)
unfolding parse_incoming refuse
parse_incoming_fits a line curr p s fits = elim (Bool-cases (asks_off line)) [
  | inl e ↦ ((false, stop_monitor curr p s), rw (e, parse_incoming) refl)
  | inr e ↦ elim (Bool-cases (asks_on line)) [
    | inl f ↦ ((false, start_monitor a curr p s), rw (e, f, parse_incoming) refl)
    | inr f ↦ elim (Bool-cases (asks_close line)) [
      | inl g ↦ ((true, close_port p s), rw (e, f, g, parse_incoming) refl)
      | inr g ↦ elim (Bool-cases (has_flag p.flag flag_write)) [
        | inl h ↦
            ((false, emit (Event.writes s.controlfd line) s), rw (e, f, g, h, parse_incoming) refl)
        | inr h ↦
            let small : ltb outline_size (length (refusal line) + 1) ≡ false = ground arith in
            (
              (false, emit (Event.writes (some p.fd) (refusal line)) s),
              rw (e, f, g, h, small, parse_incoming, refuse) refl,
            )
      ]
    ]
  ]
]
