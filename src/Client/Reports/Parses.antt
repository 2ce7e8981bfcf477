-- ===== src/Client/Reports/Parses.antt =====
-- Which reports the calls of yyparse take, as a function of what comes alone.
use diald_top.Base.{
  ℕ, zero, suc, ◌+◌, ◌<◌, ◌≤◌, ◌≡◌, refl, arith, Bool, true, false, ◌||◌, if◌then◌else◌, some, List,
  [], ◌∷◌, ◌++◌, ℤ, All, length,
}
use diald_top.Client.Window.{Draw}
use diald_top.Client.Rows.{Packet}
use diald_top.Client.Rows.Displayed.{IsPlain}
use diald_top.Client.Refresh.{View}
use diald_top.Client.Reports.{
  Report, status, load, interface, state, message, queue, act, scans, accepts, Input, arrives,
  blocks, ends,
}

-- A report that the buffers have room for, and that the scanner comes to the end of.
abbrev pub IsFine : ℕ → Report → Type 0
IsFine cols status = Unit
IsFine cols (load _ _) = Unit
IsFine cols (interface name local_ip remote_ip) =
    32 + (length name + length remote_ip + length local_ip) ≤ cols
IsFine cols (state text) = length text < 232
IsFine cols (message text) = 0 < length text
IsFine cols (queue packets) = All IsPlain packets × (length packets < 2_147_483_648)

pub IsFine-scans : (n : ℕ) (report : Report) → IsFine n report → scans report ≡ true
IsFine-scans n status fine = refl
IsFine-scans n (load _ _) fine = refl
IsFine-scans n (interface _ _ _) fine = refl
IsFine-scans n (state _) fine = refl
IsFine-scans n (message []) fine = absurd (omega arith)
IsFine-scans n (message (_ ∷ _)) fine = refl
IsFine-scans n (queue _) fine = refl

-- The packets of the last queue, and the last state, where those before were these.
abbrev pub queue_after : Report → List Packet → List Packet
queue_after (queue packets) before = packets
queue_after _ before = before

abbrev pub state_after : Report → List ℕ → List ℕ
state_after (state text) before = text
state_after _ before = before

-- The reports that are handled, what is left, and whether the pipe has blocked, or was at its end.
pub record Parse : Type 0 where
  pub done : List Report
  pub left : List Input
  pub waits : Bool
  pub closed : Bool

-- One parse takes reports up to the first of the load, or the first after which a key is waiting.
abbrev pub one_parse : List Input → Parse
one_parse [] = record { done = []; left = []; waits = true; closed = false }
one_parse (blocks ∷ inputs) = record { done = []; left = inputs; waits = true; closed = false }
one_parse (ends ∷ inputs) = record { done = []; left = inputs; waits = false; closed = true }
one_parse (arrives report ready ∷ inputs) =
    let rest = one_parse inputs in
    if accepts report ready
    then record { done = report ∷ []; left = inputs; waits = false; closed = false }
    else record rest { done = report ∷ rest.done }

-- So many parses, or up to the first that has to wait.
abbrev pub parses : ℕ → List Input → Parse
parses zero inputs = record { done = []; left = inputs; waits = false; closed = false }
parses (suc n) inputs =
    let p = one_parse inputs in
    let rest = parses n p.left in
    if p.waits
    then p
    else record rest { done = p.done ++ rest.done; closed = p.closed || rest.closed }

-- The packets of the last of these queues, and the last of these states, after the ones before.
abbrev pub last_queue : List Report → List Packet → List Packet
last_queue [] before = before
last_queue (report ∷ reports) before = last_queue reports (queue_after report before)

abbrev pub last_state : List Report → List ℕ → List ℕ
last_state [] before = before
last_state (report ∷ reports) before = last_state reports (state_after report before)

pub last_queue-append :
    (xs ys : List Report) (before : List Packet)
    → last_queue (xs ++ ys) before ≡ last_queue ys (last_queue xs before)
last_queue-append [] ys before = refl
last_queue-append (x ∷ xs) ys before = last_queue-append xs ys (queue_after x before)

pub last_state-append :
    (xs ys : List Report) (before : List ℕ)
    → last_state (xs ++ ys) before ≡ last_state ys (last_state xs before)
last_state-append [] ys before = refl
last_state-append (x ∷ xs) ys before = last_state-append xs ys (state_after x before)

-- The reports among these fit their buffers.
abbrev pub IsFineInput : ℕ → Input → Type 0
IsFineInput cols (arrives report ready) = IsFine cols report
IsFineInput cols blocks = Unit
IsFineInput cols ends = Unit

-- What an action does that keeps an invariant, which is about the packets of the last queue.
abbrev pub Acts : (List Packet → View → Type 0) → Report → List Packet → View → Type 0
Acts P report packets v =
    (t : View) × (draws : List Draw) × (act report v ≡ some (t, draws))
    × P (queue_after report packets) t
    × (t.curr_state ≡ state_after report v.curr_state)
    × (t.resize_event_p ≡ v.resize_event_p)
    × (t.yacc_eof ≡ v.yacc_eof)

-- An invariant that does not look at the parser's flags.
abbrev pub NoFlags : (List Packet → View → Type 0) → Type 0
NoFlags P =
    (packets : List Packet) (v : View) (key : ℤ) (block eof : Bool)
    → P packets v
    → P packets (record v { yacc_key = key; yacc_block = block; yacc_eof = eof })
