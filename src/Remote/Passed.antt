-- ===== src/Remote/Passed.antt =====
-- What a session of a remote client does at its server.
use diald_top.Base.{
  ℕ, zero, suc, ◌≡◌, refl, ap, ◌∙◌, sym, subst, true, false, arith, some, List, [], ◌∷◌, ◌++◌, inl,
  inr, inc, Bool-cases, Option-cases, All, codes, get_elem?, set, c_str, strncaseeq, tolower, eqb_ℤ,
  pos,
}
use diald_top.Client.Pipe.{cmd}
use diald_top.Client.Pipe.Match.{Among}
use diald_top.Client.Main.Sends.{IsCommand}
use diald_top.Client.Startup.Runs.{monitor_request}
use diald_top.Server.Ports.{Port, flag_write, flag_monitor, has_flag, raise}
use diald_top.Server.Ports.Flags.{raise-Toggled}
use diald_top.Server.State.{Descriptor, Event, Server, emit}
use diald_top.Server.PortQueue.Queue.{is_monitor, All-get}
use diald_top.Server.Invariant.{IsPlain, Inv}
use diald_top.Server.Monitor.{PipeAnswer, monitor_open}
use diald_top.Server.Commands.{asks, asks_off, asks_on, asks_close, start_monitor, parse_incoming}
use diald_top.Server.Commands.Effects.{parse_incoming-Inv}
use diald_top.Remote.{reads}

-- The server takes a line for a command to diald.
abbrev pub IsForDiald : List ℕ → Type 0
IsForDiald line = (asks_off line ≡ false) × (asks_on line ≡ false) × (asks_close line ≡ false)

Among-All :
    (P : List ℕ → Type 0) (a : List ℕ) (names : List (List ℕ)) → Among a names → All P names → P a
Among-All P a [] m h = absurd m
Among-All P a (b ∷ bs) (inl e) h = subst P (sym e) h.0
Among-All P a (b ∷ bs) (inr m) h = Among-All P a bs m h.1

-- No name of the client's table is one of the server's own requests.
names-IsForDiald : All (λ name. IsForDiald (name ++ codes "\n")) cmd
unfolding asks c_str strncaseeq tolower
names-IsForDiald = (
  (refl, refl, refl),
  (
    (refl, refl, refl),
    (
      (refl, refl, refl),
      (
        (refl, refl, refl),
        (
          (refl, refl, refl),
          (
            (refl, refl, refl),
            ((refl, refl, refl), ((refl, refl, refl), ((refl, refl, refl), tt))),
          ),
        ),
      ),
    ),
  ),
)

command-IsForDiald : (line : List ℕ) → IsCommand line → IsForDiald line
command-IsForDiald line (name, m, e) =
    subst IsForDiald (sym e)
      (Among-All (λ name. IsForDiald (name ++ codes "\n")) name cmd m names-IsForDiald)

-- The events of a list of lines, each written to this descriptor, the latest first.
abbrev pub written : Descriptor → List (List ℕ) → List Event → List Event
written fd [] trace = trace
written fd (line ∷ lines) trace = written fd lines (Event.writes fd line ∷ trace)

-- Of a client with control access every command is passed on as it is, and that is all.
reads-commands :
    (a : PipeAnswer) (k : ℕ) (p : Port) (lines : List (List ℕ)) (s : Server)
    → get_elem? s.pq k ≡ some p
    → has_flag p.flag flag_write ≡ true
    → All IsCommand lines
    → reads a k lines s ≡ some (record s { trace = written s.controlfd lines s.trace })
unfolding reads parse_incoming
reads-commands a k p [] s at may h = refl
reads-commands a k p (line ∷ lines) s at may h =
    let (off, on, close) = command-IsForDiald line h.0 in
    rw (at, off, on, close, may, reads, parse_incoming)
      (reads-commands a k p lines (emit (Event.writes s.controlfd line) s) at may h.1)

-- The client's first line.
request-on :
    (a : PipeAnswer) (ip monitor : List ℕ) (k : ℕ) (p : Port) (s : Server)
    → parse_incoming a (monitor_request (some ip) monitor) k p s
      ≡ some (false, start_monitor a k p s)
unfolding parse_incoming asks c_str strncaseeq tolower
request-on a ip monitor k p s = refl

get_elem?-set :
    (ps : List Port) (k : ℕ) (p q : Port)
    → get_elem? ps k ≡ some p
    → get_elem? (set ps k q) k ≡ some q
get_elem?-set [] k p q at = ground arith
get_elem?-set (x ∷ ps) zero p q at = refl
get_elem?-set (x ∷ ps) (suc k) p q at = get_elem?-set ps k p q at

-- What start_monitor leaves of the server's state, for a client that does not watch yet.
record Watches (k : ℕ) (p : Port) (s t : Server) : Type 0 where
  queue : t.pq ≡ set s.pq k (record p { flag = raise p.flag flag_monitor })
  control : t.controlfd ≡ s.controlfd
  count : t.monitorcount ≡ inc s.monitorcount

start_monitor-Watches :
    (a : PipeAnswer) (k : ℕ) (p : Port) (s : Server)
    → is_monitor p ≡ false
    → Watches k p s (start_monitor a k p s)
unfolding start_monitor monitor_open
start_monitor-Watches a k p s off = elim (Bool-cases (eqb_ℤ s.fds.fs.fullcount (pos 0))) [
  | inr open_pipe ↦ rw (off, open_pipe) (record { queue = refl; control = refl; count = refl })
  | inl closed_pipe ↦
      rw (off, closed_pipe)
        (elim (Option-cases s.monitorfd) [
          | inr (fd, e) ↦ rw e (record { queue = refl; control = refl; count = refl })
          | inl e ↦ rw e (elim (Option-cases a.fd) [
            | inr (fd, f) ↦ rw f (record { queue = refl; control = refl; count = refl })
            | inl f ↦ rw f (record { queue = refl; control = refl; count = refl })
          ])
        ])
]

traced-Inv : (s : Server) (trace : List Event) → Inv s → Inv (record s { trace = trace })
traced-Inv s trace v = record {
  distinct = v.distinct;
  plain = v.plain;
  lists = record { full = v.lists.full; fullcount = v.lists.fullcount; top = v.lists.top };
  counted = v.counted;
  pipe = v.pipe;
  listening = v.listening;
}

-- When a client with control access, which does not watch yet, has asked for the reports and then
-- sends commands of the table, it watches, the counter is one higher, and each command has been
-- written to diald as it is, in order, and nothing else after the answer to the request.
pub reads-session :
    (a : PipeAnswer) (ip monitor : List ℕ) (k : ℕ) (p : Port) (lines : List (List ℕ)) (s : Server)
    → Inv s
    → get_elem? s.pq k ≡ some p
    → has_flag p.flag flag_write ≡ true
    → is_monitor p ≡ false
    → All IsCommand lines
    → (t : Server) × (reads a k (monitor_request (some ip) monitor ∷ lines) s ≡ some t)
      × Inv t
      × (get_elem? t.pq k ≡ some (record p { flag = raise p.flag flag_monitor }))
      × (t.monitorcount ≡ inc s.monitorcount)
      × (t.trace ≡ written s.controlfd lines (start_monitor a k p s).trace)
unfolding reads
reads-session a ip monitor k p lines s v at may off h =
    let u = start_monitor a k p s in
    let q : Port = record p { flag = raise p.flag flag_monitor } in
    let w = start_monitor-Watches a k p s off in
    let there : get_elem? u.pq k ≡ some q =
      ap (λ ps. get_elem? ps k) w.queue ∙ get_elem?-set s.pq k p q at in
    let write_flag = (raise-Toggled p.flag (All-get IsPlain s.pq k v.plain at)).write ∙ may in
    let kept : Inv u =
      parse_incoming-Inv v k at a (monitor_request (some ip) monitor) (false, u)
        (request-on a ip monitor k p s) in
    (
      record u { trace = written u.controlfd lines u.trace },
      rw (at, request-on a ip monitor k p s, reads)
          (reads-commands a k q lines u there write_flag h),
      traced-Inv u _ kept,
      there,
      w.count,
      ap (λ fd. written fd lines u.trace) w.control,
    )
