-- ===== src/Remote/Session.antt =====
-- From the keys of a remote client to the control FIFO of diald.
use diald_top.Base.{
  ℕ, ◌≡◌, refl, ap, ◌∙◌, sym, subst, ◌<◌, Bool, true, false, arith, if◌then◌else◌, some, List, [],
  ◌∷◌, ◌++◌, length, inc, ◌&&◌, get_elem?, All,
}
use diald_top.Client.Main.{Session, Answer, client_loop}
use diald_top.Client.Main.Sends.{IsCommand, client_loop-Sends}
use diald_top.Client.Rows.{ip_width, packet_format}
use diald_top.Client.Startup.{
  Options, goes_on, Answers, Call, unlinks, write_all, init_fifo, run_client,
}
use diald_top.Client.Startup.Runs.{monitor_request, starts, session, init_fifo_lem}
use diald_top.Server.Ports.{Port, flag_write, flag_monitor, has_flag, raise}
use diald_top.Server.State.{Server}
use diald_top.Server.PortQueue.Queue.{is_monitor}
use diald_top.Server.Invariant.{Inv}
use diald_top.Server.Monitor.{PipeAnswer}
use diald_top.Server.Commands.{start_monitor}
use diald_top.Remote.{reads, lines_written}
use diald_top.Remote.Passed.{written, reads-session}

-- The calls of a remote session: the connection, the request, and the lines of its loop.
abbrev pub session_calls : (ip monitor : List ℕ) → List Answer → Options → List Call
session_calls ip monitor rounds o =
    let (over, s) = client_loop rounds (session o) in
    Call.connects_to ip
    ∷ Call.writes (monitor_request (some ip) monitor)
    ∷ (write_all s.sent ++ (if over then unlinks monitor ∷ [] else []))

lines_written-write_all :
    (lines : List (List ℕ)) (over : Bool) (monitor : List ℕ)
    → lines_written (write_all lines ++ (if over then unlinks monitor ∷ [] else [])) ≡ lines
lines_written-write_all [] true monitor = refl
lines_written-write_all [] false monitor = refl
lines_written-write_all (line ∷ lines) over monitor =
    ap (λ r. line ∷ r) (lines_written-write_all lines over monitor)

run_client-remote :
    (a : Answers) (ip monitor : List ℕ) (cols : ℕ) (rounds : List Answer) (o : Options)
    → length monitor < 248
    → o.remoteip ≡ some ip
    → starts (some ip) a ≡ true
    → run_client a monitor cols rounds o
      ≡ some (session_calls ip monitor rounds o, goes_on (client_loop rounds (session o)).1)
unfolding run_client
run_client-remote a ip monitor cols rounds o short remote begins =
    let joined : (a.remaddr && (a.binds && a.connects)) ≡ true = ground arith in
    let request = Call.connects_to ip ∷ Call.writes (monitor_request (some ip) monitor) ∷ [] in
    let width = ip_width cols in
    let opened : init_fifo a monitor (some ip) width
        ≡ some (request, goes_on (packet_format width)) =
      init_fifo_lem a monitor (some ip) width short ∙ rw (joined, begins) refl in
    let same =
      subst (λ r. init_fifo a monitor r width ≡ some (request, goes_on (packet_format width)))
        (sym remote) opened in
    rw (same, run_client) refl

-- A remote client that starts, and whose user has control access at the server and does not watch
-- there yet: once the server has read all that the client writes in its session, each line with a read(2)
-- of its own, it counts it as
-- watching and keeps its invariant, and each command that the session has sent is written to diald
-- as it is, in order, and nothing else after the answer to the request.
pub run_client-reads :
    (a : Answers) (ip monitor : List ℕ) (cols : ℕ) (rounds : List Answer) (o : Options)
    (b : PipeAnswer) (k : ℕ) (p : Port) (s : Server)
    → length monitor < 248
    → o.remoteip ≡ some ip
    → starts (some ip) a ≡ true
    → Inv s
    → get_elem? s.pq k ≡ some p
    → has_flag p.flag flag_write ≡ true
    → is_monitor p ≡ false
    → (calls : List Call) × (u : Session) × (run_client a monitor cols rounds o
        ≡ some (calls, goes_on u))
      × ((t : Server) × (reads b k (lines_written calls) s ≡ some t)
          × Inv t
          × (get_elem? t.pq k ≡ some (record p { flag = raise p.flag flag_monitor }))
          × (t.monitorcount ≡ inc s.monitorcount)
          × (t.trace ≡ written s.controlfd u.sent (start_monitor b k p s).trace))
run_client-reads a ip monitor cols rounds o b k p s short remote begins v at may off =
    let u = (client_loop rounds (session o)).1 in
    let sent = client_loop-Sends rounds (session o) in
    let known = subst (All IsCommand) (sym sent.later) sent.known in
    let lines : lines_written (session_calls ip monitor rounds o)
        ≡ monitor_request (some ip) monitor ∷ u.sent =
      ap (λ r. monitor_request (some ip) monitor ∷ r)
        (lines_written-write_all u.sent (client_loop rounds (session o)).0 monitor) in
    (
      session_calls ip monitor rounds o,
      u,
      run_client-remote a ip monitor cols rounds o short remote begins,
      subst
          (λ l.
            (t : Server) × (reads b k l s ≡ some t)
            × Inv t
            × (get_elem? t.pq k ≡ some (record p { flag = raise p.flag flag_monitor }))
            × (t.monitorcount ≡ inc s.monitorcount)
            × (t.trace ≡ written s.controlfd u.sent (start_monitor b k p s).trace))
          (sym lines) (reads-session b ip monitor k p u.sent s v at may off known),
    )
