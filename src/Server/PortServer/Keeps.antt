-- ===== src/Server/PortServer/Keeps.antt =====
-- port_server ends, and keeps the invariant.
use diald_top.Base.{
  ℕ, zero, suc, ◌+◌, ◌<◌, ◌≤◌, ◌≡◌, refl, subst, Bool, true, arith, inl, inr, Bool-cases,
  Option-cases, if◌then◌else◌, Option, none, some, List, [], ◌∷◌, ℤ, pos, inc, ltb_ℤ, get_elem?,
  length,
}
use diald_top.Server.Ports.{Port}
use diald_top.Server.State.{Server}
use diald_top.Server.PortQueue.Queue.{length-delete_at, length-set}
use diald_top.Server.Invariant.{Inv}
use diald_top.Server.Commands.{parse_incoming}
use diald_top.Server.Commands.Refusal.{Short, parse_incoming-Short}
use diald_top.Server.Commands.Effects.{parse_incoming-Inv, close_port-Inv}
use diald_top.Server.PortQueue.{close_port}
use diald_top.Server.Commands.Steps.{Steps, after_line, close_port-Steps, parse_incoming-Steps}
use diald_top.Server.PortServer.{Answers, receive, serve, port_server}

-- What becomes of a client that is ready: `none` if its port is closed.
unfoldable pub outcome : Answers → Port → Option Port
outcome a p = elim (a.recv p.fd) [ [] ↦ none | c ∷ line ↦ after_line (c ∷ line) p ]

module _ (a : Answers) {s : Server} (v : Inv s) (k : ℕ) {p : Port}
    (at : get_elem? s.pq k ≡ some p) where
  -- What is to be shown of the two outcomes.
  pub receive_cases {ℓ} :
      (P : Bool × Server → Type ℓ)
      → (a.recv p.fd ≡ [] → P (true, close_port p s))
      → ((c : ℕ) (line : List ℕ) (r : Bool × Server)
          → a.recv p.fd ≡ c ∷ line
          → parse_incoming (a.pipe p.fd) (c ∷ line) k p s ≡ some r
          → P r)
      → (r : Bool × Server) → receive a k p s ≡ some r
      → P r
  unfolding receive
  receive_cases P closed line r run = by_bytes (a.recv p.fd) refl
    where
      by_bytes : (bytes : List ℕ) → a.recv p.fd ≡ bytes → P r
      by_bytes [] e =
          let last = rw (e, receive) at run in
          let same : (true, close_port p s) ≡ r = cc in subst P same (closed e)
      by_bytes (c ∷ bytes) e = line c bytes r e (rw (e, receive) at run)

  pub receive-Inv : (r : Bool × Server) → receive a k p s ≡ some r → Inv r.1
  receive-Inv =
      receive_cases (λ r. Inv r.1) (λ _. close_port-Inv v k at)
        (λ c line r _ run. parse_incoming-Inv v k at (a.pipe p.fd) (c ∷ line) r run)

  pub receive-Steps : (r : Bool × Server) → receive a k p s ≡ some r → Steps s k (outcome a p) r
  unfolding outcome
  receive-Steps =
      receive_cases (Steps s k (outcome a p)) (λ e. rw (e, outcome) (close_port-Steps v k at))
        (λ c line r e run.
          rw (e, outcome) (parse_incoming-Steps v k at (a.pipe p.fd) (c ∷ line) r run))

-- What read returns from any client, cleaned, has at most 968 bytes.
abbrev pub AllShort : Answers → Type 0
AllShort a = (fd : ℕ) → Short (a.recv fd)

pub receive-Short :
    (a : Answers) (k : ℕ) (p : Port) (s : Server)
    → AllShort a
    → (r : Bool × Server) × (receive a k p s ≡ some r)
unfolding receive
receive-Short a k p s short = by_bytes (a.recv p.fd) refl
  where
    by_bytes :
        (bytes : List ℕ) → a.recv p.fd ≡ bytes → (r : Bool × Server) × (receive a k p s ≡ some r)
    by_bytes [] e = ((true, close_port p s), rw (e, receive) refl)
    by_bytes (c ∷ line) e =
        let (r, run) =
          parse_incoming-Short (a.pipe p.fd) (c ∷ line) k p s (subst Short e (short p.fd)) in
        (r, rw (e, receive) run)

pub get_bound : (ps : List Port) (k : ℕ) {p : Port} → get_elem? ps k ≡ some p → k < length ps
get_bound [] k e = cc
get_bound (q ∷ ps) zero e = omega arith
get_bound (q ∷ ps) (suc k) e = omega (arith, get_bound ps k e)

-- The index and the queue after a client was served.
Steps-bounds :
    {s : Server} {k : ℕ} {p : Port} {q : Option Port} {r : Bool × Server}
    → get_elem? s.pq k ≡ some p
    → Steps s k q r
    → let k' = if r.0 then k else suc k in
      (k' ≤ length r.1.pq) × (length r.1.pq + suc k ≡ length s.pq + k')
Steps-bounds {s} {k} {q = none} at h =
    rw (h.closes, h.queue)
      (
        omega (arith, length-delete_at s.pq k at, get_bound s.pq k at),
        omega (arith, length-delete_at s.pq k at),
      )
Steps-bounds {s} {k} {q = some q} at h =
    rw (h.closes, h.queue)
      (omega (arith, length-set s.pq k q, get_bound s.pq k at), omega (arith, length-set s.pq k q))

-- A run that comes to its end keeps the invariant.
serve-Inv :
    (a : Answers) (count : ℤ) (fuel k : ℕ) (i : ℤ) (s t : Server)
    → Inv s
    → serve a count fuel k i s ≡ some t
    → Inv t
unfolding serve
serve-Inv a count zero k i s t v run = cc
serve-Inv a count (suc fuel) k i s t v run = elim (Option-cases (get_elem? s.pq k)) [
  | inl e ↦ ends (rw (e, serve) at run)
  | inr (p, e) ↦ elim (Bool-cases (ltb_ℤ i count)) [
    | inr done ↦ ends (rw (e, serve, done) at run)
    | inl more ↦ elim (Bool-cases (s.fds.ps.sel p.fd)) [
      | inr quiet ↦ serve-Inv a count fuel (suc k) i s t v (rw (e, serve, more, quiet) at run)
      | inl ready ↦ elim (Option-cases (receive a k p s)) [
        | inl fault ↦ let stopped = rw (e, serve, more, ready, fault) at run in cc
        | inr (r, got) ↦
            serve-Inv a count fuel (if r.0 then k else suc k) (inc i) r.1 t
              (receive-Inv a v k e r got) (rw (e, serve, more, ready, got) at run)
      ]
    ]
  ]
]
  where
    ends : some s ≡ some t → Inv t
    ends e = let same : s ≡ t = ground arith in subst Inv same v

-- There is no fault, and the fuel is enough.
serve_ends :
    (a : Answers) (count : ℤ) (fuel k : ℕ) (i : ℤ) (s : Server)
    → AllShort a
    → Inv s
    → k ≤ length s.pq
    → length s.pq < fuel + k
    → (t : Server) × (serve a count fuel k i s ≡ some t)
unfolding serve
serve_ends a count zero k i s short v le enough = absurd (omega arith)
serve_ends a count (suc fuel) k i s short v le enough = elim (Option-cases (get_elem? s.pq k)) [
  | inl e ↦ (s, rw (e, serve) refl)
  | inr (p, e) ↦ elim (Bool-cases (ltb_ℤ i count)) [
    | inr done ↦ (s, rw (e, serve, done) refl)
    | inl more ↦ elim (Bool-cases (s.fds.ps.sel p.fd)) [
      | inr quiet ↦
          let (t, run) =
            serve_ends a count fuel (suc k) i s short v (omega (arith, get_bound s.pq k e))
              (omega arith) in
          (t, rw (e, serve, more, quiet) run)
      | inl ready ↦
          let (r, got) = receive-Short a k p s short in
          let bounds = Steps-bounds e (receive-Steps a v k e r got) in
          let (t, run) =
            serve_ends a count fuel (if r.0 then k else suc k) (inc i) r.1 short
              (receive-Inv a v k e r got) bounds.0 (omega (arith, bounds.1)) in
          (t, rw (e, serve, more, ready, got) run)
    ]
  ]
]

pub port_server_kept : (a : Answers) (s t : Server) → Inv s → port_server a s ≡ some t → Inv t
unfolding port_server
port_server_kept a s t v run = serve-Inv a s.fds.ps.selcount (suc (length s.pq)) 0 (pos 0) s t v run

-- port_server ends within a round more than there are clients, without a fault, and keeps the
-- invariant, however many clients are said to be ready and whatever they send, so long as none of the
-- lines has more than 968 bytes when it is cleaned.
pub port_server-Inv :
    (a : Answers) (s : Server)
    → AllShort a
    → Inv s
    → (t : Server) × (port_server a s ≡ some t) × Inv t
unfolding port_server
port_server-Inv a s short v =
    let (t, run) =
      serve_ends a s.fds.ps.selcount (suc (length s.pq)) 0 (pos 0) s short v (omega arith)
        (omega arith) in
    (t, run, port_server_kept a s t v run)
