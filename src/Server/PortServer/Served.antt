-- ===== src/Server/PortServer/Served.antt =====
-- port_server serves each ready client once, in the order of the queue.
use mathlib.Core.List.{append_assoc, append-nil}
use diald_top.Base.{
  ℕ, zero, suc, ◌+◌, ◌<◌, ◌≤◌, ◌≡◌, refl, sym, subst, ◌∙◌, ap, true, false, arith, inl, inr,
  Bool-cases, Option-cases, if◌then◌else◌, Option, none, some, List, [], ◌∷◌, ◌++◌, ℤ, pos, ltb,
  get_elem?, set, length, length-append,
}
use diald_top.Server.Fds.{FdSet}
use diald_top.Server.Ports.{Port}
use diald_top.Server.State.{Server}
use diald_top.Server.PortQueue.Queue.{delete_at}
use diald_top.Server.Invariant.{Inv}
use diald_top.Server.PortServer.{Answers, serve, port_server}
use diald_top.Server.PortServer.Keeps.{outcome, receive-Inv, receive-Steps, AllShort, receive-Short}

-- The clients after each ready one of them was served once.
unfoldable pub visited : Answers → FdSet → List Port → List Port
visited a sel [] = []
visited a sel (p ∷ ps) =
    let rest = visited a sel ps in
    if sel p.fd then elim (outcome a p) [ none ↦ rest | some q ↦ q ∷ rest ] else p ∷ rest

-- The number of clients that are ready.
unfoldable pub readies : FdSet → List Port → ℕ
readies sel [] = 0
readies sel (p ∷ ps) = (if sel p.fd then 1 else 0) + readies sel ps

-- With none ready nothing is done.
visited_quiet :
    (a : Answers) (sel : FdSet) (ps : List Port) → readies sel ps ≡ 0 → visited a sel ps ≡ ps
unfolding visited readies
visited_quiet a sel [] e = refl
visited_quiet a sel (p ∷ ps) e = ground (arith, visited_quiet a sel ps)

module _ (p : Port) (rest : List Port) where
  pub get-append : (pre : List Port) → get_elem? (pre ++ p ∷ rest) (length pre) ≡ some p
  get-append [] = refl
  get-append (q ∷ pre) = get-append pre

  delete-append : (pre : List Port) → delete_at (length pre) (pre ++ p ∷ rest) ≡ pre ++ rest
  delete-append [] = refl
  delete-append (q ∷ pre) = ap (λ r. q ∷ r) (delete-append pre)

  set-append : (q : Port) (pre : List Port) → set (pre ++ p ∷ rest) (length pre) q ≡ pre ++ q ∷ rest
  set-append q [] = refl
  set-append q (r ∷ pre) = ap (λ t. r ∷ t) (set-append q pre)

pub get-end : (pre : List Port) → get_elem? pre (length pre) ≡ none
get-end [] = refl
get-end (q ∷ pre) = get-end pre

-- The run from index `length pre` on: `pre` is done with, and `rest` is to come.
abbrev Finishes : Answers → FdSet → List Port → List Port → Option Server → Type 0
Finishes a sel pre rest r = (t : Server) × (r ≡ some t) × Inv t × (t.pq ≡ pre ++ visited a sel rest)

pub snoc : (pre rest : List Port) (q : Port) → pre ++ q ∷ rest ≡ (pre ++ q ∷ []) ++ rest
snoc pre rest q = sym (append_assoc pre (q ∷ []) rest)

pub length-snoc : (pre : List Port) (q : Port) → suc (length pre) ≡ length (pre ++ q ∷ [])
length-snoc pre q = omega (arith, length-append pre (q ∷ []))

-- A client that is kept, as `q`, joins those that are done with.
Finishes-kept :
    (a : Answers) (sel : FdSet) (pre rest : List Port) (p q : Port) (r : Option Server)
    → visited a sel (p ∷ rest) ≡ q ∷ visited a sel rest
    → Finishes a sel (pre ++ q ∷ []) rest r
    → Finishes a sel pre (p ∷ rest) r
Finishes-kept a sel pre rest p q r e (t, run, v, got) =
    (t, run, v, got ∙ (sym (snoc pre (visited a sel rest) q) ∙ ap (λ z. pre ++ z) (sym e)))

Finishes-gone :
    (a : Answers) (sel : FdSet) (pre rest : List Port) (p : Port) (r : Option Server)
    → visited a sel (p ∷ rest) ≡ visited a sel rest
    → Finishes a sel pre rest r
    → Finishes a sel pre (p ∷ rest) r
Finishes-gone a sel pre rest p r e (t, run, v, got) = (t, run, v, got ∙ ap (λ z. pre ++ z) (sym e))

module _ (a : Answers) (sel : FdSet) (p : Port) where
  visited_skip :
      (rest : List Port) → sel p.fd ≡ false → visited a sel (p ∷ rest) ≡ p ∷ visited a sel rest
  unfolding visited
  visited_skip rest e = rw e

  visited-none :
      (rest : List Port)
      → sel p.fd ≡ true
      → outcome a p ≡ none
      → visited a sel (p ∷ rest) ≡ visited a sel rest
  unfolding visited
  visited-none rest e o = rw (e, o)

  visited-some :
      (q : Port) (rest : List Port)
      → sel p.fd ≡ true
      → outcome a p ≡ some q
      → visited a sel (p ∷ rest) ≡ q ∷ visited a sel rest
  unfolding visited
  visited-some q rest e o = rw (e, o)

serve-visited :
    (a : Answers) (sel : FdSet) (c fuel k m : ℕ) (s : Server) (pre rest : List Port)
    → AllShort a
    → Inv s
    → k ≡ length pre
    → s.pq ≡ pre ++ rest
    → s.fds.ps.sel ≡ sel
    → m + readies sel rest ≤ c
    → length rest < fuel
    → Finishes a sel pre rest (serve a (pos c) fuel k (pos m) s)
unfolding serve readies
serve-visited a sel c zero k m s pre rest short v at q e enough fuel = absurd (omega arith)
serve-visited a sel c (suc f) k m s pre [] short v at q e enough fuel =
    let done : get_elem? s.pq k ≡ none = rw (q, append-nil pre, at) (get-end pre) in
    (s, rw (done, serve), v, q ∙ ap (λ z. pre ++ z) (sym (visited_quiet a sel [] refl)))
serve-visited a sel c (suc f) k m s pre (p ∷ rest) short v at q e enough fuel =
    elim (Bool-cases (ltb m c)) [
      | inr done ↦
          let none_left : readies sel (p ∷ rest) ≡ 0 = ground arith in
          (
            s,
            rw (here, serve, done),
            v,
            q ∙ ap (λ z. pre ++ z) (sym (visited_quiet a sel (p ∷ rest) none_left)),
          )
      | inl more ↦ elim (Bool-cases (sel p.fd)) [
        | inr quiet ↦
            let quiet' : s.fds.ps.sel p.fd ≡ false = ap (λ z. z p.fd) e ∙ quiet in
            rw (here, serve, more, quiet')
              (Finishes-kept a sel pre rest p p _ (visited_skip a sel p rest quiet) (
                serve-visited a sel c f (suc k) m s (pre ++ p ∷ []) rest short v
                  (ap suc at ∙ length-snoc pre p) (q ∙ snoc pre rest p) e (ground arith)
                  (omega arith)))
        | inl ready ↦
            let ready' : s.fds.ps.sel p.fd ≡ true = ap (λ z. z p.fd) e ∙ ready in
            let (r, run) = receive-Short a k p s short in
            let w = receive-Inv a v k here r run in
            let steps = receive-Steps a v k here r run in
            let left : suc m + readies sel rest ≤ c = ground arith in
            rw (here, serve, more, ready', run)
              (elim (Option-cases (outcome a p)) [
                | inl gone ↦
                    rw (steps.closes, gone)
                      (Finishes-gone a sel pre rest p _ (visited-none a sel p rest ready gone) (
                        serve-visited a sel c f k (suc m) r.1 pre rest short w at
                          (steps.queue ∙ rw (gone, q, at) (delete-append p rest pre))
                          (steps.ready ∙ e) left (omega arith)))
                | inr (p', kept) ↦
                    rw (steps.closes, kept)
                      (Finishes-kept a sel pre rest p p' _ (visited-some a sel p p' rest ready kept)
                        (serve-visited a sel c f (suc k) (suc m) r.1 (pre ++ p' ∷ []) rest short w
                          (ap suc at ∙ length-snoc pre p')
                          (steps.queue
                            ∙ (rw (kept, q, at) (set-append p rest p' pre) ∙ snoc pre rest p'))
                          (steps.ready ∙ e) left (omega arith)))
              ])
      ]
    ]
  where
    here : get_elem? s.pq k ≡ some p
    here = rw (q, at) (get-append p rest pre)

-- When `selcount` is at least the number of clients in `sel`, and none of the lines has more than 968
-- bytes when it is cleaned, port_server ends without a fault, and serves each client of the
-- queue that is in `sel` exactly once, and no other: one from which nothing can be read or whose
-- line asks to close is taken out of the queue, one whose line turns the monitor on or off has that
-- flag changed, and all else of the queue and its order stay; and the invariant holds.
pub port_server-visited :
    (a : Answers) (s : Server) (c : ℕ)
    → AllShort a
    → Inv s
    → s.fds.ps.selcount ≡ pos c
    → readies s.fds.ps.sel s.pq ≤ c
    → (t : Server) × (port_server a s ≡ some t) × Inv t × (t.pq ≡ visited a s.fds.ps.sel s.pq)
unfolding port_server
port_server-visited a s c short v e enough =
    let run = λ (count : ℤ). serve a count (suc (length s.pq)) 0 (pos 0) s in
    subst (λ count. Finishes a s.fds.ps.sel [] s.pq (run count)) (sym e)
      (serve-visited a s.fds.ps.sel c (suc (length s.pq)) 0 0 s [] s.pq short v refl refl refl
        (omega arith) (omega arith))
