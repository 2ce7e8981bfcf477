-- ===== src/Server/Daemon.antt =====
-- port_daemon of server/port-daemon.c: a client connects, and identd is asked who it is.
pub mod Keeps
pub mod Greeting
use diald_top.Base.{
  ℕ, ◌+◌, ltb, Bool, true, false, if◌then◌else◌, Option, none, some, List, [], ◌∷◌, ◌++◌, codes,
  c_str, decimal, drop, length, ◌≡◌, inl, inr, subst, arith, Bool-cases, Option-cases,
}
use diald_top.Server.Ports.{CString, SockAddr, Port, flag_read, flag_write, raise}
use diald_top.Server.State.{Descriptor, Event, Server, emit}
use diald_top.Server.PortQueue.{port_enqueue}
use diald_top.Server.Auth.{auth_search}
use diald_top.Server.Userid.{until_eol, reap_userid}

-- What the system answers to the calls of port_daemon: the results of accept, the client's address
-- and how inet_ntoa writes it; the socket for identd, and what read returns from it (`none` where
-- connect fails); the bytes that stood in `line` behind the request; the place of the string that
-- strdup returns; and whether malloc succeeds in port_enqueue.
pub record Connection : Type 0 where
  pub fd : Descriptor
  pub sa : SockAddr
  pub from_port : ℕ
  pub dotted : List ℕ
  pub ident_fd : ℕ
  pub ident : Option (List ℕ)
  pub stale : List ℕ
  pub place : ℕ
  pub allocated : Bool

-- `sprintf(line, "%d, 1313\n", ntohs(s_in.sa.sin_port))`
abbrev pub request : Connection → List ℕ
request c = decimal c.from_port ++ codes ", 1313\n"

-- `line` after the read: the reply over the request, its NUL and what stood behind.
unfoldable pub reply_buffer : Connection → List ℕ → List ℕ
unfolding decimal
reply_buffer c reply = reply ++ drop (length reply) (request c ++ (0 ∷ c.stale))

-- The log line has clean_userid cut `line` at its end before reap_userid reads it.
unfoldable pub ident_user : Connection → List ℕ → List ℕ
unfolding reply_buffer c_str until_eol reap_userid
ident_user c reply = reap_userid (until_eol (c_str (reply_buffer c reply)))

abbrev pub no_ident_text : List ℕ
no_ident_text = codes "MESSAGE\nUnauthorized Access -- Monitor only (no ident)\n"

unfoldable pub greeting : Bool → List ℕ → List ℕ → List ℕ
greeting full userid dotted =
    codes "MESSAGE\nUser "
    ++ (userid
        ++ (codes "@"
            ++ (dotted
                ++ (if full
                    then codes " connected -- Full access\n"
                    else codes " connected -- Monitor access\n"))))

-- `s_in` and the globals once the client has been greeted.
pub record Greeted : Type 0 where
  pub flag : ℕ
  pub userid : Option CString
  pub server : Server

-- `alloca(257)`
abbrev pub user_size : ℕ
user_size = 257

-- `none` is a fault: the greeting and its NUL go behind the end of `user`. So does each text that goes
-- behind the end of the `line` that auth_check logs, which has fewer bytes around the user and address.
unfoldable pub greet : Connection → Server → Option Greeted
unfolding ident_user auth_search greeting
greet c s = elim c.ident [
  | none ↦ some (record {
    flag = flag_read;
    userid = none;
    server = emit (Event.writes c.fd no_ident_text) s;
  })
  | some reply ↦
      let user = ident_user c reply in
      let full = auth_search s.aq user c.sa.addr in
      if ltb user_size (length (greeting full user c.dotted) + 1)
      then none
      else some (record {
        flag = if full then raise flag_read flag_write else flag_read;
        userid = some (record { at = c.place; text = user });
        server =
            emit (Event.writes c.fd (greeting full user c.dotted)) (
              emit (Event.closes c.ident_fd) (emit (Event.writes (some c.ident_fd) (request c)) s));
      })
]

-- port_enqueue, and the close of a client that it could not take.
unfoldable pub admit : Bool → Port → Server → Server
unfolding port_enqueue
admit allocated p s =
    let (taken, t) = port_enqueue allocated p s in if taken then t else emit (Event.closes p.fd) t

-- Where accept fails, -1 is put into the descriptor set of the port server: that is a fault too.
unfoldable pub port_daemon : Connection → Server → Option Server
unfolding greet admit
port_daemon c s = elim (greet c s) [
  | none ↦ none
  | some g ↦ elim c.fd [
    | none ↦ if c.allocated then none else some (g.server)
    | some fd ↦ some (
        admit c.allocated (record { fd = fd; sa = c.sa; flag = g.flag; userid = g.userid })
          g.server)
  ]
]

-- What is to be shown of the two ways to greet.
pub greet_cases {ℓ} :
    (P : Greeted → Type ℓ) (c : Connection) (s : Server)
    → (c.ident ≡ none
        → P (record {
          flag = flag_read;
          userid = none;
          server = emit (Event.writes c.fd no_ident_text) s;
        }))
    → ((reply : List ℕ)
        → c.ident ≡ some reply
        → P (
            let user = ident_user c reply in
            let full = auth_search s.aq user c.sa.addr in
            record {
              flag = if full then raise flag_read flag_write else flag_read;
              userid = some (record { at = c.place; text = user });
              server = emit (Event.writes c.fd (greeting full user c.dotted)) (
                  emit
                    (Event.closes c.ident_fd)
                    (emit (Event.writes (some c.ident_fd) (request c)) s));
            }))
    → (g : Greeted) → greet c s ≡ some g
    → P g
unfolding greet
greet_cases P c s unknown known g run = elim (Option-cases c.ident) [
  | inl e ↦ at_end (rw (e, greet) at run) (unknown e)
  | inr (reply, e) ↦
      let user = ident_user c reply in
      let full = auth_search s.aq user c.sa.addr in
      elim (Bool-cases (ltb user_size (length (greeting full user c.dotted) + 1))) [
        | inl long ↦ let fault = rw (e, greet, long) at run in cc
        | inr fits ↦ at_end (rw (e, greet, fits) at run) (known reply e)
      ]
]
  where
    at_end : {x : Greeted} → some x ≡ some g → P x → P g
    at_end {x} e h = let same : x ≡ g = ground arith in subst P same h
