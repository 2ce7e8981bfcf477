-- ===== src/Server/Auth.antt =====
-- server/authenticate.c, with the actions and the grammar of server/conffile.y.
pub mod Match
pub mod Reauth
pub mod Reload
use diald_top.Base.{
  ℕ, ◌*◌, Bool, true, false, ◌==◌, if◌then◌else◌, Option, none, some, List, [], ◌∷◌, bit_and, codes,
  strcaseeq,
}
use diald_top.Server.Ports.{CString, Port, flag_read, flag_write, raise}
use diald_top.Server.Ports.Flags.{without_access}
use diald_top.Server.State.{AuthData, Event, Server, emit}

unfoldable pub auth_add : List ℕ → ℕ → ℕ → List AuthData → List AuthData
auth_add userid ip netmask aq =
    record { userid = userid; ip = bit_and ip netmask; netmask = netmask } ∷ aq

-- The loop of auth_check on a user name that is there.
unfoldable pub auth_search : List AuthData → List ℕ → ℕ → Bool
auth_search [] userid ip = false
auth_search (curr ∷ next) userid ip =
    let rest = auth_search next userid ip in
    if strcaseeq curr.userid userid
    then (if bit_and ip curr.netmask == curr.ip then true else rest)
    else rest

-- `none` is a fault: strcasecmp is called with the NULL that stands for a user not known.
unfoldable pub auth_check : List AuthData → Option (List ℕ) → ℕ → Option Bool
unfolding auth_search
auth_check aq (some userid) ip = some (auth_search aq userid ip)
auth_check [] none ip = some false
auth_check (curr ∷ next) none ip = none

-- The tokens of conffile.l. An address comes with what inet_pton makes of it.
pub data Token : Type 0 where
  userid : List ℕ → Token
  ip : ℕ → Token
  newline : Token

-- yyparse on the tokens after the first line, with the actions; `none` is yyerror, which exits.
unfoldable pub more_lines : List Token → List AuthData → Option (List AuthData)
more_lines [] aq = some aq
more_lines (Token.newline ∷ ts) aq = more_lines ts aq
more_lines (Token.userid u ∷ Token.ip a ∷ Token.ip m ∷ Token.newline ∷ ts) aq =
    more_lines ts (auth_add u a m aq)
more_lines (t ∷ ts) aq = none

-- The grammar wants one line at least.
unfoldable pub yyparse : List Token → List AuthData → Option (List AuthData)
unfolding more_lines
yyparse [] aq = none
yyparse (t ∷ ts) aq = more_lines (t ∷ ts) aq

-- `file` is `none` where fopen fails. The result is `none` where the server exits.
unfoldable pub read_conf : Option (List Token) → Server → Option Server
unfolding yyparse
read_conf none s = some s
read_conf (some file) s = elim (yyparse file s.aq) [
  | none ↦ none
  | some aq ↦ some (record s { aq = aq })
]

abbrev pub full_text : List ℕ
full_text = codes "MESSAGE\nServer configuration reloaded - full access granted\n"

abbrev pub ro_text : List ℕ
ro_text = codes "MESSAGE\nServer configuration reloaded - read-only access granted\n"

abbrev pub user_text : Option CString → Option (List ℕ)
user_text none = none
user_text (some u) = some u.text

-- The body of the loop in reauthenticate_users: the client, and what is written to it.
unfoldable pub reauthenticate : List AuthData → Port → Option (Port × Event)
unfolding auth_check
reauthenticate aq p = elim (auth_check aq (user_text p.userid) p.sa.addr) [
  | none ↦ none
  | some true ↦ some (
    record p { flag = raise (without_access p.flag) (raise flag_read flag_write) },
    Event.writes (some p.fd) full_text,
  )
  | some false ↦ some (
    record p { flag = raise (without_access p.flag) flag_read },
    Event.writes (some p.fd) ro_text,
  )
]

-- That loop: the clients, and the trace after its writes.
unfoldable pub reauth_loop :
    List AuthData → List Port → List Event → Option (List Port × List Event)
unfolding reauthenticate
reauth_loop aq [] trace = some ([], trace)
reauth_loop aq (p ∷ ps) trace = elim (reauthenticate aq p) [
  | none ↦ none
  | some (q, e) ↦ elim (reauth_loop aq ps (e ∷ trace)) [
    | none ↦ none
    | some (qs, after) ↦ some (q ∷ qs, after)
  ]
]

unfoldable pub reauthenticate_users : Server → Option Server
unfolding reauth_loop
reauthenticate_users s = elim (reauth_loop s.aq s.pq s.trace) [
  | none ↦ none
  | some (qs, after) ↦ some (record s { pq = qs; trace = after })
]

-- The handler of SIGHUP.
unfoldable pub reread_conf : Option (List Token) → Server → Option Server
unfolding read_conf reauthenticate_users
reread_conf file s = elim (read_conf file (record s { aq = [] })) [
  | none ↦ none
  | some t ↦ reauthenticate_users t
]
