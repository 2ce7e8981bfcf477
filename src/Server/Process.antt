-- ===== src/Server/Process.antt =====
-- server/diald-top-server.c: how the process starts and ends. detach_process, sigint, and main as a
-- whole.
pub mod Lives
use diald_top.Base.{
  ℕ, Bool, true, false, if◌then◌else◌, Option, none, some, ◌>>=◌, List, [], ◌∷◌, ℤ, pos, minus_one,
  ltb_ℤ, eqb_ℤ,
}
use diald_top.Server.State.{Descriptor, Server}
use diald_top.Server.Auth.{Token, read_conf, reauthenticate_users}
use diald_top.Server.Main.{start, Round, main_round}

-- The process exits with a status, goes on, or has crashed.
pub data Process {ℓ} (A : Type ℓ) : Type ℓ where
  exits : ℕ → Process A
  goes_on : A → Process A
  crashes : Process A

-- What fork and setsid return.
unfoldable pub detach_process : (forked session : ℤ) → Process (Unit {0})
detach_process forked session =
    if ltb_ℤ (pos 0) forked
    then exits 0
    else if eqb_ℤ forked minus_one
    then exits 1
    else if eqb_ℤ session minus_one
    then exits 1
    else goes_on tt

-- Something that ends a round: the next round of the loop, a signal that sigint handles, or SIGHUP, with
-- the configuration file that is there.
pub data Happens : Type 0 where
  round : Round → Happens
  interrupt : Happens
  hangup : Option (List Token) → Happens

-- `sigint`
abbrev pub sigint : Process Server
sigint = exits 2

-- In reread_conf yyerror exits with 1, and a NULL user crashes it.
unfoldable pub serves : List Happens → Server → Process Server
unfolding read_conf reauthenticate_users
serves [] s = goes_on s
serves (interrupt ∷ later) s = sigint
serves (hangup file ∷ later) s = elim (read_conf file (record s { aq = [] })) [
  | none ↦ exits 1
  | some t ↦ elim (reauthenticate_users t) [ none ↦ crashes | some u ↦ serves later u ]
]
serves (round r ∷ later) s = elim (main_round r s) [ none ↦ crashes | some t ↦ serves later t ]

-- main, in the process that the user starts or in the one that goes on. A port that cannot be bound
-- and a configuration that cannot be parsed both end it with 1.
unfoldable pub server_main :
    (forked session : ℤ)
    → Option ℕ
    → Descriptor
    → Option (List Token)
    → List Happens
    → Process Server
server_main forked session listener control file happens = elim (detach_process forked session) [
  | exits n ↦ exits n
  | crashes ↦ crashes
  | goes_on _ ↦ elim (start listener control file) [ none ↦ exits 1 | some s ↦ serves happens s ]
]
