-- ===== src/Server/Daemon/Greeting.antt =====
-- How much of `user` in port_daemon the greeting takes, with the user that identd names.
use diald_top.Base.{
  ℕ, ◌+◌, ◌≡◌, arith, Bool, true, false, if◌then◌else◌, List, ◌∷◌, ◌++◌, ◌==◌, All, length,
  length-append, codes,
}
use diald_top.Server.Userid.Laws.{IsOneLine, IsField, spaces}
use diald_top.Server.State.{Server}
use diald_top.Server.Daemon.{greeting}

-- What identd replies to name this user, as RFC 1413 has it: the ports, the kind of reply, the system, and
-- after spaces the user; with whatever follows the line.
abbrev pub names_line : (ports kind system : List ℕ) (n : ℕ) (user : List ℕ) → List ℕ
names_line ports kind system n user =
    ports ++ b':' ∷ (kind ++ b':' ∷ (system ++ b':' ∷ (spaces n ++ user)))

abbrev pub names : (ports kind system : List ℕ) (n : ℕ) (user rest : List ℕ) → List ℕ
names ports kind system n user rest = names_line ports kind system n user ++ b'\n' ∷ rest

abbrev pub NoNul : List ℕ → Type 0
NoNul = All λ c. (c == 0) ≡ false

-- A field of the reply.
pub record IsPart (field : List ℕ) : Type 0 where
  pub colons : IsField field
  pub one : IsOneLine field
  pub plain : NoNul field

pub length-greeting :
    (full : Bool) (user dotted : List ℕ)
    → length (greeting full user dotted) ≡ (if full then 40 else 43) + length user + length dotted
unfolding greeting
length-greeting true user dotted =
    omega (arith, length-append user _, length-append dotted (codes " connected -- Full access\n"))
length-greeting false user dotted =
    omega
      (arith, length-append user _, length-append dotted (codes " connected -- Monitor access\n"))
