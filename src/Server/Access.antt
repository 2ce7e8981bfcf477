-- ===== src/Server/Access.antt =====
-- Who has control access, and why.
pub mod Lines
pub mod Broadcast
pub mod Entry
pub mod Reachable
use diald_top.Base.{ℕ, ◌≡◌, refl, sym, subst, ◌∙◌, Bool, true, false, Option, none, some, List, All}
use diald_top.Server.Ports.{CString, Port, flag_write, has_flag}
use diald_top.Server.State.{AuthData, Server}
use diald_top.Server.Auth.{auth_search}

-- What the configuration says of a user at an address.
abbrev pub verdict : List AuthData → Option CString → ℕ → Bool
verdict aq none addr = false
verdict aq (some u) addr = auth_search aq u.text addr

-- The client has control access only if the configuration grants it to its user at its address.
abbrev pub Covered : List AuthData → Port → Type 0
Covered aq p = has_flag p.flag flag_write ≡ true → verdict aq p.userid p.sa.addr ≡ true

abbrev pub Authorised : Server → Type 0
Authorised s = All (Covered s.aq) s.pq

-- The configuration stays, and no client gains access that it does not grant.
pub record Kept (s t : Server) : Type 0 where
  pub users : t.aq ≡ s.aq
  pub clients : (aq : List AuthData) → All (Covered aq) s.pq → All (Covered aq) t.pq

pub stays : (s : Server) → Kept s s
stays s = record { users = refl; clients = λ aq h. h }

pub follows : (s t u : Server) → Kept s t → Kept t u → Kept s u
follows s t u h k = record {
  users = k.users ∙ h.users;
  clients = λ aq a. k.clients aq (h.clients aq a);
}

pub Kept-Authorised : (s t : Server) → Kept s t → Authorised s → Authorised t
Kept-Authorised s t k h = subst (λ aq. All (Covered aq) t.pq) (sym k.users) (k.clients s.aq h)
