-- ===== src/Server/State.antt =====
-- The globals of the server, and what it does to the outside.
use diald_top.Base.{ℕ, ℤ, Option, List, ◌∷◌}
use diald_top.Server.Fds.{ThreadFds, Fds}
use diald_top.Server.Ports.{Port}

-- A descriptor, or `none` for -1.
abbrev pub Descriptor : Type 0
Descriptor = Option ℕ

-- `auth_data_t`
pub record AuthData : Type 0 where
  pub userid : List ℕ
  pub ip : ℕ
  pub netmask : ℕ

-- The calls that others can see.
pub data Event : Type 0 where
  writes : Descriptor → List ℕ → Event
  closes : ℕ → Event
  mknods : List ℕ → Event
  unlinks : List ℕ → Event

-- `pq` and `aq` are the linked lists from their heads; `trace` has the latest event first.
pub record Server : Type 0 where
  pub fds : Fds
  pub muxedfds : ThreadFds
  pub pq : List Port
  pub aq : List AuthData
  pub controlfd : Descriptor
  pub monitorfd : Descriptor
  pub monitorcount : ℤ
  pub monitor : List ℕ
  pub trace : List Event

abbrev pub emit : Event → Server → Server
emit e s = record s { trace = e ∷ s.trace }

-- `fds->ps` and `fds->fs`
abbrev pub with_ps : ThreadFds → Server → Server
with_ps t s = record s { fds = record (s.fds) { ps = t } }

abbrev pub with_fs : ThreadFds → Server → Server
with_fs t s = record s { fds = record (s.fds) { fs = t } }
