-- ===== src/Tests.antt =====
-- The server, the clients and the answers of the system that the tests are about.
pub mod Daemons
pub mod Config
pub mod Selection
pub mod Client
pub mod Screens
pub mod Reports
pub mod Printed
pub mod Runs
use diald_top.Base.{
  ℕ, subst, ◌≤◌, decimal, inl, inr, Bool-cases, c_str, ◌+◌, ◌≡◌, refl, ap, Bool, true, false, arith,
  if◌then◌else◌, ◌==◌, Option, none, some, List, [], ◌∷◌, ℤ, pos, minus_one, max_ℤ, length, All,
  codes,
}
use diald_top.Server.Fds.{FdSet, fd_zero, fd_set, ThreadFds}
use diald_top.Server.Ports.{Port, SockAddr}
use diald_top.Server.State.{Server}
use diald_top.Server.Select.Maxfd.{IsTop, set-IsTop, no-IsTop}
use diald_top.Server.PortQueue.Queue.{has, monitors, Distinct}
use diald_top.Server.Invariant.{IsPlain, Inv}
use diald_top.Server.Monitor.{PipeAnswer}
use diald_top.Server.Userid.{reap_userid, skip_field, clean_userid, until_eol, skip_spaces}
use diald_top.Server.PortServer.{Answers}
use diald_top.Server.PortServer.Keeps.{AllShort}
use diald_top.Server.Daemon.{Connection, ident_user, reply_buffer}
use diald_top.Server.Daemon.Keeps.{GreetingFits}

abbrev pub home : SockAddr
home = record { family = 2; port = 40000; addr = 0x0a00_0001 }

abbrev pub client : ℕ → ℕ → List ℕ → Port
client fd flag user = record {
  fd = fd;
  sa = home;
  flag = flag;
  userid = some (record { at = 1000 + fd; text = user });
}

-- ann may write; bob, cat and dan watch.
abbrev pub ann : Port
ann = client 6 3 (codes "ann")

abbrev pub bob : Port
bob = client 7 5 (codes "bob")

abbrev pub cat : Port
cat = client 9 5 (codes "cat")

abbrev pub dan : Port
dan = client 10 5 (codes "dan")

abbrev pub all_fds : List Port → FdSet
all_fds [] = fd_zero
all_fds (p ∷ ps) = fd_set p.fd (all_fds ps)

abbrev top_fd : List Port → ℤ
top_fd [] = minus_one
top_fd (p ∷ ps) = max_ℤ (pos p.fd) (top_fd ps)

abbrev pub holding : ℕ → ThreadFds
holding fd = record {
  fullcount = pos 1;
  full = fd_set fd fd_zero;
  maxfd = pos fd;
  selcount = pos 0;
  sel = fd_zero;
}

-- A server with these clients, of which the ready ones are given; the monitor pipe is open on 8.
abbrev pub serving : FdSet → ℕ → List Port → Server
serving sel count ps = record {
  fds = record {
    pd = holding 3;
    ps = record {
      fullcount = pos (length ps);
      full = all_fds ps;
      maxfd = top_fd ps;
      selcount = pos count;
      sel = sel;
    };
    fs = holding 8;
  };
  muxedfds = holding 3;
  pq = ps;
  aq = [];
  controlfd = some 5;
  monitorfd = some 8;
  monitorcount = pos (monitors ps);
  monitor = codes "/tmp/m";
  trace = [];
}

all_fds-has : (i : ℕ) (ps : List Port) → all_fds ps i ≡ has i ps
unfolding has
all_fds-has i [] = refl
all_fds-has i (p ∷ ps) = ground (arith, all_fds-has i ps)

top_fd-IsTop : (ps : List Port) → IsTop (all_fds ps) (top_fd ps)
top_fd-IsTop [] = no-IsTop
top_fd-IsTop (p ∷ ps) = set-IsTop p.fd _ _ (top_fd-IsTop ps)

pub serving-Inv :
    (sel : FdSet) (count : ℕ) (ps : List Port)
    → Distinct ps
    → All IsPlain ps
    → Inv (serving sel count ps)
serving-Inv sel count ps distinct plain = record {
  distinct = distinct;
  plain = plain;
  lists = record { full = λ i. all_fds-has i ps; fullcount = refl; top = top_fd-IsTop ps };
  counted = refl;
  pipe = record { full = λ i. ground arith; fullcount = refl; maxfd = refl };
  listening = set-IsTop 3 _ _ no-IsTop;
}

-- No client at all, ann and bob, and three that watch.
abbrev pub two : Server
two = serving (all_fds (ann ∷ bob ∷ [])) 2 (ann ∷ bob ∷ [])

abbrev pub three : Server
three = serving fd_zero 0 (bob ∷ cat ∷ dan ∷ [])

pub two-Inv : Inv two
unfolding has
two-Inv = serving-Inv _ 2 (ann ∷ bob ∷ []) (refl, (refl, tt)) (omega arith, (omega arith, tt))

pub three-Inv : Inv three
unfolding has
three-Inv =
    serving-Inv _ 0 (bob ∷ cat ∷ dan ∷ []) (refl, (refl, (refl, tt)))
      (omega arith, (omega arith, (omega arith, tt)))

abbrev pub pipe : PipeAnswer
pipe = record { name = codes "/tmp/n"; fd = some 11 }

-- ann says "up", and all others have gone.
abbrev pub answers : Answers
answers = record { recv = λ fd. if fd == 6 then codes "up\r\n" else []; pipe = λ _. pipe }

pub answers-AllShort : AllShort answers
unfolding clean_userid until_eol skip_spaces c_str
answers-AllShort fd = elim (Bool-cases (fd == 6)) [
  | inl e ↦ rw e (omega arith)
  | inr e ↦ rw e (omega arith)
]

-- eve connects, and identd knows her.
abbrev pub connection : Connection
connection = record {
  fd = some 12;
  sa = home;
  from_port = 40000;
  dotted = codes "10.0.0.1";
  ident_fd = 13;
  ident = some (codes "40000 , 1313 : USERID : UNIX :eve\r\n");
  stale = [];
  place = 2000;
  allocated = true;
}

pub eve-Fits : GreetingFits connection
unfolding ident_user reply_buffer decimal reap_userid until_eol c_str skip_field clean_userid
    skip_spaces
eve-Fits reply e =
    let same : codes "40000 , 1313 : USERID : UNIX :eve\r\n" ≡ reply = ground arith in
    subst (λ r. length (ident_user connection r) + 8 ≤ 213) same (omega arith)
