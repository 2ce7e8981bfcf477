-- ===== src/Tests/Client.antt =====
-- Tests of client/ and client-lib/.
use diald_top.Base.{
  ◌||◌, ℕ, ◌≡◌, ◌⊎◌, refl, true, false, arith, if◌then◌else◌, Option, none, some, inl, List, [],
  ◌∷◌, ◌++◌, pos, minus_one, codes, All, isspace, tolower, strncaseeq, strneq, streq, ltb,
}
use diald_top.Client.Pipe.{find_command, cmd, strstrip, begins, validate_command, fifo_command}
use diald_top.Client.Pipe.Match.{Among, fifo_command-validate_command}
use diald_top.Client.Resolve.{
  InAddr, HostRec, HostHash, Host, Query, hash, truncate_hostname, resolve,
}
use diald_top.Client.Resolve.Table.{first, lookup}
use diald_top.Client.Resolve.Refines.{Refines, resolve_in_map, resolve-Refines}
use diald_top.Client.Resolve.Cached.{resolve_all, resolve-resolve}
use diald_top.Client.Screen.{Screen}
use diald_top.Client.Screen.Buffers.{Ready}
use diald_top.Client.Main.{Session, Answer, readable, client_loop}
use diald_top.Client.Main.Ends.{is_over, some_ends, client_loop_ends}
use diald_top.ClientLib.Semaphores.{
  Semaphore, semaphore_create, semaphore_take, semaphore_give, takes, gives, creates, later, Reach,
}
use diald_top.ClientLib.Semaphores.Counts.{Counts, Reach-Counts, Reach-overdrawn}

fifo_command-validate_command_example :
    ((name : List ℕ) × Among name cmd
      × (begins name (strstrip (codes "uptown")) ≡ true)
      × (fifo_command (validate_command (codes "uptown")) ≡ (0, (name ++ codes "\n") ∷ [])))
    ⊎ (All (λ name. begins name (strstrip (codes "uptown")) ≡ false) cmd
        × (fifo_command (validate_command (codes "uptown")) ≡ (1, [])))
fifo_command-validate_command_example = fifo_command-validate_command (codes "uptown")

abbrev address : InAddr
address = record { c0 = 10; c1 = 0; c2 = 0; c3 = 255 }

abbrev unset : HostRec
unset = record { addr = address; name = []; trunc = []; time_resolved = 0 }

abbrev asking : Query
asking = record {
  aaddr = codes "10.0.0.255";
  addr = some address;
  numeric = false;
  trunc_local_hosts = false;
  curr_state = codes "UP";
  loads = record { rx0 = 10; rx1 = 20; rx2 = 30; tx0 = 0; tx1 = 0; tx2 = 900 };
  now = 5000;
  mydomain = codes "lan";
  host = Host.named (codes "gate.lan");
  fresh = unset;
}

abbrev empty : HostHash
empty _ = []

resolve-Refines_example : Refines (resolve asking empty) (resolve_in_map asking (lookup empty))
resolve-Refines_example = resolve-Refines asking empty

-- A day later, the link is down, and names are to be cut.
abbrev asking_again : Query
asking_again = record asking {
  now = 91_400;
  curr_state = codes "DOWN";
  host = Host.failed;
  trunc_local_hosts = true;
}

resolve-resolve_example :
    (resolve asking_again (resolve_all (asking_again ∷ []) (resolve asking empty).1)).0
    ≡ codes "gate"
unfolding streq strneq truncate_hostname first
resolve-resolve_example =
    resolve-resolve asking asking_again (asking_again ∷ []) address (codes "gate.lan") empty refl
      refl refl refl refl refl (omega arith, tt) (omega arith)

-- Two threads take, one gives.
abbrev given : Semaphore
given = semaphore_give (semaphore_take (semaphore_take (semaphore_create (pos 1))))

Reach-Counts_example : Counts 1 given
Reach-Counts_example = Reach-Counts 1 (later (later (later creates takes) takes) gives)

Reach-overdrawn_example : (s : Semaphore) × Reach (pos 2) s × (s.value ≡ minus_one)
Reach-overdrawn_example = Reach-overdrawn 2

-- A terminal of 24 lines and 5 columns; malloc leaves nines.
abbrev fresh : ℕ → List ℕ
fresh _ = 9 ∷ 9 ∷ 9 ∷ 9 ∷ 9 ∷ 9 ∷ []

abbrev off : Screen
off = record { lines = 0; cols = 0; numbuff = 0; scrbuff = λ _. none; count = 0 }

abbrev line_of : ℕ → Option (List ℕ)
line_of i = if ltb i 25 then some (0 ∷ 9 ∷ 9 ∷ 9 ∷ 9 ∷ 9 ∷ []) else none

abbrev small : Screen
small = record { lines = 24; cols = 5; numbuff = 25; scrbuff = line_of; count = 0 }

small-Ready : Ready small
small-Ready = record {
  enough = inl refl;
  within = omega arith;
  buffers = λ i lt. let inside : ltb i 25 ≡ true = ground arith in rw inside (_, refl, refl);
}

-- Of 300 lines, there are 256.
abbrev tall_line : ℕ → Option (List ℕ)
tall_line i = if ltb i 256 then some (0 ∷ 9 ∷ 9 ∷ 9 ∷ 9 ∷ 9 ∷ []) else none

abbrev tall : Screen
tall = record { lines = 300; cols = 5; numbuff = 256; scrbuff = tall_line; count = 256 }

abbrev session : Session
session = record { quit = 0; numeric = 0; trunc_local_hosts = 0; sent = [] }

-- 'c' and a command, then 'q', then a key that is not read any more.
abbrev inputs : List Answer
inputs =
    readable (some (b'c', codes "Block")) (some true)
    ∷ readable (some (b'q', [])) none
    ∷ readable (some (b'n', [])) none
    ∷ []

client_loop_ends_example : (client_loop inputs session).0 ≡ (is_over session || some_ends inputs)
client_loop_ends_example = client_loop_ends inputs session

-- A prefix is enough.
uptown_up : validate_command (codes "uptown") ≡ codes "up"
unfolding validate_command find_command strstrip isspace strncaseeq tolower
uptown_up = refl

broadcast_hash : hash address ≡ 0xff0a
unfolding hash
broadcast_hash = refl
