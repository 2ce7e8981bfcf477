-- ===== src/Server/Process/Lives.antt =====
-- The states that the process serves, and why it ends.
use diald_top.Base.{◌≡◌, true, false, ◌⊎◌, Option, none, some, List, [], ◌∷◌, pos, eqb_ℤ}
use diald_top.Server.State.{AuthData, Server}
use diald_top.Server.Auth.{Token, read_conf, reread_conf}
use diald_top.Server.Auth.Reauth.{anonymous, is_empty}
use diald_top.Server.Main.{main_round, selected}
use diald_top.Server.Main.Reach.{Reach, Accepts, Fits}
use diald_top.Server.Process.{Process, goes_on, exits, crashes, Happens, round, interrupt, hangup}

-- In each round accept gives a new descriptor where the listening socket is said to be ready, and the
-- texts fit their buffers.
abbrev pub AllAccept : List Happens → Server → Type 0
AllAccept [] s = Unit
AllAccept (interrupt ∷ more) s = Unit
AllAccept (hangup file ∷ more) s = (t : Server) → reread_conf file s ≡ some t → AllAccept more t
AllAccept (round r ∷ more) s =
    (eqb_ℤ (selected r s).fds.pd.selcount (pos 0) ≡ false → Accepts r s)
    × Fits r
    × ((t : Server) → main_round r s ≡ some t → AllAccept more t)

-- It is one of those things that happen.
abbrev pub Among : Happens → List Happens → Type 0
Among h [] = ⊥
Among h (x ∷ xs) = (x ≡ h) ⊎ Among h xs

-- A file that yyerror does not take, as a configuration that replaces the old one.
abbrev pub Unreadable : Option (List Token) → Type 0
Unreadable file = (t : Server) × (read_conf file (record t { aq = [] }) ≡ none)

-- What crashes reread_conf: a file with a user is read while a client is not known by name.
abbrev pub MeetsNull : Option (List Token) → Type 0
MeetsNull file =
    (t : Server) × Reach t
    × (anonymous t.pq ≡ true)
    × ((aq : List AuthData) × (read_conf file (record t { aq = [] }) ≡ some (record t { aq = aq }))
        × (is_empty aq ≡ false))

-- How it can go on: it serves a state that can be reached; a signal ends it with 2; SIGHUP ends it with 1,
-- with a file that cannot be parsed; or SIGHUP crashes it.
abbrev pub Lives : List Happens → Process Server → Type 0
Lives happens r =
    ((t : Server) × (r ≡ goes_on t) × Reach t)
    ⊎ (((r ≡ exits 2) × Among interrupt happens)
        ⊎ (((r ≡ exits 1)
              × ((file : Option (List Token)) × Among (hangup file) happens × Unreadable file))
            ⊎ ((r ≡ crashes)
                × ((file : Option (List Token)) × Among (hangup file) happens × MeetsNull file))))
