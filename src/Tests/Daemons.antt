-- ===== src/Tests/Daemons.antt =====
-- Tests of the server.
use diald_top.Base.{
  strncaseeq, tolower, ℕ, ◌≡◌, ◌⊎◌, refl, Bool, true, false, arith, Option, none, some, List, [],
  ◌∷◌, pos, codes, c_str, ◌==◌,
}
use diald_top.Server.Fds.{fd_zero, fd_set}
use diald_top.Server.Ports.{Port, has_flag}
use diald_top.Server.State.{AuthData, Server}
use diald_top.Server.PortQueue.{port_enqueue, close_port}
use diald_top.Server.PortQueue.Roundtrip.{SameQueue, close_port-port_enqueue}
use diald_top.Server.PortQueue.Queue.{has, monitors}
use diald_top.Server.PortQueue.Keeps.{Left, close_port-Left}
use diald_top.Server.Invariant.{Inv}
use diald_top.Server.Auth.{
  Token, auth_add, reauth_loop, reauthenticate_users, read_conf, reread_conf,
}
use diald_top.Server.Auth.Match.{Line}
use diald_top.Server.Auth.Reauth.{anonymous, is_empty}
use diald_top.Server.Auth.Reload.{Reloaded, reread_conf_lem}
use diald_top.Server.Commands.{asks, asks_off, asks_on}
use diald_top.Server.PortServer.{port_server}
use diald_top.Server.PortServer.Keeps.{port_server-Inv}
use diald_top.Server.PortServer.Control.{Accounted}
use diald_top.Server.PortServer.Reasons.{port_server-Accounted}
use diald_top.Server.PortServer.Served.{visited, readies, port_server-visited}
use diald_top.Server.Fifo.{fifo_server}
use diald_top.Server.Fifo.Keeps.{fifo_server-Inv}
use diald_top.Server.Fifo.Broadcast.{all_sent, fifo_server-all_sent}
use diald_top.Server.Fifo.Lost.{Lost, fifo_server-Lost}
use diald_top.Server.Daemon.{port_daemon}
use diald_top.Server.Daemon.Keeps.{Admitted, port_daemon-Admitted}
use diald_top.Server.Main.{booted, start, Round, main_round}
use diald_top.Server.Access.{Authorised}
use diald_top.Server.Access.Reachable.{Reach-Authorised}
use diald_top.Server.Main.Reach.{
  Fits, rounds, Reach, starts, later, reloads, main_round-Inv, Reach-Inv,
}
use diald_top.Tests.{
  client, bob, cat, dan, two, three, two-Inv, three-Inv, answers, answers-AllShort, connection,
  eve-Fits,
}

-- eve may read.
abbrev eve : Port
eve = client 14 1 (codes "eve")

close_port-Left_example : Left 1 bob two (close_port bob two)
close_port-Left_example = close_port-Left two-Inv 1 refl

close_port-port_enqueue_example : SameQueue two (close_port eve (port_enqueue true eve two).1)
unfolding has has_flag
close_port-port_enqueue_example = close_port-port_enqueue eve two refl (omega arith) refl two-Inv

-- Without its carriage return the request to stop is one to start.
monitor_off_on :
    (asks_off (codes "monitor off\n") ≡ false) × (asks_on (codes "monitor off\n") ≡ true)
unfolding asks c_str strncaseeq tolower
monitor_off_on = (refl, refl)

port_server-Inv_example : (t : Server) × (port_server answers two ≡ some t) × Inv t
port_server-Inv_example = port_server-Inv answers two answers-AllShort two-Inv

port_server-visited_example :
    (t : Server) × (port_server answers two ≡ some t)
    × Inv t
    × (t.pq ≡ visited answers two.fds.ps.sel two.pq)
unfolding readies
port_server-visited_example =
    port_server-visited answers two 2 answers-AllShort two-Inv refl (omega arith)

port_server-Accounted_example :
    (t : Server) × (port_server answers two ≡ some t)
    × Accounted answers two.controlfd two.pq two.trace t.trace
port_server-Accounted_example = port_server-Accounted answers two answers-AllShort two-Inv

abbrev lines : List (List ℕ)
lines = codes "STATUS\nUP\n" ∷ codes "QUEUE\n" ∷ []

-- The second write of the call fails.
abbrev second_fails : ℕ → Bool
second_fails n = n == 1

fifo_server-Inv_example : (t : Server) × (fifo_server second_fails lines three ≡ some t) × Inv t
fifo_server-Inv_example = fifo_server-Inv second_fails lines three three-Inv

fifo_server-all_sent_example :
    fifo_server (λ _. false) lines three
    ≡ some (record three { trace = all_sent lines three.pq three.trace })
unfolding monitors has_flag
fifo_server-all_sent_example =
    fifo_server-all_sent (λ _. false) lines three (λ n. refl) three-Inv
      (λ e. absurd (omega (arith, e)))

fifo_server-Lost_example :
    (t : Server) × (fifo_server second_fails (codes "QUEUE\n" ∷ []) three ≡ some t)
    × Lost three (codes "QUEUE\n") bob cat dan t
unfolding has_flag
fifo_server-Lost_example =
    fifo_server-Lost second_fails (codes "QUEUE\n") three bob cat dan three-Inv refl refl refl refl
      refl refl

port_daemon-Admitted_example :
    (t : Server) × (port_daemon connection two ≡ some t)
    × Inv t
    × (connection.allocated ≡ true → (p : Port) × Admitted connection 12 two t p)
unfolding has
port_daemon-Admitted_example = port_daemon-Admitted connection 12 two refl refl eve-Fits two-Inv

-- Eve may write, from the network 10.0.0.0/8, and so may Frank.
abbrev eve_line : Option Line
eve_line = some (record { user = codes "Eve"; addr = 0x0a00_0000; netmask = 0xff00_0000 })

abbrev more : List (Option Line)
more = none ∷ some (record { user = codes "frank"; addr = 0x0a00_0000; netmask = 0xff00_0000 }) ∷ []

-- frank's line alone.
abbrev users : List AuthData
users = record { userid = codes "frank"; ip = 0x0a00_0000; netmask = 0xff00_0000 } ∷ []

abbrev frank : List Token
frank =
    Token.userid (codes "frank") ∷ Token.ip 0x0a00_0000 ∷ Token.ip 0xff00_0000 ∷ Token.newline ∷ []

reread_conf_lem_example :
    ((reread_conf (some frank) two ≡ none) × (anonymous two.pq ≡ true) × (is_empty users ≡ false))
    ⊎ ((t : Server) × (reread_conf (some frank) two ≡ some t)
        × Reloaded users two t
        × ((anonymous two.pq ≡ false) ⊎ (is_empty users ≡ true)))
unfolding read_conf auth_add
reread_conf_lem_example = reread_conf_lem (some frank) users two refl two-Inv

-- eve connects, while ann and bob say something.
abbrev round : Round
round = record {
  garbage = pos 0;
  ready = fd_set 3 (fd_set 6 fd_zero);
  result = pos 2;
  connection = connection;
  answers = answers;
  epipe = second_fails;
  lines = lines;
}

round-Fits : Fits round
round-Fits = record { greeting = eve-Fits; lines = answers-AllShort }

main_round-Inv_example : (t : Server) × (main_round round two ≡ some t) × Inv t
unfolding has
main_round-Inv_example = main_round-Inv round two (λ _. (12, refl, refl)) round-Fits two-Inv

Reach-Inv_example : Inv (booted 3 (some 5))
unfolding start read_conf reread_conf reauthenticate_users reauth_loop
Reach-Inv_example = Reach-Inv (later (starts (some 3) (some 5) none refl) (reloads none refl))

-- The server with Eve's line, in whose first round eve connects.
abbrev begun : Server
begun = record (booted 3 (some 5)) {
  aq = record { userid = codes "Eve"; ip = 0x0a00_0000; netmask = 0xff00_0000 } ∷ [];
}

abbrev eve_tokens : List Token
eve_tokens =
    Token.userid (codes "Eve") ∷ Token.ip 0x0a00_0000 ∷ Token.ip 0xff00_0000 ∷ Token.newline ∷ []

begun-Reach : Reach begun
unfolding start read_conf auth_add
begun-Reach = starts (some 3) (some 5) (some eve_tokens) refl

first_round : (t : Server) × (main_round round begun ≡ some t) × Inv t
unfolding has
first_round = main_round-Inv round begun (λ _. (12, refl, refl)) round-Fits (Reach-Inv begun-Reach)

Reach-Authorised_example : Authorised first_round.0
unfolding has
Reach-Authorised_example =
    Reach-Authorised (later begun-Reach (rounds round (λ _. (12, refl, refl)) first_round.1))
