-- ===== src/Server/Auth/Reload.antt =====
-- SIGHUP as a whole: reread_conf on the state of the server.
use diald_top.Base.{
  Option-cases, ℕ, suc, ◌≡◌, refl, ◌⊎◌, inl, inr, ap, ◌∙◌, sym, true, false, arith, Option, none,
  some, List, [], ◌∷◌, length, All,
}
use diald_top.Server.Ports.{Port}
use diald_top.Server.State.{AuthData, Event, Server}
use diald_top.Server.PortQueue.Queue.{has, monitors, Distinct}
use diald_top.Server.Invariant.{IsPlain, Inv}
use diald_top.Server.Auth.{Token, yyparse, read_conf, reauthenticate_users, reread_conf}
use diald_top.Server.Auth.Reauth.{anonymous, is_empty, AllRechecked, notices, reauth_loop_cases}

module _ (aq : List AuthData) where
  has-Rechecked : (i : ℕ) (ps qs : List Port) → AllRechecked aq ps qs → has i qs ≡ has i ps
  unfolding has
  has-Rechecked i [] [] h = refl
  has-Rechecked i [] (q ∷ qs) h = absurd h
  has-Rechecked i (p ∷ ps) [] h = absurd h
  has-Rechecked i (p ∷ ps) (q ∷ qs) (r, h) = ground (arith, r.fd, has-Rechecked i ps qs h)

  length-Rechecked : (ps qs : List Port) → AllRechecked aq ps qs → length qs ≡ length ps
  length-Rechecked [] [] h = refl
  length-Rechecked [] (q ∷ qs) h = absurd h
  length-Rechecked (p ∷ ps) [] h = absurd h
  length-Rechecked (p ∷ ps) (q ∷ qs) (r, h) = ap suc (length-Rechecked ps qs h)

  monitors-Rechecked : (ps qs : List Port) → AllRechecked aq ps qs → monitors qs ≡ monitors ps
  unfolding monitors
  monitors-Rechecked [] [] h = refl
  monitors-Rechecked [] (q ∷ qs) h = absurd h
  monitors-Rechecked (p ∷ ps) [] h = absurd h
  monitors-Rechecked (p ∷ ps) (q ∷ qs) (r, h) = rw (r.access.monitor, monitors-Rechecked ps qs h)

  Distinct-Rechecked : (ps qs : List Port) → AllRechecked aq ps qs → Distinct ps → Distinct qs
  Distinct-Rechecked [] [] h d = d
  Distinct-Rechecked [] (q ∷ qs) h d = absurd h
  Distinct-Rechecked (p ∷ ps) [] h d = absurd h
  Distinct-Rechecked (p ∷ ps) (q ∷ qs) (r, h) d =
      (has-Rechecked q.fd ps qs h ∙ (ap (λ i. has i ps) r.fd ∙ d.0), Distinct-Rechecked ps qs h d.1)

  IsPlain-Rechecked : (ps qs : List Port) → AllRechecked aq ps qs → All IsPlain qs
  IsPlain-Rechecked [] [] h = tt
  IsPlain-Rechecked [] (q ∷ qs) h = absurd h
  IsPlain-Rechecked (p ∷ ps) [] h = absurd h
  IsPlain-Rechecked (p ∷ ps) (q ∷ qs) (r, h) = (r.access.plain, IsPlain-Rechecked ps qs h)

  Rechecked-Inv :
      (s : Server) (qs : List Port) (trace : List Event)
      → Inv s
      → AllRechecked aq s.pq qs
      → Inv (record s { aq = aq; pq = qs; trace = trace })
  Rechecked-Inv s qs trace v h = record {
    distinct = Distinct-Rechecked s.pq qs h v.distinct;
    plain = IsPlain-Rechecked s.pq qs h;
    lists = record {
      full = λ i. v.lists.full i ∙ sym (has-Rechecked i s.pq qs h);
      fullcount = ground (arith, v.lists.fullcount, length-Rechecked s.pq qs h);
      top = v.lists.top;
    };
    counted = ground (arith, v.counted, monitors-Rechecked s.pq qs h);
    pipe = v.pipe;
    listening = v.listening;
  }

-- What reread_conf has made of the server when it has returned.
pub record Reloaded (aq : List AuthData) (s t : Server) : Type 0 where
  pub users : t.aq ≡ aq
  pub clients : AllRechecked aq s.pq t.pq
  pub told : t.trace ≡ notices aq s.pq s.trace
  pub inv : Inv t

-- When the file has been read, or is not there, and the log lines are left aside, reread_conf hands a NULL
-- user to strcasecmp, and does not return, exactly when the file has a user and some client's user is
-- not known. Otherwise the new users replace the old ones, every client is told
-- and has the read flag, and the write flag as auth_check says, and keeps all else, its monitor
-- flag included; and the invariant holds.
pub reread_conf_lem :
    (file : Option (List Token)) (aq : List AuthData) (s : Server)
    → read_conf file (record s { aq = [] }) ≡ some (record s { aq = aq })
    → Inv s
    → ((reread_conf file s ≡ none) × (anonymous s.pq ≡ true) × (is_empty aq ≡ false))
      ⊎ ((t : Server) × (reread_conf file s ≡ some t)
          × Reloaded aq s t
          × ((anonymous s.pq ≡ false) ⊎ (is_empty aq ≡ true)))
unfolding reread_conf reauthenticate_users
reread_conf_lem file aq s e v = elim (reauth_loop_cases aq s.pq s.trace v.plain) [
  | inl (fault, unknown, filled) ↦ inl (ground arith, unknown, filled)
  | inr (qs, run, checked, reason) ↦ inr (
    record s { aq = aq; pq = qs; trace = notices aq s.pq s.trace },
    ground arith,
    record {
      users = refl;
      clients = checked;
      told = refl;
      inv = Rechecked-Inv aq s qs _ v checked;
    },
    reason,
  )
]

-- The file is read to its end, or the server exits.
pub read_conf_cases :
    (file : Option (List Token)) (s : Server)
    → (read_conf file s ≡ none)
      ⊎ ((aq : List AuthData) × (read_conf file s ≡ some (record s { aq = aq })))
unfolding read_conf
read_conf_cases none s = inr (s.aq, refl)
read_conf_cases (some file) s = elim (Option-cases (yyparse file s.aq)) [
  | inl e ↦ inl (rw (e, read_conf))
  | inr (aq, e) ↦ inr (aq, ground arith)
]

pub reread_conf_exits :
    (file : Option (List Token)) (s : Server)
    → read_conf file (record s { aq = [] }) ≡ none
    → reread_conf file s ≡ none
unfolding reread_conf
reread_conf_exits file s exits = rw (exits, reread_conf) refl
