-- ===== src/Server/Auth/Reauth.antt =====
-- SIGHUP: the clients after the configuration has been read again.
use diald_top.Base.{
  ◌≡◌, refl, ◌⊎◌, inl, inr, Bool, true, false, ◌||◌, arith, Bool-cases, if◌then◌else◌, Option-cases,
  none, some, List, [], ◌∷◌, All,
}
use diald_top.Server.Ports.{CString, Port, flag_read, flag_write, raise}
use diald_top.Server.Ports.Flags.{without_access, Granted, full-Granted, read-Granted}
use diald_top.Server.State.{AuthData, Event}
use diald_top.Server.Invariant.{IsPlain}
use diald_top.Server.Auth.{auth_search, full_text, ro_text, reauthenticate, reauth_loop}

-- A client whose user was never found out.
abbrev pub is_anonymous : Port → Bool
is_anonymous p = elim p.userid [ none ↦ true | some u ↦ false ]

unfoldable pub anonymous : List Port → Bool
anonymous [] = false
anonymous (p ∷ ps) = is_anonymous p || anonymous ps

abbrev pub is_empty : List AuthData → Bool
is_empty [] = true
is_empty (a ∷ aq) = false

-- The user may write, by the configuration.
abbrev pub may_write : List AuthData → Port → Bool
may_write aq p = elim p.userid [ none ↦ false | some u ↦ auth_search aq u.text p.sa.addr ]

-- `q` is the client `p` after the configuration is read again.
pub record Rechecked (aq : List AuthData) (p q : Port) : Type 0 where
  pub fd : q.fd ≡ p.fd
  pub addr : q.sa ≡ p.sa
  pub userid : q.userid ≡ p.userid
  pub access : Granted (may_write aq p) p.flag q.flag

abbrev pub AllRechecked : List AuthData → List Port → List Port → Type 0
AllRechecked aq [] [] = Unit
AllRechecked aq [] (q ∷ qs) = ⊥
AllRechecked aq (p ∷ ps) [] = ⊥
AllRechecked aq (p ∷ ps) (q ∷ qs) = Rechecked aq p q × AllRechecked aq ps qs

-- What the client is told.
abbrev pub notice : List AuthData → Port → Event
notice aq p = Event.writes (some p.fd) (if may_write aq p then full_text else ro_text)

-- The outcome for one client.
abbrev Outcome : List AuthData → Port → Type 0
Outcome aq p =
    ((reauthenticate aq p ≡ none) × (is_anonymous p ≡ true) × (is_empty aq ≡ false))
    ⊎ ((q : Port) × (reauthenticate aq p ≡ some (q, notice aq p))
        × Rechecked aq p q
        × ((is_anonymous p ≡ false) ⊎ (is_empty aq ≡ true)))

reauthenticate_known :
    (aq : List AuthData) (p : Port) (u : CString) → IsPlain p → p.userid ≡ some u → Outcome aq p
unfolding reauthenticate
reauthenticate_known aq p u plain e = elim (Bool-cases (auth_search aq u.text p.sa.addr)) [
  | inl full ↦ inr (
    record p { flag = raise (without_access p.flag) (raise flag_read flag_write) },
    ground arith,
    record {
      fd = refl;
      addr = refl;
      userid = refl;
      access = rw (e, full) (full-Granted p.flag plain);
    },
    inl (rw e),
  )
  | inr ro ↦ inr (
    record p { flag = raise (without_access p.flag) flag_read },
    ground arith,
    record {
      fd = refl;
      addr = refl;
      userid = refl;
      access = rw (e, ro) (read-Granted p.flag plain);
    },
    inl (rw e),
  )
]

reauthenticate_unknown :
    (aq : List AuthData) (p : Port) → IsPlain p → p.userid ≡ none → Outcome aq p
unfolding reauthenticate
reauthenticate_unknown (a ∷ aq) p plain e = inl (rw e, rw e, refl)
reauthenticate_unknown [] p plain e = inr (
  record p { flag = raise (without_access p.flag) flag_read },
  rw e,
  record { fd = refl; addr = refl; userid = refl; access = rw e (read-Granted p.flag plain) },
  inr refl,
)

reauthenticate_cases : (aq : List AuthData) (p : Port) → IsPlain p → Outcome aq p
reauthenticate_cases aq p plain = elim (Option-cases p.userid) [
  | inl e ↦ reauthenticate_unknown aq p plain e
  | inr (u, e) ↦ reauthenticate_known aq p u plain e
]

-- The notices, latest first, before an earlier trace.
abbrev pub notices : List AuthData → List Port → List Event → List Event
notices aq [] trace = trace
notices aq (p ∷ ps) trace = notices aq ps (notice aq p ∷ trace)

abbrev pub LoopOutcome : List AuthData → List Port → List Event → Type 0
LoopOutcome aq ps trace =
    ((reauth_loop aq ps trace ≡ none) × (anonymous ps ≡ true) × (is_empty aq ≡ false))
    ⊎ ((qs : List Port) × (reauth_loop aq ps trace ≡ some (qs, notices aq ps trace))
        × AllRechecked aq ps qs
        × ((anonymous ps ≡ false) ⊎ (is_empty aq ≡ true)))

pub reauth_loop_cases :
    (aq : List AuthData) (ps : List Port) (trace : List Event)
    → All IsPlain ps
    → LoopOutcome aq ps trace
unfolding reauth_loop anonymous
reauth_loop_cases aq [] trace plain = inr ([], refl, tt, inl refl)
reauth_loop_cases aq (p ∷ ps) trace plain = elim (reauthenticate_cases aq p plain.0) [
  | inl (fault, unknown, filled) ↦ inl (ground arith, ground arith, filled)
  | inr (q, run, checked, reason) ↦ elim (reauth_loop_cases aq ps (notice aq p ∷ trace) plain.1) [
    | inl (fault, unknown, filled) ↦ inl (ground arith, ground arith, filled)
    | inr (qs, rest, all, reasons) ↦ inr (q ∷ qs, ground arith, (checked, all), ground arith)
  ]
]
