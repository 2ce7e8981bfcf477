-- ===== src/Client/Startup/CommandLine.antt =====
-- What the options of the client come to.
use diald_top.Base.{
  ℕ, ◌==◌, ◌||◌, ◌&&◌, not, Bool, false, if◌then◌else◌, Option, none, some, List, [], ◌∷◌, ◌≡◌,
  refl, ap, ◌∙◌, subst, sym, ==_iff, Bool-cases, Option-cases, inl, inr,
}
use diald_top.Client.Startup.{
  Options, defaults, Outcome, goes_on, exits, option, options, read_command_line,
}

abbrev pub Opts : Type 0
Opts = List (ℕ × List ℕ)

-- Whether an option is there.
abbrev pub given : ℕ → Opts → Bool
given c [] = false
given c ((opt, optarg) ∷ opts) = (opt == c) || given c opts

abbrev pub or_else {ℓ} : {A : Type ℓ} → A → Option A → A
or_else a none = a
or_else a (some b) = b

-- The later one of two.
abbrev pub later {ℓ} : {A : Type ℓ} → Option A → Option A → Option A
later none b = b
later (some a) b = some (or_else a b)

later_some {ℓ} : {A : Type ℓ} (o : Option A) (a : A) → later o (some a) ≡ some a
later_some none a = refl
later_some (some b) a = refl

later_none {ℓ} : {A : Type ℓ} (o : Option A) → later o none ≡ o
later_none none = refl
later_none (some b) = refl

-- The argument of the last option of this letter.
abbrev pub last_of : ℕ → Opts → Option (List ℕ)
last_of c [] = none
last_of c ((opt, optarg) ∷ opts) = later (if opt == c then some optarg else none) (last_of c opts)

-- The letters that it takes.
abbrev pub known : ℕ → Bool
known c =
    (c == b'q') || ((c == b'n') || ((c == b'l') || ((c == b'c') || ((c == b'r') || (c == b'L')))))

-- The status that the first option with a fault makes the client exit with.
abbrev pub fault : (List ℕ → Bool) → Opts → Option ℕ
fault opens [] = none
fault opens ((opt, optarg) ∷ opts) =
    let rest = fault opens opts in
    if known opt then (if (opt == b'L') && not (opens optarg) then some 1 else rest) else some 2

-- The globals as the options say, each on its own.
abbrev pub says : Opts → Options → Options
says opts o = record {
  quit_if_parse_error = if given b'q' opts then 1 else o.quit_if_parse_error;
  numeric = if given b'n' opts then 1 else o.numeric;
  trunc_local_hosts = if given b'l' opts then 1 else o.trunc_local_hosts;
  control = or_else o.control (last_of b'c' opts);
  remoteip = later o.remoteip (last_of b'r' opts);
  logfile = later o.logfile (last_of b'L' opts);
}

abbrev pub outcome : Options → Option ℕ → Outcome Options
outcome o none = goes_on o
outcome o (some n) = exits n

-- What one option adds to what the later ones say.
module _ (opts : Opts) (optarg : List ℕ) (o : Options) where
  says_q : says opts (record o { quit_if_parse_error = 1 }) ≡ says ((b'q', optarg) ∷ opts) o
  says_q = elim (Bool-cases (given b'q' opts)) [ inl e ↦ rw e refl | inr e ↦ rw e refl ]

  says_n : says opts (record o { numeric = 1 }) ≡ says ((b'n', optarg) ∷ opts) o
  says_n = elim (Bool-cases (given b'n' opts)) [ inl e ↦ rw e refl | inr e ↦ rw e refl ]

  says_l : says opts (record o { trunc_local_hosts = 1 }) ≡ says ((b'l', optarg) ∷ opts) o
  says_l = elim (Bool-cases (given b'l' opts)) [ inl e ↦ rw e refl | inr e ↦ rw e refl ]

  says_c : says opts (record o { control = optarg }) ≡ says ((b'c', optarg) ∷ opts) o
  says_c = elim (Option-cases (last_of b'c' opts)) [ inl e ↦ rw e refl | inr (a, e) ↦ rw e refl ]

  says_r : says opts (record o { remoteip = some optarg }) ≡ says ((b'r', optarg) ∷ opts) o
  says_r = elim (Option-cases (last_of b'r' opts)) [
    | inl e ↦ rw (e, later_some o.remoteip optarg) refl
    | inr (a, e) ↦ rw (e, later_some o.remoteip a) refl
  ]

  says_log : says opts (record o { logfile = some optarg }) ≡ says ((b'L', optarg) ∷ opts) o
  says_log = elim (Option-cases (last_of b'L' opts)) [
    | inl e ↦ rw (e, later_some o.logfile optarg) refl
    | inr (a, e) ↦ rw (e, later_some o.logfile a) refl
  ]

-- A letter is one of those taken, or it is not.
letter_cases {ℓ} :
    (P : ℕ → Type ℓ) (c : ℕ)
    → P b'q'
    → P b'n'
    → P b'l'
    → P b'c'
    → P b'r'
    → P b'L'
    → ((c == b'q') ≡ false
        → (c == b'n') ≡ false
        → (c == b'l') ≡ false
        → (c == b'c') ≡ false
        → (c == b'r') ≡ false
        → (c == b'L') ≡ false
        → P c)
    → P c
letter_cases P c q n l control r log other = elim (Bool-cases (c == b'q')) [
  | inl e ↦ subst P (sym ((==_iff c b'q').0 e)) q
  | inr eq ↦ elim (Bool-cases (c == b'n')) [
    | inl e ↦ subst P (sym ((==_iff c b'n').0 e)) n
    | inr en ↦ elim (Bool-cases (c == b'l')) [
      | inl e ↦ subst P (sym ((==_iff c b'l').0 e)) l
      | inr el ↦ elim (Bool-cases (c == b'c')) [
        | inl e ↦ subst P (sym ((==_iff c b'c').0 e)) control
        | inr ec ↦ elim (Bool-cases (c == b'r')) [
          | inl e ↦ subst P (sym ((==_iff c b'r').0 e)) r
          | inr er ↦ elim (Bool-cases (c == b'L')) [
            | inl e ↦ subst P (sym ((==_iff c b'L').0 e)) log
            | inr eL ↦ other eq en el ec er eL
          ]
        ]
      ]
    ]
  ]
]

options_lem :
    (opens : List ℕ → Bool) (opts : Opts) (o : Options)
    → options opens opts o ≡ outcome (says opts o) (fault opens opts)
unfolding options option
options_lem opens [] o = rw (later_none o.remoteip, later_none o.logfile) refl
options_lem opens ((opt, optarg) ∷ opts) o =
    let then_says : (p q : Options)
        → says opts p ≡ q
        → options opens opts p ≡ outcome q (fault opens opts) =
      λ p q e. options_lem opens opts p ∙ ap (λ x. outcome x (fault opens opts)) e in
    letter_cases
      (λ c.
        options opens ((c, optarg) ∷ opts) o
        ≡ outcome (says ((c, optarg) ∷ opts) o) (fault opens ((c, optarg) ∷ opts)))
      opt (then_says _ _ (says_q opts optarg o)) (then_says _ _ (says_n opts optarg o))
      (then_says _ _ (says_l opts optarg o)) (then_says _ _ (says_c opts optarg o))
      (then_says _ _ (says_r opts optarg o))
      (elim (Bool-cases (opens optarg)) [
        | inl there ↦ rw (there, options, option) (then_says _ _ (says_log opts optarg o))
        | inr missing ↦ rw (missing, options, option) refl
      ])
      (λ q n l c r log. rw (q, n, l, c, r, log, options, option) refl)

-- The client exits with 2 at the first letter that it does not take and with 1 at the first log file
-- that it cannot open, whichever comes first; else each global is what the options say of it: set if
-- its letter is there, or the argument of the last of its letter.
pub read_command_line_lem :
    (control_fifo : List ℕ) (opens : List ℕ → Bool) (opts : Opts)
    → read_command_line control_fifo opens opts
      ≡ outcome (says opts (defaults control_fifo)) (fault opens opts)
unfolding read_command_line
read_command_line_lem control_fifo opens opts = options_lem opens opts (defaults control_fifo)
