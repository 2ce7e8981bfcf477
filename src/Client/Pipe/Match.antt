-- ===== src/Client/Pipe/Match.antt =====
-- Which command a line stands for.
use diald_top.Base.{
  ℕ, ◌≡◌, refl, ap, ◌∙◌, sym, subst, Bool, true, false, not, ◌&&◌, ◌||◌, ◌⊎◌, inl, inr, arith,
  Bool-cases, none, some, List, [], ◌∷◌, ◌++◌, All, codes, tolower, isspace, strncaseeq,
}
use diald_top.Client.Pipe.{cmd, strstrip, begins, find_command, validate_command, fifo_command}

strstrip-strstrip : (line : List ℕ) → strstrip (strstrip line) ≡ strstrip line
unfolding strstrip
strstrip-strstrip [] = refl
strstrip-strstrip (c ∷ cs) = elim (Bool-cases (isspace c)) [
  | inl e ↦ ground arith
  | inr e ↦ ground (arith, strstrip-strstrip cs)
]

-- Neither of two names begins with the other, whatever the case of their letters.
abbrev pub differ : List ℕ → List ℕ → Bool
differ a b = not (begins a b || begins b a)

abbrev all_differ : List ℕ → List (List ℕ) → Bool
all_differ a [] = true
all_differ a (b ∷ bs) = differ a b && all_differ a bs

abbrev distinct : List (List ℕ) → Bool
distinct [] = true
distinct (a ∷ names) = all_differ a names && distinct names

cmd_distinct : distinct cmd ≡ true
unfolding strncaseeq tolower
cmd_distinct = refl

-- Two names that begin the same line: one begins the other.
both_begin :
    (a b line : List ℕ)
    → begins a line ≡ true
    → begins b line ≡ true
    → (begins a b || begins b a) ≡ true
unfolding strncaseeq
both_begin [] b line p q = refl
both_begin (c ∷ cs) [] line p q = ground arith
both_begin (c ∷ cs) (d ∷ ds) [] p q = ground arith
both_begin (c ∷ cs) (d ∷ ds) (e ∷ line) p q =
    let rest = both_begin cs ds line ground arith ground arith in ground (arith, rest)

abbrev pub Among : List ℕ → List (List ℕ) → Type 0
Among a [] = ⊥
Among a (b ∷ bs) = (a ≡ b) ⊎ Among a bs

all_differ-Among :
    (a b : List ℕ) (names : List (List ℕ))
    → Among b names
    → all_differ a names ≡ true
    → differ a b ≡ true
all_differ-Among a b [] m d = absurd m
all_differ-Among a b (x ∷ names) (inl e) d = rw e ground arith
all_differ-Among a b (x ∷ names) (inr m) d = all_differ-Among a b names m ground arith

-- A name of the table that begins the line is the one that the loop finds.
find_begun :
    (name : List ℕ) (names : List (List ℕ)) (line : List ℕ)
    → distinct names ≡ true
    → Among name names
    → begins name (strstrip line) ≡ true
    → find_command names line ≡ some name
unfolding find_command
find_begun name [] line d m b = absurd m
find_begun name (x ∷ names) line d (inl e) b = ground arith
find_begun name (x ∷ names) line d (inr m) b =
    let later =
      find_begun name names (strstrip line) ground arith m
        (ap (begins name) (strstrip-strstrip line) ∙ b) in
    let apart = all_differ-Among x name names m ground arith in
    let both = both_begin x name (strstrip line) in
    elim (Bool-cases (begins x (strstrip line))) [
      | inl e ↦ ground (arith, both e b)
      | inr e ↦ ground arith
    ]

none-begins :
    (names : List (List ℕ)) (line : List ℕ)
    → ((name : List ℕ) × Among name names × (begins name (strstrip line) ≡ true))
      ⊎ (All (λ name. begins name (strstrip line) ≡ false) names × (find_command names line ≡ none))
unfolding find_command
none-begins [] line = inr (tt, refl)
none-begins (x ∷ names) line = elim (Bool-cases (begins x (strstrip line))) [
  | inl e ↦ inl (x, inl refl, e)
  | inr e ↦ elim (none-begins names (strstrip line)) [
    | inl (name, m, b) ↦ inl (name, inr m, sym (ap (begins name) (strstrip-strstrip line)) ∙ b)
    | inr (all, missed) ↦ inr (
      (e, subst (λ z. All (λ name. begins name z ≡ false) names) (strstrip-strstrip line) all),
      ground arith,
    )
  ]
]

All-Among :
    (P : List ℕ → Type 0) {name : List ℕ} (names : List (List ℕ))
    → All P names
    → Among name names
    → P name
All-Among P [] all m = absurd m
All-Among P (x ∷ names) all (inl e) = subst P (sym e) all.0
All-Among P (x ∷ names) all (inr m) = All-Among P names all.1 m

abbrev IsSent : List ℕ → Type 0
IsSent name = fifo_command name ≡ (0, (name ++ codes "\n") ∷ [])

all_sent : All IsSent cmd
unfolding fifo_command
all_sent = (refl, (refl, (refl, (refl, (refl, (refl, (refl, (refl, (refl, tt)))))))))

-- When a name of the table begins the first word of the line, in whatever case, validate_command
-- leaves that name; it is the only one that does.
validate_command_lem :
    (name line : List ℕ)
    → Among name cmd
    → begins name (strstrip line) ≡ true
    → validate_command line ≡ name
unfolding validate_command
validate_command_lem name line m b = ground (arith, find_begun name cmd line cmd_distinct m b)

-- A line from the keyboard either begins with one of the names of the table, and then that name
-- and a newline are all that goes to diald, or none of them begins it, and then nothing is written.
pub fifo_command-validate_command :
    (line : List ℕ)
    → ((name : List ℕ) × Among name cmd
        × (begins name (strstrip line) ≡ true)
        × (fifo_command (validate_command line) ≡ (0, (name ++ codes "\n") ∷ [])))
      ⊎ (All (λ name. begins name (strstrip line) ≡ false) cmd
          × (fifo_command (validate_command line) ≡ (1, [])))
unfolding fifo_command validate_command
fifo_command-validate_command line = elim (none-begins cmd line) [
  | inl (name, m, b) ↦ inl (
    name,
    m,
    b,
    ap fifo_command (validate_command_lem name line m b) ∙ All-Among IsSent cmd all_sent m,
  )
  | inr (all, missed) ↦ inr (all, ground arith)
]
