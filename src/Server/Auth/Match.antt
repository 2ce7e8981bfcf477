-- ===== src/Server/Auth/Match.antt =====
-- Who has full access: auth_check against the lines of the configuration file.
use diald_top.Base.{
  ℕ, ◌≡◌, refl, ◌↔◌, ◌⊎◌, inl, inr, ap, Bool, true, arith, Option, none, some, List, [], ◌∷◌, map,
  bit_and, tolower, strcaseeq,
}
use diald_top.Server.State.{AuthData}
use diald_top.Server.Auth.{Token, auth_add, auth_search, auth_check, more_lines, yyparse}

strcaseeq_sound : (s t : List ℕ) → strcaseeq s t ≡ true → map tolower s ≡ map tolower t
unfolding strcaseeq
strcaseeq_sound [] [] e = refl
strcaseeq_sound [] (d ∷ t) e = cc
strcaseeq_sound (c ∷ s) [] e = cc
strcaseeq_sound (c ∷ s) (d ∷ t) e = ground (arith, strcaseeq_sound s t)

strcaseeq_complete : (s t : List ℕ) → map tolower s ≡ map tolower t → strcaseeq s t ≡ true
unfolding strcaseeq
strcaseeq_complete [] [] e = refl
strcaseeq_complete [] (d ∷ t) e = cc
strcaseeq_complete (c ∷ s) [] e = cc
strcaseeq_complete (c ∷ s) (d ∷ t) e = ground (arith, strcaseeq_complete s t)

-- A line of the file; a blank one is `none`.
pub record Line : Type 0 where
  pub user : List ℕ
  pub addr : ℕ
  pub netmask : ℕ

abbrev pub tokens : List (Option Line) → List Token
tokens [] = []
tokens (none ∷ ls) = Token.newline ∷ tokens ls
tokens (some l ∷ ls) =
    Token.userid l.user ∷ Token.ip l.addr ∷ Token.ip l.netmask ∷ Token.newline ∷ tokens ls

-- A line is for this user, in any case, from this network.
abbrev pub Admits : Line → List ℕ → ℕ → Type 0
Admits l user ip =
    (map tolower l.user ≡ map tolower user) × (bit_and ip l.netmask ≡ bit_and l.addr l.netmask)

abbrev pub Admitted : List (Option Line) → List ℕ → ℕ → Type 0
Admitted [] user ip = ⊥
Admitted (none ∷ ls) user ip = Admitted ls user ip
Admitted (some l ∷ ls) user ip = Admits l user ip ⊎ Admitted ls user ip

entries : List (Option Line) → List AuthData → List AuthData
entries [] aq = aq
entries (none ∷ ls) aq = entries ls aq
entries (some l ∷ ls) aq = entries ls (auth_add l.user l.addr l.netmask aq)

more_lines-entries :
    (ls : List (Option Line)) (aq : List AuthData)
    → more_lines (tokens ls) aq ≡ some (entries ls aq)
unfolding more_lines entries
more_lines-entries [] aq = refl
more_lines-entries (none ∷ ls) aq = more_lines-entries ls aq
more_lines-entries (some l ∷ ls) aq = more_lines-entries ls _

auth_search-add :
    (l : Line) (aq : List AuthData) (user : List ℕ) (ip : ℕ)
    → (auth_search (auth_add l.user l.addr l.netmask aq) user ip ≡ true)
      ↔ (Admits l user ip ⊎ (auth_search aq user ip ≡ true))
unfolding auth_search auth_add
auth_search-add l aq user ip = (
  λ h. ground (arith, strcaseeq_sound l.user user),
  elim [ inl (a, b) ↦ ground (arith, strcaseeq_complete l.user user a, b) | inr h ↦ ground arith ],
)

auth_search-entries :
    (ls : List (Option Line)) (aq : List AuthData) (user : List ℕ) (ip : ℕ)
    → (auth_search (entries ls aq) user ip ≡ true)
      ↔ (Admitted ls user ip ⊎ (auth_search aq user ip ≡ true))
unfolding entries
auth_search-entries [] aq user ip = (inr, elim [ inl h ↦ absurd h | inr h ↦ h ])
auth_search-entries (none ∷ ls) aq user ip = auth_search-entries ls aq user ip
auth_search-entries (some l ∷ ls) aq user ip =
    let add = auth_search-add l aq user ip in
    let rest = auth_search-entries ls (auth_add l.user l.addr l.netmask aq) user ip in
    (
      λ h. elim (rest.0 h) [
        | inl p ↦ inl (inr p)
        | inr p ↦ elim (add.0 p) [ inl q ↦ inl (inl q) | inr q ↦ inr q ]
      ],
      elim [
        | inl (inl p) ↦ rest.1 (inr (add.1 (inl p)))
        | inl (inr p) ↦ rest.1 (inl p)
        | inr p ↦ rest.1 (inr (add.1 (inr p)))
      ],
    )

some-true : (b : Bool) → some b ≡ some true → b ≡ true
some-true b e = ground arith

-- A file of at least one line, each blank or with a user, an address and a netmask, is read to its
-- end. Then auth_check grants a user full access from an address exactly when some line has the
-- user's name, in upper or lower case, and the network of the address.
pub yyparse-Admitted :
    (l : Option Line) (ls : List (Option Line)) (user : List ℕ) (ip : ℕ)
    → (aq : List AuthData) × (yyparse (tokens (l ∷ ls)) [] ≡ some aq)
      × ((auth_check aq (some user) ip ≡ some true) ↔ Admitted (l ∷ ls) user ip)
unfolding yyparse auth_check
yyparse-Admitted l ls user ip = (entries (l ∷ ls) [], parsed l, exact)
  where
    parsed : (l : Option Line) → yyparse (tokens (l ∷ ls)) [] ≡ some (entries (l ∷ ls) [])
    parsed none = more_lines-entries (none ∷ ls) []
    parsed (some l) = more_lines-entries (some l ∷ ls) []

    nothing : auth_search [] user ip ≡ true → ⊥
    nothing p = cc

    exact :
        (auth_check (entries (l ∷ ls) []) (some user) ip ≡ some true) ↔ Admitted (l ∷ ls) user ip
    exact =
        let h = auth_search-entries (l ∷ ls) [] user ip in
        (
          λ e. elim (h.0 (some-true _ e)) [ inl p ↦ p | inr p ↦ absurd (nothing p) ],
          λ p. ap some (h.1 (inl p)),
        )
