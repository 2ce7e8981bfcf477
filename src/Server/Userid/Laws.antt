-- ===== src/Server/Userid/Laws.antt =====
-- What clean_userid and reap_userid cut out of a line.
use diald_top.Base.{
  ℕ, zero, suc, ◌≡◌, refl, ◌∙◌, ap, true, false, arith, ◌==◌, List, [], ◌∷◌, ◌++◌, All,
}
use mathlib.Core.List.{append-nil}
use diald_top.Server.Userid.{is_eol, until_eol, skip_spaces, clean_userid, skip_field, reap_userid}

-- No byte of the text ends a line.
abbrev pub IsOneLine : List ℕ → Type 0
IsOneLine = All λ c. is_eol c ≡ false

-- The text is empty or begins with another byte than a space.
abbrev pub IsTrimmed : List ℕ → Type 0
IsTrimmed [] = Unit
IsTrimmed (c ∷ cs) = (c == b' ') ≡ false

abbrev pub spaces : ℕ → List ℕ
spaces zero = []
spaces (suc n) = b' ' ∷ spaces n

until_eol-IsOneLine : (line : List ℕ) → IsOneLine (until_eol line)
unfolding until_eol
until_eol-IsOneLine [] = tt
until_eol-IsOneLine (c ∷ cs) = ground (arith, until_eol-IsOneLine cs)

skip_spaces-IsOneLine : (line : List ℕ) → IsOneLine line → IsOneLine (skip_spaces line)
unfolding skip_spaces
skip_spaces-IsOneLine [] h = tt
skip_spaces-IsOneLine (c ∷ cs) h = ground (arith, skip_spaces-IsOneLine cs h.1)

skip_spaces-IsTrimmed : (line : List ℕ) → IsTrimmed (skip_spaces line)
unfolding skip_spaces
skip_spaces-IsTrimmed [] = tt
skip_spaces-IsTrimmed (c ∷ cs) = ground (arith, skip_spaces-IsTrimmed cs)

until_eol-id :
    (line rest : List ℕ) → IsOneLine line → until_eol (line ++ rest) ≡ line ++ until_eol rest
unfolding until_eol
until_eol-id [] rest h = refl
until_eol-id (c ∷ cs) rest h = rw (h.0, until_eol-id cs rest h.1)

until_eol_id : (line : List ℕ) → IsOneLine line → until_eol line ≡ line
unfolding until_eol
until_eol_id [] h = refl
until_eol_id (c ∷ cs) h = rw (h.0, until_eol_id cs h.1)

skip_spaces_id : (line : List ℕ) → IsTrimmed line → skip_spaces line ≡ line
unfolding skip_spaces
skip_spaces_id [] h = refl
skip_spaces_id (c ∷ cs) h = rw h

skip_spaces-spaces : (n : ℕ) (line : List ℕ) → skip_spaces (spaces n ++ line) ≡ skip_spaces line
unfolding skip_spaces
skip_spaces-spaces zero line = refl
skip_spaces-spaces (suc n) line = skip_spaces-spaces n line

pub spaces-IsOneLine : (n : ℕ) → IsOneLine (spaces n)
spaces-IsOneLine zero = tt
spaces-IsOneLine (suc n) = (refl, spaces-IsOneLine n)

-- The text is empty or begins with the end of a line.
abbrev pub EndsLine : List ℕ → Type 0
EndsLine [] = Unit
EndsLine (c ∷ cs) = is_eol c ≡ true

until_eol-EndsLine : (rest : List ℕ) → EndsLine rest → until_eol rest ≡ []
unfolding until_eol
until_eol-EndsLine [] h = refl
until_eol-EndsLine (c ∷ cs) h = rw h

until_eol-line :
    (line rest : List ℕ) → IsOneLine line → EndsLine rest → until_eol (line ++ rest) ≡ line
until_eol-line line rest h e =
    until_eol-id line rest h ∙ (ap (λ r. line ++ r) (until_eol-EndsLine rest e) ∙ append-nil line)

pub All-append {ℓ} : (P : ℕ → Type ℓ) (xs ys : List ℕ) → All P xs → All P ys → All P (xs ++ ys)
All-append P [] ys a b = b
All-append P (x ∷ xs) ys a b = (a.0, All-append P xs ys a.1 b)

-- Of leading spaces, a text, and then the end of the line and whatever follows it, clean_userid
-- leaves the text, if that does not itself begin with a space or hold the end of a line.
clean_userid_lem :
    (n : ℕ) (body rest : List ℕ)
    → IsOneLine body
    → IsTrimmed body
    → EndsLine rest
    → clean_userid (spaces n ++ (body ++ rest)) ≡ body
unfolding clean_userid
clean_userid_lem n body rest one trimmed ends =
    ap skip_spaces (
      until_eol-id (spaces n) (body ++ rest) (spaces-IsOneLine n)
      ∙ ap (λ r. spaces n ++ r) (until_eol-line body rest one ends))
    ∙ (skip_spaces-spaces n body ∙ skip_spaces_id body trimmed)

-- Whatever the line, what clean_userid leaves is one line that does not begin with a space, and
-- clean_userid leaves it as it is.
clean_userid-clean :
    (line : List ℕ)
    → IsOneLine (clean_userid line)
      × IsTrimmed (clean_userid line)
      × (clean_userid (clean_userid line) ≡ clean_userid line)
unfolding clean_userid
clean_userid-clean line =
    let one = skip_spaces-IsOneLine (until_eol line) (until_eol-IsOneLine line) in
    let trimmed = skip_spaces-IsTrimmed (until_eol line) in
    (one, trimmed, ap skip_spaces (until_eol_id _ one) ∙ skip_spaces_id _ trimmed)

-- A field of the reply of identd: it holds no colon.
abbrev pub IsField : List ℕ → Type 0
IsField = All λ c. (c == b':') ≡ false

skip_field_lem : (field rest : List ℕ) → IsField field → skip_field (field ++ b':' ∷ rest) ≡ rest
unfolding skip_field
skip_field_lem [] rest h = refl
skip_field_lem (c ∷ cs) rest h = rw h.0 (skip_field_lem cs rest h.1)

-- From a reply of identd, three fields that each end in a colon, leading spaces, a user, and then
-- the end of the line and whatever follows it, reap_userid takes the user.
pub reap_userid_lem :
    (ports kind system : List ℕ) (n : ℕ) (user rest : List ℕ)
    → IsField ports
    → IsField kind
    → IsField system
    → IsOneLine user
    → IsTrimmed user
    → EndsLine rest
    → reap_userid (ports ++ b':' ∷ (kind ++ b':' ∷ (system ++ b':' ∷ (spaces n ++ (user ++ rest)))))
      ≡ user
unfolding reap_userid
reap_userid_lem ports kind system n user rest p k s one trimmed ends =
    rw (skip_field_lem ports _ p, skip_field_lem kind _ k, skip_field_lem system _ s)
      (rw (until_eol_id _ (until_eol-IsOneLine (spaces n ++ (user ++ rest))))
        (clean_userid_lem n user rest one trimmed ends))
