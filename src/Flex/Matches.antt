-- ===== src/Flex/Matches.antt =====
-- Which text a rule takes.
use diald_top.Base.{
  ap, ◌∙◌, All, take, drop, ℕ, suc, ◌≡◌, refl, arith, Bool, true, false, ◌&&◌, ◌||◌, not,
  if◌then◌else◌, Bool-cases, none, some, List, [], ◌∷◌, ◌++◌, ◌==◌, length, inl, inr,
}
use diald_top.Flex.{
  Regex, never, nil, class, both, either, many, nullable, after, matches, longest, match_rule,
}

-- Nothing matches.
abbrev pub fails : Regex → Bool
fails never = true
fails nil = false
fails (class f) = false
fails (both r s) = fails r || fails s
fails (either r s) = fails r && fails s
fails (many r) = false

-- The byte is in no class.
abbrev pub avoids : ℕ → Regex → Bool
avoids c never = true
avoids c nil = true
avoids c (class f) = not (f c)
avoids c (both r s) = avoids c r && avoids c s
avoids c (either r s) = avoids c r && avoids c s
avoids c (many r) = avoids c r

fails-nullable : (r : Regex) → fails r ≡ true → nullable r ≡ false
fails-nullable never h = refl
fails-nullable nil h = absurd (cc h)
fails-nullable (class f) h = absurd (cc h)
fails-nullable (many r) h = absurd (cc h)
fails-nullable (both r s) h = ground (arith, fails-nullable r, fails-nullable s)
fails-nullable (either r s) h = ground (arith, fails-nullable r, fails-nullable s)

fails-after : (c : ℕ) (r : Regex) → fails r ≡ true → fails (after c r) ≡ true
fails-after c never h = refl
fails-after c nil h = absurd (cc h)
fails-after c (class f) h = absurd (cc h)
fails-after c (many r) h = absurd (cc h)
fails-after c (both r s) h = ground (arith, fails-nullable r, fails-after c r, fails-after c s)
fails-after c (either r s) h = ground (arith, fails-after c r, fails-after c s)

pub fails-matches : (r : Regex) (text : List ℕ) → fails r ≡ true → matches r text ≡ false
fails-matches r [] h = fails-nullable r h
fails-matches r (c ∷ cs) h = fails-matches (after c r) cs (fails-after c r h)

fails-longest : (r : Regex) (eol : Bool) (cs : List ℕ) → fails r ≡ true → longest r eol cs ≡ none
fails-longest r eol [] h = rw (fails-nullable r h) refl
fails-longest r eol (c ∷ cs) h =
    rw (fails-longest (after c r) eol cs (fails-after c r h), fails-nullable r h) refl

avoids-after : (c d : ℕ) (r : Regex) → avoids c r ≡ true → avoids c (after d r) ≡ true
avoids-after c d never h = refl
avoids-after c d nil h = refl
avoids-after c d (class f) h = ground arith
avoids-after c d (both r s) h = ground (arith, avoids-after c d r, avoids-after c d s)
avoids-after c d (either r s) h = ground (arith, avoids-after c d r, avoids-after c d s)
avoids-after c d (many r) h = ground (arith, avoids-after c d r)

avoids-fails : (c : ℕ) (r : Regex) → avoids c r ≡ true → fails (after c r) ≡ true
avoids-fails c never h = refl
avoids-fails c nil h = refl
avoids-fails c (class f) h = ground arith
avoids-fails c (both r s) h = ground (arith, avoids-fails c r, avoids-fails c s)
avoids-fails c (either r s) h = ground (arith, avoids-fails c r, avoids-fails c s)
avoids-fails c (many r) h = ground (arith, avoids-fails c r)

-- A text that matches is the longest match, up to a byte that the pattern has nowhere; with `$`, up to a
-- newline.
longest-matches :
    (r : Regex) (eol : Bool) (text : List ℕ) (c : ℕ) (cs : List ℕ)
    → matches r text ≡ true
    → avoids c r ≡ true
    → (if eol then c == b'\n' else true) ≡ true
    → longest r eol (text ++ c ∷ cs) ≡ some (length text)
longest-matches r eol [] c cs m a e =
    rw (fails-longest (after c r) eol cs (avoids-fails c r a)) (ground (arith, m, e))
longest-matches r eol (d ∷ text) c cs m a e =
    rw (longest-matches (after d r) eol text c cs m (avoids-after c d r a) e) refl

-- A pattern that cannot start with this byte, and does not match the empty text.
longest-none :
    (r : Regex) (eol : Bool) (c : ℕ) (cs : List ℕ)
    → fails (after c r) ≡ true
    → nullable r ≡ false
    → longest r eol (c ∷ cs) ≡ none
longest-none r eol c cs h k = rw (fails-longest (after c r) eol cs h, k) refl

-- The same for a rule, where its `^` is at the beginning of a line.
pub match_rule-at :
    {A : Type 0} (r : Regex) (bol eol : Bool) (action : A) (b : Bool) (text : List ℕ) (c : ℕ)
    (cs : List ℕ)
    → matches r text ≡ true
    → avoids c r ≡ true
    → (if bol then b else true) ≡ true
    → (if eol then c == b'\n' else true) ≡ true
    → match_rule (record { bol = bol; regex = r; eol = eol; action = action }) b (text ++ c ∷ cs)
      ≡ some (record {
        total = if eol then suc (length text) else length text;
        taken = length text;
        action = action;
      })
unfolding match_rule
match_rule-at r bol eol action b text c cs m a e k =
    rw (e, longest-matches r eol text c cs m a k) refl

-- A rule without `^`.
pub match_rule-matches :
    {A : Type 0} (r : Regex) (eol : Bool) (action : A) (b : Bool) (text : List ℕ) (c : ℕ)
    (cs : List ℕ)
    → matches r text ≡ true
    → avoids c r ≡ true
    → (if eol then c == b'\n' else true) ≡ true
    → match_rule (record { bol = false; regex = r; eol = eol; action = action }) b (text ++ c ∷ cs)
      ≡ some (record {
        total = if eol then suc (length text) else length text;
        taken = length text;
        action = action;
      })
match_rule-matches r eol action b text c cs m a k =
    match_rule-at r false eol action b text c cs m a refl k

pub match_rule-none :
    {A : Type 0} (r : Regex) (bol eol : Bool) (action : A) (b : Bool) (c : ℕ) (cs : List ℕ)
    → fails (after c r) ≡ true
    → nullable r ≡ false
    → match_rule (record { bol = bol; regex = r; eol = eol; action = action }) b (c ∷ cs) ≡ none
unfolding match_rule
match_rule-none r bol eol action b c cs h k =
    rw (longest-none r eol c cs h k)
      (elim (Bool-cases (if bol then b else true)) [ inl e ↦ rw e refl | inr e ↦ rw e refl ])

longest_nil : (cs : List ℕ) → longest nil false cs ≡ some 0
longest_nil [] = refl
longest_nil (d ∷ cs) = rw (fails-longest never false cs refl) refl

-- A rule of one class.
pub match_rule-class :
    {A : Type 0} (f : ℕ → Bool) (action : A) (b : Bool) (c : ℕ) (cs : List ℕ)
    → f c ≡ true
    → match_rule (record { bol = false; regex = class f; eol = false; action = action }) b (c ∷ cs)
      ≡ some (record { total = 1; taken = 1; action = action })
unfolding match_rule
match_rule-class f action b c cs h = rw (h, longest_nil cs) refl

matches-either :
    (r s : Regex) (text : List ℕ) → matches (either r s) text ≡ (matches r text || matches s text)
matches-either r s [] = refl
matches-either r s (c ∷ cs) = matches-either (after c r) (after c s) cs

matches-nil : (r : Regex) (text : List ℕ) → matches (both nil r) text ≡ matches r text
matches-nil r [] = refl
matches-nil r (c ∷ cs) =
    matches-either (both never r) (after c r) cs
    ∙ ap (λ b. b || matches (after c r) cs) (fails-matches (both never r) cs refl)

-- Any number of bytes of a class.
pub matches-many :
    (f : ℕ → Bool) (text : List ℕ)
    → All (λ c. f c ≡ true) text
    → matches (many (class f)) text ≡ true
matches-many f [] h = refl
matches-many f (c ∷ cs) h = rw h.0 (matches-nil (many (class f)) cs ∙ matches-many f cs h.1)

pub take-append : (xs ys : List ℕ) → take (length xs) (xs ++ ys) ≡ xs
take-append [] ys = refl
take-append (x ∷ xs) ys = ap (λ t. x ∷ t) (take-append xs ys)

pub drop-append : (xs ys : List ℕ) → drop (length xs) (xs ++ ys) ≡ ys
drop-append [] ys = refl
drop-append (x ∷ xs) ys = drop-append xs ys
