-- ===== src/Flex.antt =====
-- The language of flex, in which server/conffile.l and client/monitor.l are written: regular
-- expressions, and rules of which the longest match is taken, and the first of those.
pub mod Matches
use diald_top.Base.{
  ℕ, zero, suc, ◌+◌, Bool, true, false, ◌&&◌, ◌||◌, if◌then◌else◌, Option, none, some, List, [],
  ◌∷◌, ltb, ◌==◌,
}

pub data Regex : Type 0 where
  never : Regex
  nil : Regex
  class : (ℕ → Bool) → Regex
  both : Regex → Regex → Regex
  either : Regex → Regex → Regex
  many : Regex → Regex

-- Whether the empty text matches.
abbrev pub nullable : Regex → Bool
nullable never = false
nullable nil = true
nullable (class f) = false
nullable (both r s) = nullable r && nullable s
nullable (either r s) = nullable r || nullable s
nullable (many r) = true

-- What has to follow this byte.
abbrev pub after : ℕ → Regex → Regex
after c never = never
after c nil = never
after c (class f) = if f c then nil else never
after c (both r s) =
    let first = both (after c r) s in
    let second = after c s in if nullable r then either first second else first
after c (either r s) = either (after c r) (after c s)
after c (many r) = both (after c r) (many r)

-- A text that is matched from its beginning to its end.
abbrev pub matches : Regex → List ℕ → Bool
matches r [] = nullable r
matches r (c ∷ cs) = matches (after c r) cs

-- A byte of the pattern's text: one of a literal, or of a range.
abbrev pub byte : ℕ → Regex
byte b = class (λ c. c == b)

abbrev pub literal : List ℕ → Regex
literal [] = nil
literal (c ∷ cs) = both (byte c) (literal cs)

-- `r?`, and `r{1,3}`
abbrev pub maybe : Regex → Regex
maybe r = either nil r

abbrev pub up_to_three : Regex → Regex
up_to_three r = both r (both (maybe r) (maybe r))

-- A rule with an action: with `^`, at the beginning of a line only, with `$`, before a newline only.
pub record Rule (A : Type 0) : Type 0 where
  pub bol : Bool
  pub regex : Regex
  pub eol : Bool
  pub action : A

abbrev starts_newline : List ℕ → Bool
starts_newline [] = false
starts_newline (c ∷ _) = c == b'\n'

-- The length of the longest prefix that matches, with `$` one before a newline.
abbrev pub longest : Regex → Bool → List ℕ → Option ℕ
longest r eol [] = if nullable r && (if eol then false else true) then some 0 else none
longest r eol (c ∷ cs) =
    let here = nullable r && (if eol then starts_newline (c ∷ cs) else true) in
    elim (longest (after c r) eol cs) [
      | some n ↦ some (suc n)
      | none ↦ if here then some 0 else none
    ]

-- A match: what it is long for the choice, in which `$` counts its newline, what is taken, and the
-- action.
pub record Match (A : Type 0) : Type 0 where
  pub total : ℕ
  pub taken : ℕ
  pub action : A

unfoldable pub match_rule : {A : Type 0} → Rule A → Bool → List ℕ → Option (Match A)
match_rule rule at_bol text =
    if (if rule.bol then at_bol else true)
    then elim (longest rule.regex rule.eol text) [
      | none ↦ none
      | some n ↦
          some (record { total = if rule.eol then suc n else n; taken = n; action = rule.action })
    ]
    else none

-- The longer one, or the first of two of the same length.
abbrev pub better : {A : Type 0} → Option (Match A) → Option (Match A) → Option (Match A)
better none m = m
better (some l) none = some l
better (some l) (some m) = if ltb l.total m.total then some m else some l

unfoldable pub best : {A : Type 0} → List (Rule A) → Bool → List ℕ → Option (Match A)
unfolding match_rule
best [] at_bol text = none
best (rule ∷ rules) at_bol text = better (match_rule rule at_bol text) (best rules at_bol text)
