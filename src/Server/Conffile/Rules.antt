-- ===== src/Server/Conffile/Rules.antt =====
-- Which rule of conffile.l takes a user, an address, a comment, white space, or a newline.
use diald_top.Base.{
  ℕ, suc, ◌≡◌, refl, arith, Bool, true, false, ◌||◌, Bool-cases, some, List, ◌∷◌, ◌++◌, ◌==◌,
  length, inl, inr,
}
use diald_top.Flex.{class, byte, after, matches, best}
use diald_top.Flex.Matches.{
  avoids, fails-matches, match_rule-matches, match_rule-none, match_rule-class,
}
use diald_top.Server.Conffile.{
  is_letter, is_digit, is_ws, userid_regex, ip_regex, comment_regex, returns_userid, returns_ip,
  returns_newline, ignores, conf_rules,
}

-- A byte that ends a user or an address.
abbrev pub stops : ℕ → Bool
stops c = is_ws c || c == b'\n'

stops-avoids :
    (c : ℕ) → stops c ≡ true → (avoids c userid_regex ≡ true) × (avoids c ip_regex ≡ true)
stops-avoids c h = (ground arith, ground arith)

first_letter : (x : ℕ) (xs : List ℕ) → matches userid_regex (x ∷ xs) ≡ true → is_letter x ≡ true
first_letter x xs m = elim (Bool-cases (is_letter x)) [
  | inl there ↦ there
  | inr other ↦
      let dead = fails-matches (after x userid_regex) xs ground arith in absurd (cc (dead, m))
]

first_digit : (x : ℕ) (xs : List ℕ) → matches ip_regex (x ∷ xs) ≡ true → is_digit x ≡ true
first_digit x xs m = elim (Bool-cases (is_digit x)) [
  | inl there ↦ there
  | inr other ↦ let dead = fails-matches (after x ip_regex) xs ground arith in absurd (cc (dead, m))
]

pub best_userid :
    (x : ℕ) (xs : List ℕ) (c : ℕ) (cs : List ℕ)
    → matches userid_regex (x ∷ xs) ≡ true
    → stops c ≡ true
    → best conf_rules false (x ∷ (xs ++ c ∷ cs))
      ≡ some (record { total = suc (length xs); taken = suc (length xs); action = returns_userid })
unfolding best
best_userid x xs c cs m h =
    let letter = first_letter x xs m in
    let text = xs ++ c ∷ cs in
    rw
      (
        match_rule-matches userid_regex false returns_userid false (x ∷ xs) c cs m
            (stops-avoids c h).0 refl,
        match_rule-none ip_regex false false returns_ip false x text ground arith refl,
        match_rule-none comment_regex false true ignores false x text ground arith refl,
        match_rule-none (class is_ws) false false ignores false x text ground arith refl,
        match_rule-none (byte b'\n') false false returns_newline false x text ground arith refl,
      )
      refl

pub best_ip :
    (x : ℕ) (xs : List ℕ) (c : ℕ) (cs : List ℕ)
    → matches ip_regex (x ∷ xs) ≡ true
    → stops c ≡ true
    → best conf_rules false (x ∷ (xs ++ c ∷ cs))
      ≡ some (record { total = suc (length xs); taken = suc (length xs); action = returns_ip })
unfolding best
best_ip x xs c cs m h =
    let digit = first_digit x xs m in
    let text = xs ++ c ∷ cs in
    rw
      (
        match_rule-none userid_regex false false returns_userid false x text ground arith refl,
        match_rule-matches ip_regex false returns_ip false (x ∷ xs) c cs m (stops-avoids c h).1
            refl,
        match_rule-none comment_regex false true ignores false x text ground arith refl,
        match_rule-none (class is_ws) false false ignores false x text ground arith refl,
        match_rule-none (byte b'\n') false false returns_newline false x text ground arith refl,
      )
      refl

pub best_comment :
    (text cs : List ℕ)
    → matches comment_regex (b'#' ∷ text) ≡ true
    → best conf_rules false (b'#' ∷ (text ++ b'\n' ∷ cs))
      ≡ some
          (record { total = suc (suc (length text)); taken = suc (length text); action = ignores })
unfolding best
best_comment text cs m =
    let rest = text ++ b'\n' ∷ cs in
    rw
      (
        match_rule-none userid_regex false false returns_userid false b'#' rest refl refl,
        match_rule-none ip_regex false false returns_ip false b'#' rest refl refl,
        match_rule-matches comment_regex true ignores false (b'#' ∷ text) b'\n' cs m refl refl,
        match_rule-none (class is_ws) false false ignores false b'#' rest refl refl,
        match_rule-none (byte b'\n') false false returns_newline false b'#' rest refl refl,
      )
      refl

pub best_ws :
    (c : ℕ) (cs : List ℕ)
    → is_ws c ≡ true
    → best conf_rules false (c ∷ cs) ≡ some (record { total = 1; taken = 1; action = ignores })
unfolding best
best_ws c cs h =
    rw
      (
        match_rule-none userid_regex false false returns_userid false c cs ground arith refl,
        match_rule-none ip_regex false false returns_ip false c cs ground arith refl,
        match_rule-none comment_regex false true ignores false c cs ground arith refl,
        match_rule-class is_ws ignores false c cs h,
        match_rule-none (byte b'\n') false false returns_newline false c cs ground arith refl,
      )
      refl

pub best_newline :
    (cs : List ℕ)
    → best conf_rules false (b'\n' ∷ cs)
      ≡ some (record { total = 1; taken = 1; action = returns_newline })
unfolding best
best_newline cs =
    rw
      (
        match_rule-none userid_regex false false returns_userid false b'\n' cs refl refl,
        match_rule-none ip_regex false false returns_ip false b'\n' cs refl refl,
        match_rule-none comment_regex false true ignores false b'\n' cs refl refl,
        match_rule-none (class is_ws) false false ignores false b'\n' cs refl refl,
        match_rule-class (λ c. c == b'\n') returns_newline false b'\n' cs refl,
      )
      refl
