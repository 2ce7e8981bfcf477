-- ===== src/Client/Lexer/Rules.antt =====
-- Which rules of monitor.l take the parts of a message.
use diald_top.Base.{
  ℕ, suc, ◌≡◌, refl, arith, true, false, not, none, some, List, [], ◌∷◌, ◌++◌, ◌==◌, codes, length,
  All,
}
use diald_top.Flex.{Regex, byte, literal, best, match_rule}
use diald_top.Flex.Matches.{match_rule-at, match_rule-none, match_rule-class, matches-many}
use diald_top.Client.Lexer.{
  state_word, interface_word, status_word, load_word, queue_word, endqueue_word, message_word, time,
  num, ip, string, newline, initial, pre_message, in_message, time_regex, number_regex,
  address_regex, port_regex, string_regex, message_regex, LexAction, returns, ignores, port_token,
  active,
}

pub best_message :
    (rest : List ℕ)
    → best (active initial) true (codes "MESSAGE" ++ b'\n' ∷ rest)
      ≡ some
          (record { total = 7; taken = 7; action = returns (λ _. message_word) (some pre_message) })
unfolding best active
best_message rest =
    let text = codes "ESSAGE" ++ b'\n' ∷ rest in
    rw
      (
        match_rule-none (literal (codes "STATE")) true false _ true b'M' text refl refl,
        match_rule-none (literal (codes "INTERFACE")) true false _ true b'M' text refl refl,
        match_rule-none (literal (codes "STATUS")) true false _ true b'M' text refl refl,
        match_rule-none (literal (codes "LOAD")) true false _ true b'M' text refl refl,
        match_rule-none (literal (codes "QUEUE")) true false _ true b'M' text refl refl,
        match_rule-none (literal (codes "END QUEUE")) true false _ true b'M' text refl refl,
        match_rule-at (literal (codes "MESSAGE")) true false _ true (codes "MESSAGE") b'\n' rest
            refl refl refl refl,
        match_rule-none time_regex false false _ true b'M' text refl refl,
        match_rule-none number_regex false false _ true b'M' text refl refl,
        match_rule-none address_regex false false _ true b'M' text refl refl,
        match_rule-none port_regex false false _ true b'M' text refl refl,
        match_rule-none (byte b' ') false false _ true b'M' text refl refl,
        match_rule-at string_regex false false _ true (codes "MESSAGE") b'\n' rest refl refl refl
            refl,
        match_rule-none (byte b'\n') false false _ true b'M' text refl refl,
      )
      refl

not_at_bol :
    (r : Regex) (action : LexAction) (text : List ℕ)
    → match_rule (record { bol = true; regex = r; eol = false; action = action }) false text ≡ none
unfolding match_rule
not_at_bol r action text = refl

pub best_pre_newline :
    (rest : List ℕ)
    → best (active pre_message) false (b'\n' ∷ rest)
      ≡ some (record { total = 1; taken = 1; action = returns (λ _. newline) (some in_message) })
unfolding best active
best_pre_newline rest =
    rw
      (
        not_at_bol (literal (codes "STATE")) (returns (λ _. state_word) none) (b'\n' ∷ rest),
        not_at_bol (literal (codes "INTERFACE")) (returns (λ _. interface_word) none)
            (b'\n' ∷ rest),
        not_at_bol (literal (codes "STATUS")) (returns (λ _. status_word) none) (b'\n' ∷ rest),
        not_at_bol (literal (codes "LOAD")) (returns (λ _. load_word) none) (b'\n' ∷ rest),
        not_at_bol (literal (codes "QUEUE")) (returns (λ _. queue_word) none) (b'\n' ∷ rest),
        not_at_bol (literal (codes "END QUEUE")) (returns (λ _. endqueue_word) none) (b'\n' ∷ rest),
        not_at_bol (literal (codes "MESSAGE")) (returns (λ _. message_word) (some pre_message))
            (b'\n' ∷ rest),
        match_rule-none time_regex false false (returns time none) false b'\n' rest refl refl,
        match_rule-none number_regex false false (returns num none) false b'\n' rest refl refl,
        match_rule-none address_regex false false (returns ip none) false b'\n' rest refl refl,
        match_rule-none port_regex false false (returns port_token none) false b'\n' rest refl refl,
        match_rule-none (byte b' ') false false ignores false b'\n' rest refl refl,
        match_rule-none string_regex false false (returns string none) false b'\n' rest refl refl,
        match_rule-class (λ c. c == b'\n') (returns (λ _. newline) (some in_message)) false b'\n'
            rest refl,
        match_rule-class (λ c. c == b'\n') (returns (λ _. newline) none) false b'\n' rest refl,
      )
      refl

-- A text without a newline.
abbrev pub IsMessage : List ℕ → Type 0
IsMessage = All λ c. not (c == b'\n') ≡ true

pub best_text :
    (c : ℕ) (cs rest : List ℕ)
    → IsMessage (c ∷ cs)
    → best (active in_message) true (c ∷ (cs ++ b'\n' ∷ rest))
      ≡ some (record {
        total = suc (suc (length cs));
        taken = suc (length cs);
        action = returns string none;
      })
unfolding best active
best_text c cs rest h =
    let one_line = matches-many (λ c. not (c == b'\n')) (c ∷ cs) h in
    rw
      (
        match_rule-at message_regex true true _ true (c ∷ cs) b'\n' rest one_line refl refl refl,
        match_rule-none (byte b'\n') false false _ true c (cs ++ b'\n' ∷ rest) ground (arith, h.0)
            refl,
      )
      refl

-- The text before the newline may be empty, and this rule comes first.
pub best_empty :
    (rest : List ℕ)
    → best (active in_message) true (b'\n' ∷ rest)
      ≡ some (record { total = 1; taken = 0; action = returns string none })
unfolding best active
best_empty rest =
    rw
      (
        match_rule-at message_regex true true _ true [] b'\n' rest refl refl refl refl,
        match_rule-class (λ c. c == b'\n') (returns (λ _. newline) (some initial)) true b'\n' rest
            refl,
      )
      refl

pub best_end :
    (rest : List ℕ)
    → best (active in_message) false (b'\n' ∷ rest)
      ≡ some (record { total = 1; taken = 1; action = returns (λ _. newline) (some initial) })
unfolding best active match_rule
best_end rest =
    rw
      (match_rule-class (λ c. c == b'\n') (returns (λ _. newline) (some initial)) false b'\n' rest
        refl)
      refl
