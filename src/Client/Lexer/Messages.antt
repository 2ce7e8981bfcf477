-- ===== src/Client/Lexer/Messages.antt =====
-- How a message of diald is read, and what becomes of an empty one.
use diald_top.Base.{
  ℕ, zero, suc, ◌≡◌, refl, ap, ◌∙◌, arith, Bool, true, false, Option, none, some, List, [], ◌∷◌,
  ◌++◌, ◌==◌, take, drop, codes, length,
}
use diald_top.Flex.{best}
use diald_top.Flex.Matches.{take-append, drop-append}
use diald_top.Client.Lexer.{
  LexToken, message_word, string, newline, Condition, initial, pre_message, in_message, returns,
  active, Lexer, bol_after, begin, yylex_from, yylex, yylexes,
}
use diald_top.Client.Lexer.Rules.{
  IsMessage, best_message, best_pre_newline, best_text, best_empty, best_end,
}

abbrev pub at_line : Condition → List ℕ → Lexer
at_line condition input = record { condition = condition; at_bol = true; input = input }

-- Where the best rule returns a token of this text.
yylex-returns :
    (now : Condition) (bol : Bool) (c : ℕ) (cs rest text : List ℕ) (total : ℕ)
    (token : List ℕ → LexToken) (next : Option Condition)
    → c ∷ cs ≡ text ++ rest
    → best (active now) bol (c ∷ cs)
      ≡ some (record { total = total; taken = length text; action = returns token next })
    → yylex (record { condition = now; at_bol = bol; input = c ∷ cs })
      ≡ some (
        token text,
        record { condition = begin next now; at_bol = bol_after bol text; input = rest },
      )
unfolding yylex_from
yylex-returns now bol c cs rest text total token next e b =
    let took : take (length text) (c ∷ cs) ≡ text =
      ap (take (length text)) e ∙ take-append text rest in
    let left : drop (length text) (c ∷ cs) ≡ rest =
      ap (drop (length text)) e ∙ drop-append text rest in
    rw (b, took, left, yylex_from) refl

bol_after-message :
    (b : Bool) (c : ℕ) (cs : List ℕ) → IsMessage (c ∷ cs) → bol_after b (c ∷ cs) ≡ false
bol_after-message b c [] h = ground (arith, h.0)
bol_after-message b c (d ∷ cs) h = bol_after-message (c == b'\n') d cs h.1

yylex_message :
    (rest : List ℕ)
    → yylex (at_line initial (codes "MESSAGE\n" ++ rest))
      ≡ some
          (message_word, record { condition = pre_message; at_bol = false; input = b'\n' ∷ rest })
yylex_message rest =
    yylex-returns initial true b'M' _ (b'\n' ∷ rest) (codes "MESSAGE") 7 (λ _. message_word)
      (some pre_message) refl (best_message rest)

yylex_pre_newline :
    (rest : List ℕ)
    → yylex (record { condition = pre_message; at_bol = false; input = b'\n' ∷ rest })
      ≡ some (newline, at_line in_message rest)
yylex_pre_newline rest =
    yylex-returns pre_message false b'\n' rest rest (codes "\n") 1 (λ _. newline) (some in_message)
      refl (best_pre_newline rest)

yylex_text :
    (c : ℕ) (cs rest : List ℕ)
    → IsMessage (c ∷ cs)
    → yylex (at_line in_message (c ∷ (cs ++ b'\n' ∷ rest)))
      ≡ some
          (string (c ∷ cs), record { condition = in_message; at_bol = false; input = b'\n' ∷ rest })
yylex_text c cs rest h =
    yylex-returns in_message true c (cs ++ b'\n' ∷ rest) (b'\n' ∷ rest) (c ∷ cs) _ string none refl
      (best_text c cs rest h)
    ∙ ap
        (λ b.
          some
            (string (c ∷ cs), record { condition = in_message; at_bol = b; input = b'\n' ∷ rest }))
        (bol_after-message true c cs h)

yylex_end :
    (rest : List ℕ)
    → yylex (record { condition = in_message; at_bol = false; input = b'\n' ∷ rest })
      ≡ some (newline, at_line initial rest)
yylex_end rest =
    yylex-returns in_message false b'\n' rest rest (codes "\n") 1 (λ _. newline) (some initial) refl
      (best_end rest)

-- An empty line is a string, and stays.
yylex_empty :
    (rest : List ℕ)
    → yylex (at_line in_message (b'\n' ∷ rest))
      ≡ some (string [], at_line in_message (b'\n' ∷ rest))
yylex_empty rest =
    yylex-returns in_message true b'\n' rest (b'\n' ∷ rest) [] 1 string none refl (best_empty rest)

abbrev pub strings : ℕ → List LexToken
strings zero = []
strings (suc n) = string [] ∷ strings n

yylexes_empty :
    (n : ℕ) (rest : List ℕ)
    → yylexes n (at_line in_message (b'\n' ∷ rest))
      ≡ some (strings n, at_line in_message (b'\n' ∷ rest))
unfolding yylexes
yylexes_empty zero rest = refl
yylexes_empty (suc n) rest = rw (yylex_empty rest, yylexes_empty n rest, yylexes) refl

-- A message of diald with a text is read as its four tokens, and the scanner is where it was. But from a
-- message whose text is empty, yylex returns empty strings for ever and never comes to what follows.
pub yylexes_message :
    (c : ℕ) (cs rest : List ℕ) (n : ℕ)
    → IsMessage (c ∷ cs)
    → (yylexes 4 (at_line initial (codes "MESSAGE\n" ++ (c ∷ (cs ++ b'\n' ∷ rest))))
        ≡ some (message_word ∷ newline ∷ string (c ∷ cs) ∷ newline ∷ [], at_line initial rest))
      × (yylexes (suc (suc n)) (at_line initial (codes "MESSAGE\n" ++ b'\n' ∷ rest))
          ≡ some (message_word ∷ newline ∷ strings n, at_line in_message (b'\n' ∷ rest)))
unfolding yylexes
yylexes_message c cs rest n h = (
  rw
      (
        yylex_message (c ∷ (cs ++ b'\n' ∷ rest)),
        yylex_pre_newline (c ∷ (cs ++ b'\n' ∷ rest)),
        yylex_text c cs rest h,
        yylex_end rest,
        yylexes,
      )
      refl,
  rw (yylex_message (b'\n' ∷ rest), yylex_pre_newline (b'\n' ∷ rest), yylexes_empty n rest, yylexes)
      refl,
)
