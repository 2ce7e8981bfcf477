-- ===== src/Client/Lexer.antt =====
-- client/monitor.l: what diald writes as tokens.
pub mod Rules
pub mod Messages
pub mod Filled
use diald_top.Base.{
  ℕ, zero, suc, ◌-◌, Bool, true, false, ◌&&◌, ◌||◌, not, Option, none, some, List, [], ◌∷◌, ◌++◌,
  ◌==◌, leb, take, drop, codes,
}
use diald_top.Flex.{Regex, class, both, many, maybe, byte, literal, up_to_three, Rule, best}

-- The tokens, with the text that lex_string copies, or that atoi reads in lex_num.
pub data LexToken : Type 0 where
  state_word : LexToken
  interface_word : LexToken
  status_word : LexToken
  load_word : LexToken
  queue_word : LexToken
  endqueue_word : LexToken
  message_word : LexToken
  time : List ℕ → LexToken
  num : List ℕ → LexToken
  ip : List ℕ → LexToken
  port : List ℕ → LexToken
  string : List ℕ → LexToken
  newline : LexToken

-- The start conditions: INITIAL, and the two that are declared.
pub data Condition : Type 0 where
  initial : Condition
  pre_message : Condition
  in_message : Condition

abbrev is_from : ℕ → ℕ → ℕ → Bool
is_from a b c = leb a c && leb c b

abbrev digit : Regex
digit = class (is_from b'0' b'9')

abbrev two_digits : Regex
two_digits = both digit digit

abbrev pub time_regex : Regex
time_regex = both two_digits (both (byte b':') (both two_digits (both (byte b':') two_digits)))

abbrev pub number_regex : Regex
number_regex = both digit (many digit)

abbrev pub address_regex : Regex
address_regex = both (up_to_three digit) (
    both (byte b'.') (
      both (up_to_three digit)
        (both (byte b'.') (both (up_to_three digit) (both (byte b'.') (up_to_three digit))))))

abbrev pub port_regex : Regex
port_regex = both (byte b'/') (both (class (is_from b'1' b'9')) (many digit))

-- `NONDIGIT`, and `{NONDIGIT}{NOSLASH}*`
abbrev nondigit : Regex
nondigit = class (λ c. not (is_from b'0' b'9' c || c == b' ' || c == b'\n'))

abbrev word_regex : Regex
word_regex = both nondigit (many (class (λ c. not (c == b'/' || c == b' ' || c == b'\n'))))

abbrev pub string_regex : Regex
string_regex = both word_regex (many (both (byte b'/') (maybe word_regex)))

abbrev pub message_regex : Regex
message_regex = many (class (λ c. not (c == b'\n')))

-- What a rule does: it returns the token of its text, and goes to a start condition, or to none.
pub data LexAction : Type 0 where
  returns : (List ℕ → LexToken) → Option Condition → LexAction
  ignores : LexAction

abbrev pub word : List ℕ → LexToken → Rule LexAction
word text token = record {
  bol = true;
  regex = literal text;
  eol = false;
  action = returns (λ _. token) none;
}

abbrev pub texts : Regex → (List ℕ → LexToken) → Rule LexAction
texts r token = record { bol = false; regex = r; eol = false; action = returns token none }

abbrev pub newlines : Option Condition → Rule LexAction
newlines next = record {
  bol = false;
  regex = byte b'\n';
  eol = false;
  action = returns (λ _. newline) next;
}

-- PORT leaves the slash out.
abbrev pub port_token : List ℕ → LexToken
port_token text = port (drop 1 text)

-- The rules without a start condition, but for the last one.
abbrev pub plain_rules : List (Rule LexAction) → List (Rule LexAction)
plain_rules rest =
    word (codes "STATE") state_word
    ∷ word (codes "INTERFACE") interface_word
    ∷ word (codes "STATUS") status_word
    ∷ word (codes "LOAD") load_word
    ∷ word (codes "QUEUE") queue_word
    ∷ word (codes "END QUEUE") endqueue_word
    ∷ record {
      bol = true;
      regex = literal (codes "MESSAGE");
      eol = false;
      action = returns (λ _. message_word) (some pre_message);
    }
    ∷ texts time_regex time
    ∷ texts number_regex num
    ∷ texts address_regex ip
    ∷ texts port_regex port_token
    ∷ record { bol = false; regex = byte b' '; eol = false; action = ignores }
    ∷ texts string_regex string
    ∷ rest

abbrev pub message_rule : Rule LexAction
message_rule = record {
  bol = true;
  regex = message_regex;
  eol = true;
  action = returns string none;
}

-- The rules that are active: `pre_message` has the plain ones too, `in_message` has not.
unfoldable pub active : Condition → List (Rule LexAction)
active initial = plain_rules (newlines none ∷ [])
active pre_message = plain_rules (newlines (some in_message) ∷ newlines none ∷ [])
active in_message = message_rule ∷ newlines (some initial) ∷ []

-- The scanner between two tokens: the start condition, whether it is at the beginning of a line, and
-- what has come through the pipe and is not read yet.
pub record Lexer : Type 0 where
  pub condition : Condition
  pub at_bol : Bool
  pub input : List ℕ

-- A token of no text leaves the scanner at the beginning of the line.
abbrev pub bol_after : Bool → List ℕ → Bool
bol_after b [] = b
bol_after b (c ∷ cs) = bol_after (c == b'\n') cs

abbrev pub begin : Option Condition → Condition → Condition
begin none now = now
begin (some next) now = next

-- yylex, after so many bytes that are skipped; `none` at the end of the text. A byte that no rule takes
-- is echoed.
unfoldable pub yylex_from : Condition → (skip : ℕ) → Bool → List ℕ → Option (LexToken × Lexer)
unfolding active
yylex_from now skip bol [] = none
yylex_from now (suc skip) bol (c ∷ cs) = yylex_from now skip (c == b'\n') cs
yylex_from now zero bol (c ∷ cs) = elim (best (active now) bol (c ∷ cs)) [
  | none ↦ yylex_from now 0 (c == b'\n') cs
  | some m ↦ elim m.action [
    | ignores ↦ yylex_from now (m.taken - 1) (c == b'\n') cs
    | returns token next ↦ some (
      token (take m.taken (c ∷ cs)),
      record {
        condition = begin next now;
        at_bol = bol_after bol (take m.taken (c ∷ cs));
        input = drop m.taken (c ∷ cs);
      },
    )
  ]
]

abbrev pub yylex : Lexer → Option (LexToken × Lexer)
yylex l = yylex_from l.condition 0 l.at_bol l.input

-- So many calls.
unfoldable pub yylexes : ℕ → Lexer → Option (List LexToken × Lexer)
yylexes zero l = some ([], l)
yylexes (suc n) l = elim (yylex l) [
  | none ↦ none
  | some (token, after) ↦ elim (yylexes n after) [
    | none ↦ none
    | some (tokens, last) ↦ some (token ∷ tokens, last)
  ]
]
