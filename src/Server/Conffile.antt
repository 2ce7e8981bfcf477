-- ===== src/Server/Conffile.antt =====
-- server/conffile.l: the configuration file as tokens.
pub mod Rules
pub mod Reads
use diald_top.Base.{
  ℕ, zero, suc, ◌-◌, Bool, true, false, ◌&&◌, ◌||◌, not, if◌then◌else◌, Option, none, some, List,
  [], ◌∷◌, ◌++◌, ◌==◌, leb, take,
}
use diald_top.Flex.{Regex, class, both, many, byte, up_to_three, Rule, Match, best}
use diald_top.Server.Auth.{Token}

abbrev pub is_between : ℕ → ℕ → ℕ → Bool
is_between a b c = leb a c && leb c b

-- `[a-zA-z]`, `[a-zA-z0-9]`, `[0-9]` and `[ \t,]`
abbrev pub is_letter : ℕ → Bool
is_letter c = is_between b'a' b'z' c || is_between b'A' b'z' c

abbrev pub is_digit : ℕ → Bool
is_digit c = is_between b'0' b'9' c

abbrev pub is_ws : ℕ → Bool
is_ws c = c == b' ' || c == b'\t' || c == b','

abbrev pub userid_regex : Regex
userid_regex = both (class is_letter) (many (class (λ c. is_letter c || is_digit c)))

abbrev octet : Regex
octet = up_to_three (class is_digit)

abbrev pub ip_regex : Regex
ip_regex =
    both octet
      (both (byte b'.') (both octet (both (byte b'.') (both octet (both (byte b'.') octet)))))

abbrev pub comment_regex : Regex
comment_regex = both (byte b'#') (many (class (λ c. not (c == b'\n'))))

pub data Action : Type 0 where
  returns_userid : Action
  returns_ip : Action
  returns_newline : Action
  ignores : Action

abbrev rule : Regex → Action → Rule Action
rule r a = record { bol = false; regex = r; eol = false; action = a }

abbrev pub conf_rules : List (Rule Action)
conf_rules =
    rule userid_regex returns_userid
    ∷ rule ip_regex returns_ip
    ∷ record { bol = false; regex = comment_regex; eol = true; action = ignores }
    ∷ rule (class is_ws) ignores
    ∷ rule (byte b'\n') returns_newline
    ∷ []

-- The token of an action on this text; `pton` is what inet_pton leaves for a text.
abbrev pub act_on : (pton : List ℕ → ℕ) → Action → List ℕ → List Token → List Token
act_on pton returns_userid text rest = Token.userid text ∷ rest
act_on pton returns_ip text rest = Token.ip (pton text) ∷ rest
act_on pton returns_newline text rest = Token.newline ∷ rest
act_on pton ignores text rest = rest

-- The tokens of a file, after so many bytes that belong to the one before. A byte that no rule takes
-- is echoed.
unfoldable pub lex_conf : (pton : List ℕ → ℕ) → (skip : ℕ) → List ℕ → List Token
lex_conf pton skip [] = []
lex_conf pton (suc skip) (c ∷ cs) = lex_conf pton skip cs
lex_conf pton zero (c ∷ cs) = elim (best conf_rules false (c ∷ cs)) [
  | none ↦ lex_conf pton 0 cs
  | some m ↦ act_on pton m.action (take m.taken (c ∷ cs)) (lex_conf pton (m.taken - 1) cs)
]
