-- ===== src/Server/Conffile/Reads.antt =====
-- From the text of the configuration file to who has full access.
use diald_top.Base.{
  ℕ, suc, ◌-◌, ◌≡◌, refl, ap, ◌∙◌, ◌↔◌, arith, true, false, Option, none, some, List, [], ◌∷◌, ◌++◌,
  map, length, All,
}
use diald_top.Flex.{matches, best}
use diald_top.Flex.Matches.{take-append}
use diald_top.Server.State.{Server, AuthData}
use diald_top.Server.Auth.{Token, auth_check, read_conf}
use diald_top.Server.Auth.Match.{Line, tokens, Admitted, yyparse-Admitted}
use diald_top.Server.Conffile.{
  is_ws, userid_regex, ip_regex, comment_regex, Action, conf_rules, act_on, lex_conf,
}
use diald_top.Server.Conffile.Rules.{
  stops, best_userid, best_ip, best_comment, best_ws, best_newline,
}

-- A line of the file: a comment, white space only, or a user, an address and a netmask, with white space
-- between them and after them.
pub data ConfLine : Type 0 where
  remark : List ℕ → ConfLine
  blank : List ℕ → ConfLine
  grants : (user gap addr space netmask end : List ℕ) → ConfLine

abbrev pub print_line : ConfLine → List ℕ → List ℕ
print_line (remark text) rest = b'#' ∷ (text ++ b'\n' ∷ rest)
print_line (blank end) rest = end ++ b'\n' ∷ rest
print_line (grants user gap addr space netmask end) rest =
    user ++ (gap ++ (addr ++ (space ++ (netmask ++ (end ++ b'\n' ∷ rest)))))

abbrev pub conf_text : List ConfLine → List ℕ
conf_text [] = []
conf_text (l ∷ ls) = print_line l (conf_text ls)

abbrev pub IsGap : List ℕ → Type 0
IsGap = All λ c. is_ws c ≡ true

abbrev pub IsSpace : List ℕ → Type 0
IsSpace [] = ⊥
IsSpace (c ∷ cs) = IsGap (c ∷ cs)

-- The texts are those of conffile.l.
abbrev pub IsConfLine : ConfLine → Type 0
IsConfLine (remark text) = matches comment_regex (b'#' ∷ text) ≡ true
IsConfLine (blank end) = IsGap end
IsConfLine (grants user gap addr space netmask end) =
    (matches userid_regex user ≡ true)
    × IsSpace gap
    × (matches ip_regex addr ≡ true)
    × IsSpace space
    × (matches ip_regex netmask ≡ true)
    × IsGap end

abbrev pub to_line : (pton : List ℕ → ℕ) → ConfLine → Option Line
to_line pton (remark text) = none
to_line pton (blank end) = none
to_line pton (grants user gap addr space netmask end) =
    some (record { user = user; addr = pton addr; netmask = pton netmask })

module _ (pton : List ℕ → ℕ) where
  lex_skip : (xs ys : List ℕ) → lex_conf pton (length xs) (xs ++ ys) ≡ lex_conf pton 0 ys
  unfolding lex_conf
  lex_skip [] ys = refl
  lex_skip (x ∷ xs) ys = lex_skip xs ys

  lex_step :
      (x : ℕ) (xs ys : List ℕ) (total : ℕ) (action : Action)
      → best conf_rules false (x ∷ (xs ++ ys))
        ≡ some (record { total = total; taken = suc (length xs); action = action })
      → lex_conf pton 0 (x ∷ (xs ++ ys)) ≡ act_on pton action (x ∷ xs) (lex_conf pton 0 ys)
  unfolding lex_conf
  lex_step x xs ys total action e =
      let less : suc (length xs) - 1 ≡ length xs = omega arith in
      rw (e, less, take-append xs ys, lex_skip xs ys, lex_conf) refl

  lex_gap : (gap cs : List ℕ) → IsGap gap → lex_conf pton 0 (gap ++ cs) ≡ lex_conf pton 0 cs
  lex_gap [] cs h = refl
  lex_gap (c ∷ gap) cs h =
      lex_step c [] (gap ++ cs) 1 Action.ignores (best_ws c (gap ++ cs) h.0) ∙ lex_gap gap cs h.1

  lex_newline : (cs : List ℕ) → lex_conf pton 0 (b'\n' ∷ cs) ≡ Token.newline ∷ lex_conf pton 0 cs
  lex_newline cs = lex_step b'\n' [] cs 1 Action.returns_newline (best_newline cs)

  lex_userid :
      (user : List ℕ) (c : ℕ) (cs : List ℕ)
      → matches userid_regex user ≡ true
      → stops c ≡ true
      → lex_conf pton 0 (user ++ c ∷ cs) ≡ Token.userid user ∷ lex_conf pton 0 (c ∷ cs)
  lex_userid [] c cs m h = absurd (cc m)
  lex_userid (x ∷ user) c cs m h =
      lex_step x user (c ∷ cs) _ Action.returns_userid (best_userid x user c cs m h)

  lex_ip :
      (addr : List ℕ) (c : ℕ) (cs : List ℕ)
      → matches ip_regex addr ≡ true
      → stops c ≡ true
      → lex_conf pton 0 (addr ++ c ∷ cs) ≡ Token.ip (pton addr) ∷ lex_conf pton 0 (c ∷ cs)
  lex_ip [] c cs m h = absurd (cc m)
  lex_ip (x ∷ addr) c cs m h =
      lex_step x addr (c ∷ cs) _ Action.returns_ip (best_ip x addr c cs m h)

  lex_end :
      (netmask end rest : List ℕ)
      → matches ip_regex netmask ≡ true
      → IsGap end
      → lex_conf pton 0 (netmask ++ (end ++ b'\n' ∷ rest))
        ≡ Token.ip (pton netmask) ∷ Token.newline ∷ lex_conf pton 0 rest
  lex_end netmask [] rest m h =
      lex_ip netmask b'\n' rest m refl ∙ ap (λ t. Token.ip (pton netmask) ∷ t) (lex_newline rest)
  lex_end netmask (c ∷ end) rest m h =
      lex_ip netmask c (end ++ b'\n' ∷ rest) m ground (arith, h.0)
      ∙ ap (λ t. Token.ip (pton netmask) ∷ t)
          (lex_gap (c ∷ end) (b'\n' ∷ rest) h ∙ lex_newline rest)

  lex_line :
      (l : ConfLine) (ls : List ConfLine)
      → IsConfLine l
      → lex_conf pton 0 (conf_text ls) ≡ tokens (map (to_line pton) ls)
      → lex_conf pton 0 (conf_text (l ∷ ls)) ≡ tokens (map (to_line pton) (l ∷ ls))
  lex_line (remark text) ls h rest =
      lex_step b'#' text (b'\n' ∷ conf_text ls) _ Action.ignores
        (best_comment text (conf_text ls) h)
      ∙ lex_newline (conf_text ls)
      ∙ ap (λ t. Token.newline ∷ t) rest
  lex_line (blank end) ls h rest =
      lex_gap end (b'\n' ∷ conf_text ls) h
      ∙ lex_newline (conf_text ls)
      ∙ ap (λ t. Token.newline ∷ t) rest
  lex_line (grants user [] addr space netmask end) ls (_, g, _, _, _, _) rest = absurd g
  lex_line (grants user (c ∷ gap) addr [] netmask end) ls (_, _, _, s, _, _) rest = absurd s
  lex_line (grants user (c ∷ gap) addr (d ∷ space) netmask end) ls (u, g, a, s, m, e) rest =
      let line_end = netmask ++ (end ++ b'\n' ∷ conf_text ls) in
      let from_addr = addr ++ (d ∷ (space ++ line_end)) in
      lex_userid user c (gap ++ from_addr) u ground (arith, g.0)
      ∙ ap (λ t. Token.userid user ∷ t)
          (lex_gap (c ∷ gap) from_addr g
            ∙ lex_ip addr d (space ++ line_end) a ground (arith, s.0)
            ∙ ap (λ t. Token.ip (pton addr) ∷ t)
                (lex_gap (d ∷ space) line_end s
                  ∙ lex_end netmask end (conf_text ls) m e
                  ∙ ap (λ t. Token.ip (pton netmask) ∷ Token.newline ∷ t) rest))

  lex_conf-tokens :
      (ls : List ConfLine)
      → All IsConfLine ls
      → lex_conf pton 0 (conf_text ls) ≡ tokens (map (to_line pton) ls)
  unfolding lex_conf
  lex_conf-tokens [] h = refl
  lex_conf-tokens (l ∷ ls) h = lex_line l ls h.0 (lex_conf-tokens ls h.1)

-- When the server has no users yet, and reads a file of one line or more, each of them blank, a comment,
-- or a user, an address and a netmask as conffile.l has them: then it reads the file to its end, and
-- auth_check grants a user full access from an address exactly when some line has the user's name, in
-- upper or lower case, and the network of the address. `pton` is what inet_pton makes of a text.
pub read_conf-Admitted :
    (pton : List ℕ → ℕ) (l : ConfLine) (ls : List ConfLine) (s : Server) (user : List ℕ) (ip : ℕ)
    → All IsConfLine (l ∷ ls)
    → s.aq ≡ []
    → (aq : List AuthData) × (read_conf (some (lex_conf pton 0 (conf_text (l ∷ ls)))) s
        ≡ some (record s { aq = aq }))
      × ((auth_check aq (some user) ip ≡ some true)
          ↔ Admitted (map (to_line pton) (l ∷ ls)) user ip)
unfolding read_conf
read_conf-Admitted pton l ls s user ip h none_yet =
    let (aq, parsed, exact) = yyparse-Admitted (to_line pton l) (map (to_line pton) ls) user ip in
    (aq, rw (lex_conf-tokens pton (l ∷ ls) h, none_yet, parsed, read_conf) refl, exact)
