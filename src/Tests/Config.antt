-- ===== src/Tests/Config.antt =====
-- Tests of the configuration file, and of who identd says has connected.
use diald_top.Base.{
  ℕ, ◌≡◌, ◌↔◌, refl, true, ◌==◌, if◌then◌else◌, none, some, List, [], ◌∷◌, codes, length,
}
use diald_top.Flex.{best, match_rule}
use diald_top.Server.State.{AuthData}
use diald_top.Server.Auth.{auth_check, read_conf, yyparse, more_lines}
use diald_top.Server.Auth.Match.{Admitted}
use diald_top.Server.Conffile.{lex_conf}
use diald_top.Server.Conffile.Reads.{ConfLine, remark, blank, grants, conf_text, read_conf-Admitted}
use diald_top.Tests.{two}
use diald_top.Server.Daemon.Greeting.{names}
use diald_top.Tests.{two}

-- An address and a netmask, by the number of their bytes.
abbrev pton : List ℕ → ℕ
pton text = if length text == 8 then 0x0a00_0001 else 0xff00_0000

abbrev about : ConfLine
about = remark (codes " who may do what")

abbrev lines : List ConfLine
lines =
    blank (codes "  ")
    ∷ grants (codes "eve") (codes " \t") (codes "10.0.0.1") (codes ", ") (codes "255.0.0.0") []
    ∷ []

read_conf-Admitted_example :
    (aq : List AuthData) × (read_conf (some (lex_conf pton 0 (conf_text (about ∷ lines)))) two
      ≡ some (record two { aq = aq }))
    × ((auth_check aq (some (codes "eve")) 0x0a00_0002 ≡ some true)
        ↔ Admitted
            (none
              ∷ none
              ∷ some (record { user = codes "eve"; addr = 0x0a00_0001; netmask = 0xff00_0000 })
              ∷ [])
            (codes "eve")
            0x0a00_0002)
read_conf-Admitted_example =
    read_conf-Admitted pton about lines two (codes "eve") 0x0a00_0002
      (
        refl,
        ((refl, (refl, tt)), ((refl, (refl, (refl, tt)), refl, (refl, (refl, tt)), refl, tt), tt)),
      )
      refl

-- A name with a dash is two names, and the server exits.
dashed : yyparse (lex_conf pton 0 (codes "www-data 10.0.0.1 255.0.0.0\n")) [] ≡ none
unfolding lex_conf best match_rule yyparse more_lines
dashed = refl

abbrev system : List ℕ
system = codes " UNIX "

abbrev reply : List ℕ
reply = names (codes "40000 , 1313 ") (codes " USERID ") system 1 (codes "eve") []
