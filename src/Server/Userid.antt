-- ===== src/Server/Userid.antt =====
-- clean_userid and reap_userid of server/port-daemon.c, on C strings (no byte is 0).
pub mod Laws
use diald_top.Base.{ℕ, ◌==◌, ◌||◌, Bool, if◌then◌else◌, List, [], ◌∷◌}

-- `*line == '\n' || *line == '\r'`
abbrev pub is_eol : ℕ → Bool
is_eol c = (c == 10) || (c == 13)

-- The loop that looks for the end of the line, and the NUL written there.
unfoldable pub until_eol : List ℕ → List ℕ
until_eol [] = []
until_eol (c ∷ cs) = if is_eol c then [] else c ∷ until_eol cs

-- `for (; *res == ' '; res++);`
unfoldable pub skip_spaces : List ℕ → List ℕ
skip_spaces [] = []
skip_spaces (c ∷ cs) = if c == b' ' then skip_spaces cs else c ∷ cs

unfoldable pub clean_userid : List ℕ → List ℕ
unfolding until_eol skip_spaces
clean_userid line = skip_spaces (until_eol line)

-- `for (; *line != ':' && *line; line++); if (*line) line++;`
unfoldable pub skip_field : List ℕ → List ℕ
skip_field [] = []
skip_field (c ∷ cs) = if c == b':' then cs else skip_field cs

unfoldable pub reap_userid : List ℕ → List ℕ
unfolding skip_field clean_userid
reap_userid line = clean_userid (until_eol (skip_field (skip_field (skip_field line))))
