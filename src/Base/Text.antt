-- ===== src/Base/Text.antt =====
-- C strings as lists of bytes, and the functions of string.h and ctype.h that the program calls.
use Prim.Native.Nat.{ℕ, zero, suc, ◌+◌}
use Prim.Native.Char.{code}
use Prim.Native.String.{String}
use mathlib.Core.Bool.{Bool, true, false, ◌&&◌, ◌||◌}
use mathlib.Core.List.{List, [], ◌∷◌}
use mathlib.Core.Option.{Option, none, some}
use diald_top.Base.Lists.{length}
use diald_top.Base.Tests.{leb, ◌==◌, if◌then◌else◌}

-- The bytes of a literal.
abbrev pub codes : String → List ℕ
codes String.[] = []
codes (String.◌∷◌ c s) = code c ∷ codes s

-- What a C string function sees of a buffer: the bytes before the first NUL.
unfoldable pub c_str : List ℕ → List ℕ
c_str [] = []
c_str (c ∷ cs) = if c == 0 then [] else c ∷ c_str cs

-- tolower in the C locale
unfoldable pub tolower : ℕ → ℕ
tolower c = if leb b'A' c && leb c b'Z' then c + 32 else c

-- isspace in the C locale: space, and \t \n \v \f \r
unfoldable pub isspace : ℕ → Bool
isspace c = (c == 32) || (leb 9 c && leb c 13)

-- `!strncasecmp(s, t, n)`
unfoldable pub strncaseeq : ℕ → List ℕ → List ℕ → Bool
strncaseeq zero s t = true
strncaseeq (suc n) [] [] = true
strncaseeq (suc n) [] (d ∷ t) = false
strncaseeq (suc n) (c ∷ s) [] = false
strncaseeq (suc n) (c ∷ s) (d ∷ t) = (tolower c == tolower d) && strncaseeq n s t

-- `!strcasecmp(s, t)`
unfoldable pub strcaseeq : List ℕ → List ℕ → Bool
strcaseeq [] [] = true
strcaseeq [] (d ∷ t) = false
strcaseeq (c ∷ s) [] = false
strcaseeq (c ∷ s) (d ∷ t) = (tolower c == tolower d) && strcaseeq s t

-- `!strncmp(s, t, n)`
unfoldable pub strneq : ℕ → List ℕ → List ℕ → Bool
strneq zero s t = true
strneq (suc n) [] [] = true
strneq (suc n) [] (d ∷ t) = false
strneq (suc n) (c ∷ s) [] = false
strneq (suc n) (c ∷ s) (d ∷ t) = (c == d) && strneq n s t

-- `!strcmp(s, t)`
unfoldable pub streq : List ℕ → List ℕ → Bool
streq [] [] = true
streq [] (d ∷ t) = false
streq (c ∷ s) [] = false
streq (c ∷ s) (d ∷ t) = (c == d) && streq s t

-- strstr on C strings: where the needle first stands.
abbrev pub strstr : List ℕ → List ℕ → Option ℕ
strstr needle [] = if length needle == 0 then some 0 else none
strstr needle (c ∷ cs) =
    let rest = strstr needle cs in
    if strneq (length needle) needle (c ∷ cs)
    then some 0
    else elim rest [ none ↦ none | some i ↦ some (suc i) ]

-- strncpy: `n` bytes of the text, then zeros.
abbrev pub strncpy : ℕ → List ℕ → List ℕ → List ℕ
strncpy zero buf text = buf
strncpy (suc n) [] text = []
strncpy (suc n) (b ∷ buf) [] = 0 ∷ strncpy n buf []
strncpy (suc n) (b ∷ buf) (c ∷ text) = c ∷ strncpy n buf text
