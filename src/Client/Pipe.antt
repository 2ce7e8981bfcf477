-- ===== src/Client/Pipe.antt =====
-- The commands of client/pipe.c, on C strings (no byte is 0).
pub mod Match
use diald_top.Base.{
  ℕ, Bool, if◌then◌else◌, Option, none, some, List, [], ◌∷◌, ◌++◌, length, codes, ◌==◌, isspace,
  strncaseeq, strneq,
}

-- `cmd`, without its NULL
abbrev pub cmd : List (List ℕ)
cmd =
    codes "up"
    ∷ codes "down"
    ∷ codes "force"
    ∷ codes "unforce"
    ∷ codes "block"
    ∷ codes "unblock"
    ∷ codes "quit"
    ∷ codes "delayed-quit"
    ∷ codes "reset"
    ∷ []

unfoldable pub strstrip : List ℕ → List ℕ
strstrip [] = []
strstrip (c ∷ cs) = if isspace c then [] else c ∷ strstrip cs

-- `!strncasecmp(cmd[i], line, len)` with the length of `cmd[i]`
abbrev pub begins : List ℕ → List ℕ → Bool
begins name line = strncaseeq (length name) name line

-- The loop of validate_command, which strips the command again in every round.
unfoldable pub find_command : List (List ℕ) → List ℕ → Option (List ℕ)
find_command [] command = none
find_command (name ∷ names) command =
    let stripped = strstrip command in
    let rest = find_command names stripped in if begins name stripped then some name else rest

-- What is in `command` afterwards.
unfoldable pub validate_command : List ℕ → List ℕ
unfolding find_command
validate_command command = elim (find_command cmd command) [ none ↦ [] | some name ↦ name ]

-- The result, and the writes to the control FIFO.
unfoldable pub fifo_command : List ℕ → ℕ × List (List ℕ)
fifo_command command = if length command == 0 then (1, []) else (0, (command ++ codes "\n") ∷ [])

-- `!strtcmp(str1, str2)`
unfoldable pub strtcmp : (str1 str2 : List ℕ) → Bool
strtcmp str1 str2 = strneq (length str2) str1 str2
