-- ===== src/Client/Help.antt =====
-- helpscreen of client/screen.c, and its show_help_commands and print_help.
pub mod Pages
use diald_top.Base.{ℕ, zero, suc, ◌-◌, if◌then◌else◌, List, [], ◌∷◌, leb, codes}
use diald_top.Client.Screen.{head_lines}
use diald_top.Client.Window.{Draw, erases_sub, prints_sub}

-- print_help's static `currline`, and what has been drawn since the last key, the latest first.
pub record Help : Type 0 where
  pub currline : ℕ
  pub drawn : List Draw

-- `print_help(0, NULL)`
abbrev pub clear_help : Help → Help
clear_help h = record { currline = 0; drawn = erases_sub ∷ h.drawn }

unfoldable pub print_help : ℕ → List ℕ → Help → Help
print_help x line h = record {
  currline = suc h.currline;
  drawn = prints_sub (suc h.currline) x line ∷ h.drawn;
}

abbrev print_all : ℕ → List (List ℕ) → Help → Help
print_all x [] h = h
print_all x (line ∷ lines) h = print_all x lines (print_help x line h)

abbrev pub command_lines : List (List ℕ)
command_lines =
    codes "up           Bring the link up"
    ∷ codes "down         Bring the link down"
    ∷ codes "force        Force the link up until further notice"
    ∷ codes "unforce      No longer force the link up"
    ∷ codes "block        Force the link down until further notice"
    ∷ codes "unblock      No longer force the link down"
    ∷ codes "quit         Forcibly quit diald (and shut down the link)"
    ∷ codes "delay-quit   Quit diald the next time the link comes down"
    ∷ []

unfoldable pub show_help_commands : Help → Help
unfolding print_help
show_help_commands h = print_all 10 command_lines (print_help 0 (codes "Valid Commands:") h)

-- The keys, in a build with gethostbyaddr and getdomainname.
abbrev key_lines : List (List ℕ)
key_lines =
    codes "(h)\tDisplay Help Screen (this screen)"
    ∷ codes "(l)\tToggle Truncation of Local Hosts (removes domain)"
    ∷ codes "(n)\tToggle Numeric IP vs. Resolved Names"
    ∷ codes "(q)\tQuit diald-top"
    ∷ codes "(^R)\tRedraw screen"
    ∷ codes ""
    ∷ []

abbrev first_line : Help → Help
first_line h = print_help 0 (codes "(c)\tSend a command to the diald control FIFO") (clear_help h)

-- What is on the screen each time that it waits for a key, on a terminal of so many lines.
unfoldable pub helpscreen : (lines : ℕ) → List (List Draw)
unfolding show_help_commands print_help
helpscreen lines =
    let rowsavail = lines - head_lines in
    let start : Help = record { currline = 0; drawn = [] } in
    let whole = print_all 0 key_lines (show_help_commands (first_line start)) in
    let first =
      print_help 25 (codes "Press any key to continue")
        (print_all 0 key_lines (first_line start)) in
    let second = print_help 0 [] (show_help_commands (clear_help (record first { drawn = [] }))) in
    if leb 17 rowsavail
    then (print_help 26 (codes "Press any key to resume") whole).drawn ∷ []
    else first.drawn ∷ (print_help 26 (codes "Press any key to resume") second).drawn ∷ []
