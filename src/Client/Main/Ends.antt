-- ===== src/Client/Main/Ends.antt =====
-- When a session of the client ends.
use diald_top.Base.{
  ℕ, ◌==◌, ◌≡◌, Bool, true, false, not, ◌||◌, arith, inl, inr, Bool-cases, Option, none, some, List,
  [], ◌∷◌,
}
use diald_top.Client.Main.{
  Session, send_command, parse_keyboard, Answer, client_round, client_loop, interrupted, broken,
  readable,
}

-- The user types 'q'; read_fifo finds the end of the pipe.
abbrev pub types_q : Option (ℕ × List ℕ) → Bool
types_q none = false
types_q (some (key, line)) = key == b'q'

abbrev pub at_end : Option Bool → Bool
at_end none = false
at_end (some ok) = not ok

abbrev pub ends : Answer → Bool
ends interrupted = false
ends broken = true
ends (readable key fifo) = types_q key || at_end fifo

abbrev pub some_ends : List Answer → Bool
some_ends [] = false
some_ends (a ∷ rounds) = ends a || some_ends rounds

abbrev pub is_over : Session → Bool
is_over s = not (s.quit == 0)

parse_keyboard_over :
    (key : ℕ) (line : List ℕ) (s : Session)
    → s.quit ≡ 0
    → is_over (parse_keyboard key line s) ≡ (key == b'q')
unfolding parse_keyboard send_command
parse_keyboard_over key line s on = ground arith

round_over :
    (a : Answer) (s : Session)
    → s.quit ≡ 0
    → ((client_round a s).0 || is_over (client_round a s).1) ≡ ends a
unfolding client_round
round_over interrupted s on = ground arith
round_over broken s on = ground arith
round_over (readable none none) s on = ground arith
round_over (readable none (some true)) s on = ground arith
round_over (readable none (some false)) s on = ground arith
round_over (readable (some (key, line)) none) s on =
    ground (arith, parse_keyboard_over key line s on)
round_over (readable (some (key, line)) (some true)) s on =
    ground (arith, parse_keyboard_over key line s on)
round_over (readable (some (key, line)) (some false)) s on = ground arith

-- The loop comes to its end exactly when the session was over before it or, in some round, 'q' is
-- typed, an error is reported, or the end of the pipe is read.
pub client_loop_ends :
    (rounds : List Answer) (s : Session)
    → (client_loop rounds s).0 ≡ (is_over s || some_ends rounds)
unfolding client_loop
client_loop_ends [] s = ground arith
client_loop_ends (a ∷ rounds) s = elim (Bool-cases (s.quit == 0)) [
  | inr over ↦ ground arith
  | inl on ↦
      let here = round_over a s ground arith in
      let rest = client_loop_ends rounds (client_round a s).1 in
      elim (Bool-cases (client_round a s).0) [
        | inl left ↦ ground (arith, here)
        | inr stays ↦ ground (arith, here, rest)
      ]
]
