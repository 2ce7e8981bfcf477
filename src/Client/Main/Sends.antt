-- ===== src/Client/Main/Sends.antt =====
-- What a session of the client sends to diald.
use mathlib.Core.List.{append_assoc, append-nil}
use diald_top.Base.{
  ℕ, ◌==◌, ◌≡◌, refl, sym, ap, ◌∙◌, subst, true, false, inl, inr, Bool-cases, none, some, List, [],
  ◌∷◌, ◌++◌, All, codes,
}
use diald_top.Client.Pipe.{cmd, validate_command, fifo_command}
use diald_top.Client.Pipe.Match.{Among, fifo_command-validate_command}
use diald_top.Client.Main.{
  Session, send_command, parse_keyboard, Answer, client_round, client_loop, interrupted, broken,
  readable,
}

-- A name of the table and a newline.
abbrev pub IsCommand : List ℕ → Type 0
IsCommand line = (name : List ℕ) × Among name cmd × (line ≡ name ++ codes "\n")

-- The session goes on by commands of the table only.
pub record Sends (s t : Session) : Type 0 where
  pub lines : List (List ℕ)
  pub later : t.sent ≡ s.sent ++ lines
  pub known : All IsCommand lines

nothing : (s t : Session) → t.sent ≡ s.sent → Sends s t
nothing s t e = record { lines = []; later = e ∙ sym (append-nil s.sent); known = tt }

All-append :
    (xs ys : List (List ℕ)) → All IsCommand xs → All IsCommand ys → All IsCommand (xs ++ ys)
All-append [] ys h k = k
All-append (x ∷ xs) ys h k = (h.0, All-append xs ys h.1 k)

both : (s t u : Session) → Sends s t → Sends t u → Sends s u
both s t u h k = record {
  lines = h.lines ++ k.lines;
  later = k.later ∙ (ap (λ l. l ++ k.lines) h.later ∙ append_assoc s.sent h.lines k.lines);
  known = All-append h.lines k.lines h.known k.known;
}

send_command-Sends : (line : List ℕ) (s : Session) → Sends s (send_command line s)
unfolding send_command
send_command-Sends line s = record {
  lines = (fifo_command (validate_command line)).1;
  later = refl;
  known = elim (fifo_command-validate_command line) [
    | inl (name, m, _, e) ↦ subst (λ r. All IsCommand r.1) (sym e) ((name, m, refl), tt)
    | inr (_, e) ↦ subst (λ r. All IsCommand r.1) (sym e) tt
  ];
}

parse_keyboard-Sends : (key : ℕ) (line : List ℕ) (s : Session) → Sends s (parse_keyboard key line s)
unfolding parse_keyboard
parse_keyboard-Sends key line s = elim (Bool-cases (key == b'q')) [
  | inl e ↦ rw e (nothing s _ refl)
  | inr e ↦ rw e (elim (Bool-cases (key == b'c')) [
    | inl g ↦ rw g (send_command-Sends line s)
    | inr g ↦ rw g (elim (Bool-cases (key == b'n')) [
      | inl h ↦ rw h (nothing s _ refl)
      | inr h ↦ rw h (elim (Bool-cases (key == b'l')) [
        | inl i ↦ rw i (nothing s _ refl)
        | inr i ↦ rw i (nothing s _ refl)
      ])
    ])
  ])
]

round-Sends : (a : Answer) (s : Session) → Sends s (client_round a s).1
unfolding client_round
round-Sends interrupted s = nothing s _ refl
round-Sends broken s = nothing s _ refl
round-Sends (readable none none) s = nothing s _ refl
round-Sends (readable none (some true)) s = nothing s _ refl
round-Sends (readable none (some false)) s = nothing s _ refl
round-Sends (readable (some (key, line)) none) s = parse_keyboard-Sends key line s
round-Sends (readable (some (key, line)) (some true)) s = parse_keyboard-Sends key line s
round-Sends (readable (some (key, line)) (some false)) s = parse_keyboard-Sends key line s

-- Whatever is typed and whatever comes from the pipe, all that a session sends to diald are commands
-- of the table, each with a newline.
pub client_loop-Sends : (rounds : List Answer) (s : Session) → Sends s (client_loop rounds s).1
unfolding client_loop
client_loop-Sends [] s = nothing s _ refl
client_loop-Sends (a ∷ rounds) s = elim (Bool-cases (s.quit == 0)) [
  | inr over ↦ rw over (nothing s _ refl)
  | inl on ↦ rw on (elim (Bool-cases (client_round a s).0) [
    | inl left ↦ rw left (round-Sends a s)
    | inr stays ↦
        rw stays (both s _ _ (round-Sends a s) (client_loop-Sends rounds (client_round a s).1))
  ])
]
