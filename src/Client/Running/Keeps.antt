-- ===== src/Client/Running/Keeps.antt =====
-- The running client never faults, and does with the keys what Client/Main.antt says.
use diald_top.Base.{
  ℕ, ◌≡◌, refl, ap, ◌∙◌, ◌==◌, Bool-cases, none, some, List, [], ◌∷◌, ◌++◌, inl, inr, All, Option,
  Bool,
}
use diald_top.Client.Window.{Draw}
use diald_top.Client.Main.{Answer, client_round, client_loop}
use diald_top.Client.Running.{Turn, Client, signalled, select_round, main_loop}
use diald_top.Client.Running.Rounds.{
  SafeClient, IsSized, SeenFits, answer, signalled-Safe, select_round-Safe,
}

-- The answers of these rounds, one after the other.
abbrev pub answers_after : Option (Bool × Client × List Draw) → (Client → List Answer) → List Answer
answers_after none rest = []
answers_after (some (_, d, _)) rest = rest d

unfoldable pub answers : List Turn → Client → List Answer
answers [] c = []
answers (t ∷ ts) c =
    let s = signalled t.winch c in
    answer t.seen s ∷ answers_after (select_round t.seen s) (λ d. answers ts d)

-- While each terminal fits, the texts that come through the pipe do, no message among them is without a
-- text, and each line that is typed for a command has at most 255 bytes, the client runs through its
-- rounds without a fault, whatever keys are typed, whatever select(2) answers, and whenever the terminal
-- changes its size. It ends, and does with the keys, what the loop of Client/Main.antt does with these
-- answers of select(2) and with what read_fifo has returned.
pub main_loop-Safe :
    (w n : ℕ) (ts : List Turn) (c : Client)
    → SafeClient w n c
    → All (IsSized n) ts
    → All (λ t. SeenFits t.seen) ts
    → (u : Client) × (draws : List Draw) × (main_loop ts c
        ≡ some ((client_loop (answers ts c) c.session).0, u, draws))
      × (u.session ≡ (client_loop (answers ts c) c.session).1)
      × SafeClient w n u
unfolding main_loop client_loop answers
main_loop-Safe w n [] c h sized typed = (c, [], refl, refl, h)
main_loop-Safe w n (t ∷ ts) c h sized typed = elim (Bool-cases (c.session.quit == 0)) [
  | inr quits ↦ (c, [], simp quits refl, simp quits refl, h)
  | inl runs ↦
      let s = signalled t.winch c in
      let a = answer t.seen s in
      let (h2, same) = signalled-Safe w n t.winch c h sized.0 in
      let (d, draws, run, session, safe) = select_round-Safe w n t.seen s h2 typed.0 in
      let ran : select_round t.seen s ≡ some ((client_round a c.session).0, d, draws) =
        run ∙ ap (λ x. some ((client_round a x).0, d, draws)) same in
      let answered : d.session ≡ (client_round a c.session).1 =
        session ∙ ap (λ x. (client_round a x).1) same in
      elim (Bool-cases (client_round a c.session).0) [
        | inl leaves ↦
            (d, draws, simp (runs, ran, leaves) refl, simp (runs, leaves, ran) answered, safe)
        | inr goes_on ↦
            let (u, more, rest, last, kept) = main_loop-Safe w n ts d safe sized.1 typed.1 in
            (
              u,
              draws ++ more,
              simp (runs, ran, goes_on, rest, answered) refl,
              simp (runs, goes_on, ran)
                  (last ∙ ap (λ x. (client_loop (answers ts d) x).1) answered),
              kept,
            )
      ]
]
