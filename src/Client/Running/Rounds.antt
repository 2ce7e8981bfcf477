-- ===== src/Client/Running/Rounds.antt =====
-- One round of the running client.
use diald_top.Base.{
  ℕ, ◌≤◌, ◌≡◌, refl, sym, ap, ◌∙◌, arith, Bool, true, false, Bool-cases, Option, none, some, List,
  [], ◌∷◌, ◌++◌, inl, inr, All,
}
use diald_top.Client.Window.{Draw, erases_sub}
use diald_top.Client.Main.{Answer, client_round}
use diald_top.Client.Refresh.{View, Terminal, handlesig_winch, read_fifo}
use diald_top.Client.Refresh.Drawn.{Fits, resized-Good, redraw-Shown}
use diald_top.Client.Reports.{Input, yyparse}
use diald_top.Client.Reports.Parses.{parses, IsFineInput}
use diald_top.Client.Reports.Parsed.{parse_rounds-After}
use diald_top.Client.Reports.Keeps.{Safe}
use diald_top.Client.Reports.Sound.{Safe-flags, Safe-Acts}
use diald_top.Client.Running.{
  Seen, failed, wrong, ready, Turn, Client, signalled, answered, typed_fits, read_round,
  select_round,
}

-- A terminal that may be drawn on, of so many columns or more.
abbrev pub FitsAt : ℕ → Terminal → Type 0
FitsAt n w = Fits w × (n ≤ w.cols)

read_fifo-Safe :
    (w n : ℕ) (inputs : List Input) (term : Terminal) (v : View)
    → Safe w n v
    → All (IsFineInput n) inputs
    → FitsAt n term
    → (going : Bool) × (left : List Input) × (u : View) × (draws : List Draw) × (read_fifo yyparse
          term inputs v
        ≡ some (going, left, u, draws))
      × Safe w n u
      × All (IsFineInput n) left
unfolding read_fifo
read_fifo-Safe w n inputs term v h fine (fits, wide) =
    let p = parses 4 inputs in
    let (t, parsed, run, a) =
      parse_rounds-After n (λ packets v. Safe w n v) (Safe-flags w n) (Safe-Acts w n) 4 [] inputs
        (record v { yacc_eof = false }) (Safe-flags w n [] v v.yacc_key v.yacc_block false h)
        fine in
    elim (Bool-cases t.yacc_eof) [
      | inl eof ↦ (false, p.left, t, parsed, simp (run, eof, read_fifo) refl, a.kept, a.fine)
      | inr more ↦
          let (u, first, sized, _, good, _, _, format, size) =
            resized-Good term t fits a.kept.good in
          let (state, rows, drawn, _, _) = redraw-Shown u good in
          (
            true,
            p.left,
            u,
            parsed ++ (first ++ (state ++ erases_sub ∷ rows)),
            simp (run, more, sized, drawn, read_fifo) refl,
            record {
              good = good;
              format = a.kept.format ∙ ap some (sym format);
              narrow = a.kept.narrow;
              wide = elim size [
                | inl e ↦ omega (arith, e, wide)
                | inr e ↦ omega (arith, e, a.kept.wide)
              ];
            },
            a.fine,
          )
    ]

-- Between two rounds: the texts to come fit, and the client fits its terminal.
pub record SafeClient (w n : ℕ) (c : Client) : Type 0 where
  pub view : Safe w n c.view
  pub inputs : All (IsFineInput n) c.inputs
  pub terminal : FitsAt n c.terminal

abbrev pub IsSized : ℕ → Turn → Type 0
IsSized n t = (w : Terminal) → t.winch ≡ some w → FitsAt n w

-- What select(2) and read_fifo answer in a round of Client/Main.antt.
abbrev pub going_of : Option (Bool × List Input × View × List Draw) → Option Bool
going_of none = none
going_of (some (going, _, _, _)) = some going

abbrev pub answer : Seen → Client → Answer
answer failed c = Answer.interrupted
answer wrong c = Answer.broken
answer (ready key false) c = Answer.readable key none
answer (ready key true) c =
    Answer.readable key (going_of (read_fifo yyparse c.terminal c.inputs c.view))

pub signalled-Safe :
    (w n : ℕ) (winch : Option Terminal) (c : Client)
    → SafeClient w n c
    → ((t : Terminal) → winch ≡ some t → FitsAt n t)
    → SafeClient w n (signalled winch c) × ((signalled winch c).session ≡ c.session)
unfolding handlesig_winch
signalled-Safe w n none c h sized = (h, refl)
signalled-Safe w n (some t) c h sized = (
  record {
    view = record {
      good = record {
        ready = h.view.good.ready;
        lines = h.view.good.lines;
        cols = h.view.good.cols;
        count = h.view.good.count;
        state = h.view.good.state;
        revision = h.view.good.revision;
      };
      format = h.view.format;
      narrow = h.view.narrow;
      wide = h.view.wide;
    };
    inputs = h.inputs;
    terminal = sized t refl;
  },
  refl,
)

-- A round without read_fifo.
answered-Safe :
    (w n : ℕ) (a : Answer) (c : Client)
    → SafeClient w n c
    → (d : Client) × (draws : List Draw) × (answered a c
        ≡ some ((client_round a c.session).0, d, draws))
      × (d.session ≡ (client_round a c.session).1)
      × SafeClient w n d
answered-Safe w n a c h = (
  record c { session = (client_round a c.session).1 },
  [],
  refl,
  refl,
  record { view = h.view; inputs = h.inputs; terminal = h.terminal },
)

-- A line that is typed for get_command fits.
abbrev pub SeenFits : Seen → Type 0
SeenFits (ready key piped) = typed_fits key ≡ true
SeenFits _ = Unit

read_round-Safe :
    (w n : ℕ) (key : Option (ℕ × List ℕ)) (piped : Bool) (c : Client)
    → SafeClient w n c
    → let a = answer (ready key piped) c in
      (d : Client) × (draws : List Draw) × (read_round key piped c
        ≡ some ((client_round a c.session).0, d, draws))
      × (d.session ≡ (client_round a c.session).1)
      × SafeClient w n d
unfolding read_round
read_round-Safe w n key false c h = answered-Safe w n (Answer.readable key none) c h
read_round-Safe w n key true c h =
    let (going, left, u, draws, run, safe, fine) =
      read_fifo-Safe w n c.inputs c.terminal c.view h.view h.inputs h.terminal in
    let a = Answer.readable key (some going) in
    (
      record c { session = (client_round a c.session).1; view = u; inputs = left },
      draws,
      rw (run, read_round) refl,
      rw run refl,
      record { view = safe; inputs = fine; terminal = h.terminal },
    )

-- One round does with the session what it does on its own.
pub select_round-Safe :
    (w n : ℕ) (seen : Seen) (c : Client)
    → SafeClient w n c
    → SeenFits seen
    → (d : Client) × (draws : List Draw) × (select_round seen c
        ≡ some ((client_round (answer seen c) c.session).0, d, draws))
      × (d.session ≡ (client_round (answer seen c) c.session).1)
      × SafeClient w n d
unfolding select_round
select_round-Safe w n failed c h fits = answered-Safe w n Answer.interrupted c h
select_round-Safe w n wrong c h fits = answered-Safe w n Answer.broken c h
select_round-Safe w n (ready key piped) c h fits =
    let (d, draws, run, session, safe) = read_round-Safe w n key piped c h in
    (d, draws, rw (select_round, fits) run, session, safe)
