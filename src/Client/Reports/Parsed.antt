-- ===== src/Client/Reports/Parsed.antt =====
-- The reports that read_fifo's calls of yyparse handle, and an invariant that these keep.
use diald_top.Base.{
  ℕ, zero, suc, ◌≡◌, refl, sym, ap, ◌∙◌, subst, Bool, true, false, ◌||◌, Bool-cases, some, List, [],
  ◌∷◌, ◌++◌, ℤ, inl, inr, All, arith,
}
use diald_top.Client.Window.{Draw}
use diald_top.Client.Rows.{Packet}
use diald_top.Client.Refresh.{View, parse_rounds}
use diald_top.Client.Reports.{Report, accepts, Input, arrives, blocks, ends, yyparse}
use diald_top.Client.Reports.Parses.{
  IsFine, IsFine-scans, queue_after, state_after, Parse, one_parse, parses, last_queue, last_state,
  last_queue-append, last_state-append, IsFineInput, Acts, NoFlags,
}

-- The globals after parses that have gone this way, with an invariant of theirs.
pub record After (n : ℕ) (P : List Packet → View → Type 0) (packets : List Packet) (v : View)
    (p : Parse) (u : View) : Type 0 where
  pub kept : P (last_queue p.done packets) u
  pub state : u.curr_state ≡ last_state p.done v.curr_state
  pub eof : u.yacc_eof ≡ (p.closed || v.yacc_eof)
  pub resized : u.resize_event_p ≡ v.resize_event_p
  pub fine : All (IsFineInput n) p.left

-- An invariant that each action keeps whose report is fine for `n` columns.
module _ (n : ℕ) (P : List Packet → View → Type 0) (flags : NoFlags P)
    (acts : (report : Report) (packets : List Packet) (v : View)
      → P packets v
      → IsFine n report
      → Acts P report packets v) where
  stops :
      (packets : List Packet) (v : View) (waits closed : Bool) (left : List Input)
      → P packets v
      → All (IsFineInput n) left
      → After n P packets v
          (record { done = []; left = left; waits = waits; closed = closed })
          (record v { yacc_block = waits; yacc_eof = closed || v.yacc_eof })
  stops packets v waits closed left h fine = record {
    kept = flags packets v v.yacc_key waits (closed || v.yacc_eof) h;
    state = refl;
    eof = refl;
    resized = refl;
    fine = fine;
  }

  -- A report and what comes after it.
  goes_on :
      (packets : List Packet) (report : Report) (ready : ℤ) {p : Parse} (v t : View) {u : View}
      → t.curr_state ≡ state_after report v.curr_state
      → t.resize_event_p ≡ v.resize_event_p
      → t.yacc_eof ≡ v.yacc_eof
      → After n P
          (queue_after report packets)
          (record t { yacc_key = ready; yacc_block = false })
          p
          u
      → After n P packets v (record p { done = report ∷ p.done }) u
  goes_on packets report ready {p} v t state resized eof after = record {
    kept = after.kept;
    state = after.state ∙ ap (last_state p.done) state;
    eof = after.eof ∙ ap (λ b. p.closed || b) eof;
    resized = after.resized ∙ resized;
    fine = after.fine;
  }

  yyparse-After :
      (packets : List Packet) (inputs : List Input) (v : View)
      → P packets v
      → All (IsFineInput n) inputs
      → let p = one_parse inputs in
        (u : View) × (draws : List Draw) × (yyparse inputs v ≡ some (p.left, u, draws))
        × (u.yacc_block ≡ p.waits)
        × After n P packets v p u
  unfolding yyparse
  yyparse-After packets [] v h fine = (_, _, refl, refl, stops packets v true false [] h tt)
  yyparse-After packets (blocks ∷ inputs) v h fine =
      (_, _, refl, refl, stops packets v true false inputs h fine.1)
  yyparse-After packets (ends ∷ inputs) v h fine =
      (_, _, refl, refl, stops packets v false true inputs h fine.1)
  yyparse-After packets (arrives report ready ∷ inputs) v h fine =
      let (t, draws, acted, kept, state, resized, eof) = acts report packets v h fine.0 in
      let scanned = IsFine-scans n report fine.0 in
      let noted = record t { yacc_key = ready; yacc_block = false } in
      let next = flags (queue_after report packets) t ready false t.yacc_eof kept in
      elim (Bool-cases (accepts report ready)) [
        | inl last ↦
            let end = stops (queue_after report packets) noted false false inputs next fine.1 in
            (
              noted,
              draws,
              rw (scanned, acted, last) refl,
              rw last refl,
              simp last (goes_on packets report ready v t state resized eof end),
            )
        | inr more ↦
            let (u, drawn, run, block, after) =
              yyparse-After (queue_after report packets) inputs noted next fine.1 in
            (
              u,
              draws ++ drawn,
              rw (scanned, acted, more, run) refl,
              rw more block,
              simp more (goes_on packets report ready v t state resized eof after),
            )
      ]

  -- One parse and the ones after it.
  both :
      (m : ℕ) (packets : List Packet) (inputs : List Input) (v t u : View)
      → let p = one_parse inputs in
        let rest = parses m p.left in
        After n P packets v p t
        → After n P (last_queue p.done packets) t rest u
        → After n P packets v
            (record rest { done = p.done ++ rest.done; closed = p.closed || rest.closed })
            u
  both m packets inputs v t u a b =
      let p = one_parse inputs in
      let rest = parses m p.left in
      record {
        kept = subst (λ q. P q u) (sym (last_queue-append p.done rest.done packets)) b.kept;
        state =
            b.state
            ∙ ap (last_state rest.done) a.state
            ∙ sym (last_state-append p.done rest.done v.curr_state);
        eof = ground (arith, a.eof, b.eof);
        resized = b.resized ∙ a.resized;
        fine = b.fine;
      }

  -- The rounds of read_fifo.
  pub parse_rounds-After :
      (m : ℕ) (packets : List Packet) (inputs : List Input) (v : View)
      → P packets v
      → All (IsFineInput n) inputs
      → let p = parses m inputs in
        (u : View) × (draws : List Draw) × (parse_rounds yyparse m inputs v
          ≡ some (p.left, u, draws))
        × After n P packets v p u
  unfolding parse_rounds
  parse_rounds-After zero packets inputs v h fine =
      (v, [], refl, record { kept = h; state = refl; eof = refl; resized = refl; fine = fine })
  parse_rounds-After (suc m) packets inputs v h fine =
      let p = one_parse inputs in
      let (t, draws, run, block, a) = yyparse-After packets inputs v h fine in
      elim (Bool-cases p.waits) [
        | inl waits ↦ (t, draws, rw (run, block, waits) refl, simp waits a)
        | inr more ↦
            let (u, drawn, rest, b) =
              parse_rounds-After m (last_queue p.done packets) p.left t a.kept a.fine in
            (
              u,
              draws ++ drawn,
              rw (run, block, more, rest) refl,
              simp more (both m packets inputs v t u a b),
            )
      ]
