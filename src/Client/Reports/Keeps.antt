-- ===== src/Client/Reports/Keeps.antt =====
-- What one report of diald does to the screen and to the bounds that keep the client safe.
use diald_top.Base.{
  ℕ, ℤ, Bool, ◌+◌, ◌*◌, ◌<◌, ◌≤◌, ◌≡◌, refl, sym, ap, ◌∙◌, subst, arith, some, ◌>>=◌, List, [], ◌∷◌,
  pos, inl, inr, length, All, get_elem?,
}
use diald_top.Client.Window.{Draw, erases_sub}
use diald_top.Client.Screen.{Screen, head_lines}
use diald_top.Client.Screen.Buffers.{do_queue-Ready}
use diald_top.Client.Screen.Display.{Reads}
use diald_top.Client.Rows.{Packet, packet_format, show_packets}
use diald_top.Client.Rows.Columns.{IsRow}
use diald_top.Client.Rows.Displayed.{IsPlain, show_packets-rows}
use diald_top.Client.Reports.Parses.{IsFine, state_after}
use diald_top.Client.Status.Lines.{do_state_lem, do_message_lem}
use diald_top.Client.Status.Room.{do_interface-fits}
use diald_top.Client.Resolve.{Loads}
use diald_top.Client.Status.{do_load}
use diald_top.Client.Refresh.{View}
use diald_top.Client.Refresh.Drawn.{Good}
use diald_top.Client.Reports.{Report, status, load, interface, state, message, queue, act}

-- The buffers are ready, `format` was printed for this ip_width, and the terminal has so many columns.
pub record Safe (w n : ℕ) (v : View) : Type 0 where
  pub good : Good v
  pub format : packet_format (pos w) ≡ some v.format
  pub narrow : w < 230
  pub wide : n ≤ v.screen.cols

-- What an action makes of the screen.
abbrev pub Screened : ℕ → Report → Screen → Screen → Type 0
Screened w (queue ps) s t =
    (t.count ≡ length ps)
    × (t.lines ≡ s.lines)
    × (t.cols ≡ s.cols)
    × ((k : ℕ) (p : Packet)
        → get_elem? ps k ≡ some p
        → k + head_lines ≤ s.lines
        → 36 + 2 * w ≤ s.cols
        → (line : List ℕ) × Reads t k line × IsRow w p line)
Screened w _ s t = t ≡ s

-- What one report does.
pub record Acted (w n : ℕ) (report : Report) (r t : View) : Type 0 where
  pub safe : Safe w n t
  pub screen : Screened w report r.screen t.screen
  pub format : t.format ≡ r.format
  pub state : t.curr_state ≡ state_after report r.curr_state
  pub resized : t.resize_event_p ≡ r.resize_event_p
  pub eof : t.yacc_eof ≡ r.yacc_eof

-- A step that changes nothing that is looked at here.
pub unchanged :
    (w n : ℕ) (r : View) {loads : Loads} {key : ℤ} {block eof : Bool}
    → Safe w n r
    → Safe w n (record r { loads = loads; yacc_key = key; yacc_block = block; yacc_eof = eof })
unchanged w n r h = record {
  good = record {
    ready = h.good.ready;
    lines = h.good.lines;
    cols = h.good.cols;
    count = h.good.count;
    state = h.good.state;
    revision = h.good.revision;
  };
  format = h.format;
  narrow = h.narrow;
  wide = h.wide;
}

queue-Acted :
    (w n : ℕ) (ps : List Packet) (r : View)
    → Safe w n r
    → All IsPlain ps
    → length ps < 2_147_483_648
    → (t : View) × (draws : List Draw) × (act (queue ps) r ≡ some (t, draws))
      × Acted w n (queue ps) r t
unfolding act
queue-Acted w n ps r h plain few =
    let s = r.screen in
    let (e, emptied, ready, none_yet, size, _) = do_queue-Ready s h.good.ready in
    let (t, run, fits, count, same, rows) =
      show_packets-rows w ps e ready (omega (arith, h.good.lines, size.0)) h.narrow plain in
    let shown : show_packets r.format ps e ≡ some t =
      sym (ap (λ o. o >>= λ fmt. show_packets fmt ps e) h.format) ∙ run in
    (
      record r { screen = t },
      erases_sub ∷ [],
      rw (emptied, shown) refl,
      record {
        safe = record {
          good = record {
            ready = fits;
            lines = omega (arith, same.0, size.0, h.good.lines);
            cols = (
              omega (arith, same.1, size.1, h.good.cols.0),
              omega (arith, same.1, size.1, h.good.cols.1),
            );
            count = omega (arith, count, none_yet, few);
            state = h.good.state;
            revision = h.good.revision;
          };
          format = h.format;
          narrow = h.narrow;
          wide = omega (arith, h.wide, same.1, size.1);
        };
        screen = (
          omega (arith, count, none_yet),
          same.0 ∙ size.0,
          same.1 ∙ size.1,
          λ k p at lt room.
              let index : k + e.count ≡ k = omega (arith, none_yet) in
              let (line, reads, is_row) =
                rows k p at (omega (arith, index, lt, size.0)) (omega (arith, room, size.1)) in
              (line, subst (λ i. Reads t i line) index reads, is_row),
        );
        format = refl;
        state = refl;
        resized = refl;
        eof = refl;
      },
    )

state-Safe :
    (w n : ℕ) (v : View) (text : List ℕ)
    → Safe w n v
    → length text < 232
    → Safe w n (record v { curr_state = text })
state-Safe w n v text h short = record {
  good = record {
    ready = h.good.ready;
    lines = h.good.lines;
    cols = h.good.cols;
    count = h.good.count;
    state = short;
    revision = h.good.revision;
  };
  format = h.format;
  narrow = h.narrow;
  wide = h.wide;
}

pub act-Acted :
    (w n : ℕ) (report : Report) (r : View)
    → Safe w n r
    → IsFine n report
    → (t : View) × (draws : List Draw) × (act report r ≡ some (t, draws)) × Acted w n report r t
unfolding act
act-Acted w n status r h fine = (
  r,
  [],
  refl,
  record { safe = h; screen = refl; format = refl; state = refl; resized = refl; eof = refl },
)
act-Acted w n (load itxtotal irxtotal) r h fine =
    let t = record r { loads = do_load itxtotal irxtotal r.loads } in
    (
      t,
      [],
      refl,
      record {
        safe = unchanged w n r h;
        screen = refl;
        format = refl;
        state = refl;
        resized = refl;
        eof = refl;
      },
    )
act-Acted w n (interface name local_ip remote_ip) r h fine =
    let (drawn, _) =
      do_interface-fits r.screen.cols name local_ip remote_ip (omega (arith, fine, h.wide))
        h.good.cols.1 in
    (
      r,
      _,
      ap (λ o. o >>= λ draws. some (r, draws)) drawn,
      record { safe = h; screen = refl; format = refl; state = refl; resized = refl; eof = refl },
    )
act-Acted w n (state text) r h fine =
    let s = r.screen in
    elim (do_state_lem s.cols s.count text h.good.cols.0 h.good.cols.1 h.good.count) [
      | inr (long, _) ↦ absurd (omega (arith, long, fine))
      | inl (_, (column, drawn, _, _)) ↦ (
        record r { curr_state = text },
        _,
        ap (λ o. o >>= λ shown. some (record r { curr_state = shown.0 }, shown.1)) drawn,
        record {
          safe = state-Safe w n r text h fine;
          screen = refl;
          format = refl;
          state = refl;
          resized = refl;
          eof = refl;
        },
      )
    ]
act-Acted w n (message text) r h fine =
    let (drawn, _) = do_message_lem r.screen.cols text (omega (arith, h.good.cols.0)) in
    (
      r,
      _,
      ap (λ o. o >>= λ draws. some (r, draws)) drawn,
      record { safe = h; screen = refl; format = refl; state = refl; resized = refl; eof = refl },
    )
act-Acted w n (queue ps) r h (plain, few) = queue-Acted w n ps r h plain few
