-- ===== src/Client/Screen/Display.antt =====
-- The lines of the packets on the screen.
use diald_top.Base.{
  strncpy, ℕ, zero, suc, ◌+◌, ◌<◌, ◌≤◌, ◌≡◌, refl, ap, ◌∙◌, subst, true, false, arith, inl, inr,
  Bool-cases, Option, none, some, List, [], ◌∷◌, ltb, leb, ◌==◌, length, All, get_elem?, c_str,
}
use diald_top.Client.Screen.{Screen, maxbufs, head_lines, put, do_packet}
use diald_top.Client.Screen.Buffers.{Ready, Allocated-put, length-strncpy}

copied : List ℕ → List ℕ → Screen → Screen
copied buf b s = record s {
  scrbuff = put s.count (some (strncpy s.cols b buf)) s.scrbuff;
  count = suc s.count;
}

do_packet-copied :
    (buf b : List ℕ) (s : Screen)
    → leb (s.count + head_lines) s.lines ≡ true
    → ltb s.count maxbufs ≡ true
    → s.scrbuff s.count ≡ some b
    → leb s.cols (length b) ≡ true
    → do_packet buf s ≡ some (copied buf b s)
unfolding do_packet copied
do_packet-copied buf b s shown inside e fits = rw (shown, inside, e, fits) refl

-- What do_packet leaves of the screen: the line is in the buffer of its number, if that is shown, and
-- nothing else is changed.
pub record Printed (buf : List ℕ) (s t : Screen) : Type 0 where
  pub count : t.count ≡ suc s.count
  pub size : (t.lines ≡ s.lines) × (t.cols ≡ s.cols)
  pub others : (j : ℕ) → (j == s.count) ≡ false → t.scrbuff j ≡ s.scrbuff j
  pub line :
      leb (s.count + head_lines) s.lines ≡ true
      → (b : List ℕ) × (length b ≡ suc s.cols) × (t.scrbuff s.count ≡ some (strncpy s.cols b buf))

do_packet-Printed :
    (buf : List ℕ) (s : Screen)
    → Ready s
    → s.lines < 265
    → (t : Screen) × (do_packet buf s ≡ some t) × Ready t × Printed buf s t
unfolding do_packet copied
do_packet-Printed buf s v small = elim (Bool-cases (leb (s.count + head_lines) s.lines)) [
  | inr hidden ↦ (
    record s { count = suc s.count },
    rw hidden refl,
    record { enough = v.enough; within = v.within; buffers = v.buffers },
    record { count = refl; size = (refl, refl); others = λ j e. refl; line = λ h. ground arith },
  )
  | inl shown ↦
      let lower : s.count < s.numbuff = ground (arith, v.enough) in
      let (b, e, size) = v.buffers s.count lower in
      let inside : ltb s.count maxbufs ≡ true = ground (arith, v.within) in
      let fits : leb s.cols (length b) ≡ true = ground arith in
      (
        copied buf b s,
        do_packet-copied buf b s shown inside e fits,
        record {
          enough = v.enough;
          within = v.within;
          buffers =
              Allocated-put s.numbuff s.count s.cols (strncpy s.cols b buf) s.scrbuff
                (λ j lt _. v.buffers j lt) (length-strncpy s.cols b buf ∙ size);
        },
        record {
          count = refl;
          size = (refl, refl);
          others = λ j e. rw e refl;
          line = λ _. (b, size, ground arith);
        },
      )
]

-- On a taller one it does not: the 257th line would go behind the last element of `scrbuff`.
do_packet_overruns :
    (buf : List ℕ) (s : Screen) → 265 ≤ s.lines → s.count ≡ maxbufs → do_packet buf s ≡ none
unfolding do_packet
do_packet_overruns buf s tall full =
    let shown : leb (s.count + head_lines) s.lines ≡ true = ground arith in
    let outside : ltb s.count maxbufs ≡ false = ground arith in rw (shown, outside) refl

-- The calls that the packets of one queue lead to.
unfoldable pub do_packets : List (List ℕ) → Screen → Option Screen
do_packets [] s = some s
do_packets (buf ∷ bufs) s = elim (do_packet buf s) [ none ↦ none | some t ↦ do_packets bufs t ]

-- A text without NUL, and shorter than the line, is what the buffer then holds as a C string.
abbrev pub IsText : List ℕ → Type 0
IsText = All λ c. (c == 0) ≡ false

c_str-strncpy :
    (n : ℕ) (b text : List ℕ)
    → length b ≡ suc n
    → length text < n
    → IsText text
    → c_str (strncpy n b text) ≡ text
unfolding c_str
c_str-strncpy zero b text e lt h = absurd (omega arith)
c_str-strncpy (suc n) [] text e lt h = absurd (omega (arith, e))
c_str-strncpy (suc n) (x ∷ b) [] e lt h = refl
c_str-strncpy (suc n) (x ∷ b) (c ∷ text) e lt h =
    rw h.0 (ap (λ t. c ∷ t) (c_str-strncpy n b text (omega (arith, e)) (omega (arith, lt)) h.1))

-- The line of this number reads as this text.
abbrev pub Reads : Screen → ℕ → List ℕ → Type 0
Reads t i text = (b : List ℕ) × (t.scrbuff i ≡ some b) × (c_str b ≡ text)

abbrev pub Displays : List (List ℕ) → Screen → Screen → Type 0
Displays bufs s t =
    ((k : ℕ) (text : List ℕ)
      → get_elem? bufs k ≡ some text
      → k + s.count + head_lines ≤ s.lines
      → length text < s.cols
      → IsText text
      → Reads t (k + s.count) text)
    × ((j : ℕ) → j < s.count → t.scrbuff j ≡ s.scrbuff j)

-- The first packet, and then the others.
Displays-cons :
    (buf : List ℕ) (bufs : List (List ℕ)) (s t u : Screen)
    → Printed buf s t
    → Displays bufs t u
    → Displays (buf ∷ bufs) s u
Displays-cons buf bufs s t u printed (shows, kept) =
    (line, λ j lt. kept j (omega (arith, printed.count)) ∙ printed.others j ground arith)
  where
    line :
        (k : ℕ) (text : List ℕ)
        → get_elem? (buf ∷ bufs) k ≡ some text
        → k + s.count + head_lines ≤ s.lines
        → length text < s.cols
        → IsText text
        → Reads u (k + s.count) text
    line zero text at shown short plain =
        let (b, size, e) = printed.line ground arith in
        let same : buf ≡ text = ground arith in
        let there : u.scrbuff s.count ≡ some (strncpy s.cols b buf) =
          kept s.count (omega (arith, printed.count)) ∙ e in
        let index : 0 + s.count ≡ s.count = omega arith in
        (
          strncpy s.cols b buf,
          ap u.scrbuff index ∙ there,
          ap (λ x. c_str (strncpy s.cols b x)) same ∙ c_str-strncpy s.cols b text size short plain,
        )
    line (suc k) text at shown short plain =
        let index : k + t.count ≡ suc k + s.count = omega (arith, printed.count) in
        subst (λ i. Reads u i text) index
          (shows k text at (omega (arith, printed.count, printed.size.0))
            (omega (arith, printed.size.1)) plain)

-- On a terminal of less than 265 lines the packets of a queue never leave the buffers, and each one
-- that has a line on the screen and is shorter than it reads there as it was printed, in order.
pub do_packets-Displays :
    (bufs : List (List ℕ)) (s : Screen)
    → Ready s
    → s.lines < 265
    → (t : Screen) × (do_packets bufs s ≡ some t)
      × Ready t
      × (t.count ≡ length bufs + s.count)
      × ((t.lines ≡ s.lines) × (t.cols ≡ s.cols))
      × Displays bufs s t
unfolding do_packets
do_packets-Displays [] s v small =
    (s, refl, v, omega arith, (refl, refl), ((λ k text at. cc), λ j lt. refl))
do_packets-Displays (buf ∷ bufs) s v small =
    let (t, run, w, printed) = do_packet-Printed buf s v small in
    let (u, runs, x, count, size, rest) =
      do_packets-Displays bufs t w (omega (arith, printed.size.0)) in
    (
      u,
      rw (run, do_packets) runs,
      x,
      omega (arith, count, printed.count),
      (size.0 ∙ printed.size.0, size.1 ∙ printed.size.1),
      Displays-cons buf bufs s t u printed rest,
    )
