-- ===== src/Client/Tester/Ends.antt =====
-- The loop of client/tester.c ends at the end of the pipe, and only there.
use mathlib.Core.List.{append_assoc}
use diald_top.Base.{
  ℕ, zero, suc, ◌<◌, ◌≡◌, refl, sym, ◌∙◌, arith, Bool, true, false, if◌then◌else◌, Bool-cases, none,
  some, List, [], ◌∷◌, ◌++◌, ◌&&◌, inl, inr, ◌⊎◌, length,
}
use diald_top.Client.Tester.{
  Heard, hears, blocks, ends, scanned, accepted, test_parse, parse_result, tester_loop,
}
use diald_top.Client.Tester.Prints.{lines_of, print_report-lines}

-- Whether the end of the pipe comes, and no message without a text before it.
abbrev pub has_end : List Heard → Bool
has_end [] = false
has_end (hears report ∷ heard) = scanned report && has_end heard
has_end (blocks ∷ heard) = has_end heard
has_end (ends ∷ heard) = true

-- The lines of the reports, and the result after each load, each wait and at the end.
abbrev pub transcript : List Heard → List ℕ
transcript [] = []
transcript (hears report ∷ heard) =
    lines_of report
    ++ (if accepted report then parse_result ++ transcript heard else transcript heard)
transcript (blocks ∷ heard) = parse_result ++ transcript heard
transcript (ends ∷ heard) = parse_result

-- What one parse has of it.
record Parsed (heard : List Heard) : Type 0 where
  out : List ℕ
  eof : Bool
  left : List Heard
  parsed : test_parse heard ≡ some (out, eof, left)
  at_end : eof ≡ true → (has_end heard ≡ true) × (transcript heard ≡ out ++ parse_result)
  goes_on :
      eof ≡ false
      → (has_end left ≡ has_end heard)
        × (has_end heard ≡ true
            → (length left < length heard)
              × (transcript heard ≡ out ++ (parse_result ++ transcript left)))

test_parse_cases :
    (heard : List Heard) → ((test_parse heard ≡ none) × (has_end heard ≡ false)) ⊎ Parsed heard
unfolding test_parse
test_parse_cases [] = inr (record {
  out = [];
  eof = false;
  left = [];
  parsed = refl;
  at_end = λ e. absurd (cc e);
  goes_on = λ e. (refl, λ h. absurd (cc h));
})
test_parse_cases (blocks ∷ heard) = inr (record {
  out = [];
  eof = false;
  left = heard;
  parsed = refl;
  at_end = λ e. absurd (cc e);
  goes_on = λ e. (refl, λ h. (omega arith, refl));
})
test_parse_cases (ends ∷ heard) = inr (record {
  out = [];
  eof = true;
  left = heard;
  parsed = refl;
  at_end = λ e. (refl, refl);
  goes_on = λ e. absurd (cc e);
})
test_parse_cases (hears report ∷ heard) = elim (Bool-cases (scanned report)) [
  | inr stuck ↦ inl (rw (test_parse, stuck) refl, rw stuck refl)
  | inl scans ↦ by_accepted scans (test_parse_cases heard) (Bool-cases (accepted report))
]
  where
    by_accepted :
        scanned report ≡ true
        → ((test_parse heard ≡ none) × (has_end heard ≡ false)) ⊎ Parsed heard
        → (accepted report ≡ true) ⊎ (accepted report ≡ false)
        → ((test_parse (hears report ∷ heard) ≡ none) × (has_end (hears report ∷ heard) ≡ false))
          ⊎ Parsed (hears report ∷ heard)
    by_accepted scans rest (inl accepting) = inr (record {
      out = lines_of report;
      eof = false;
      left = heard;
      parsed = rw (test_parse, scans, print_report-lines report, accepting) refl;
      at_end = λ e. absurd (cc e);
      goes_on = λ e. (rw scans refl, λ h. (omega arith, rw accepting refl));
    })
    by_accepted scans (inl (never, no_end)) (inr more) =
        inl (rw (test_parse, scans, print_report-lines report, more, never) refl, rw scans no_end)
    by_accepted scans (inr rest) (inr more) = inr (record {
      out = lines_of report ++ rest.out;
      eof = rest.eof;
      left = rest.left;
      parsed = rw (test_parse, scans, print_report-lines report, more, rest.parsed) refl;
      at_end = λ e. (
        rw scans ((rest.at_end e).0),
        rw (more, (rest.at_end e).1) (sym (append_assoc (lines_of report) rest.out parse_result)),
      );
      goes_on = λ e. (
        rw scans ((rest.goes_on e).0),
        λ h.
            let (less, same) = (rest.goes_on e).1 (rw scans at h) in
            (
              omega arith,
              rw (more, same)
                  (sym (
                    append_assoc (lines_of report) rest.out
                      (parse_result ++ transcript rest.left))),
            ),
      );
    })

ends_within :
    (n : ℕ) (heard : List Heard)
    → has_end heard ≡ true
    → length heard < n
    → tester_loop n heard ≡ some (transcript heard)
unfolding tester_loop
ends_within zero heard h less = absurd (omega arith)
ends_within (suc n) heard h less = elim (test_parse_cases heard) [
  | inl (never, no_end) ↦ absurd (cc (h, no_end))
  | inr p ↦ elim (Bool-cases p.eof) [
    | inl e ↦ rw (p.parsed, e, (p.at_end e).1) refl
    | inr e ↦
        let (same, more) = p.goes_on e in
        let (shorter, transcribed) = more h in
        rw (p.parsed, e, ends_within n p.left (same ∙ h) (omega arith), transcribed) refl
  ]
]

goes_on_for : (n : ℕ) (heard : List Heard) → has_end heard ≡ false → tester_loop n heard ≡ none
unfolding tester_loop
goes_on_for zero heard h = refl
goes_on_for (suc n) heard h = elim (test_parse_cases heard) [
  | inl (never, no_end) ↦ rw never refl
  | inr p ↦ elim (Bool-cases p.eof) [
    | inl e ↦ absurd (cc ((p.at_end e).0, h))
    | inr e ↦ rw (p.parsed, e, goes_on_for n p.left ((p.goes_on e).0 ∙ h)) refl
  ]
]

-- Where the end of the pipe comes, and no message without a text before it, the tester ends, and has
-- printed the lines of each report before the end, in order, and the result of each parse. Else it
-- never ends.
pub tester_loop_lem :
    (heard : List Heard)
    → (has_end heard ≡ true → tester_loop (suc (length heard)) heard ≡ some (transcript heard))
      × (has_end heard ≡ false → (n : ℕ) → tester_loop n heard ≡ none)
tester_loop_lem heard =
    (λ h. ends_within (suc (length heard)) heard h (omega arith), λ h n. goes_on_for n heard h)
