-- ===== src/Client/Lexer/Filled/Delivers.antt =====
-- With a log or without, the scanner has of the pipe what read(2) has returned.
use diald_top.Base.{
  ℕ, suc, ◌≡◌, refl, sym, ap, ◌∙◌, Bool, true, false, if◌then◌else◌, Bool-cases, Option, none, some,
  List, [], ◌∷◌, ◌++◌, pos, eqb_ℤ, inl, inr, length, take, drop, ◌==◌,
}
use mathlib.Core.List.{append_assoc, append-nil}
use diald_top.Flex.Matches.{take-append}
use diald_top.Client.Lexer.Filled.Calls.{
  Filled, yy_nolog_input-Filled, clock, yy_log_input-Filled, yy_log_input-clock,
}
use diald_top.Client.Lexer.Filled.{
  PipeRead, Fill, overwritten, result_of, read_fails, yy_nolog_input, log_line, yy_log_input,
  end_of_buffer, ended, fills,
}

-- What comes of one read(2), and of the calls after it.
abbrev arrived : Option (List ℕ) → Option (List ℕ × Bool) → Option (List ℕ × Bool)
arrived none rest = some ([], false)
arrived (some []) rest = some ([], true)
arrived (some (c ∷ cs)) none = none
arrived (some (c ∷ cs)) (some (bytes, eof)) = some ((c ∷ cs) ++ bytes, eof)

-- What comes of the answers: the bytes of each read(2), until select(2) times out, or read(2) fails
-- or has none; and whether it was the last of these.
abbrev pub delivered : List PipeRead → Option (List ℕ × Bool)
delivered [] = none
delivered (a ∷ answers) =
    let rest = delivered answers in
    if eqb_ℤ a.ready (pos 0) then some ([], false) else arrived a.read rest

-- The line of a call, and the others if they are made.
abbrev logs : Option (List ℕ) → (line rest : List ℕ) → List ℕ
logs none line rest = line
logs (some []) line rest = line
logs (some (c ∷ cs)) line rest = line ++ rest

logs-none : (read : Option (List ℕ)) → logs read [] [] ≡ []
logs-none none = refl
logs-none (some []) = refl
logs-none (some (c ∷ cs)) = refl

-- The lines of the log: each has the bytes of its call, and then those that older calls have left, up to
-- the first NUL, such as the two that flex puts behind the bytes of each call; a call whose select(2) times out has no line.
abbrev pub logged : (start : ℕ) → List ℕ → List PipeRead → List ℕ
logged start buf [] = []
logged start buf (a ∷ answers) =
    let now = if start == 0 then a.begun else start in
    let line = log_line a.time now (overwritten a.read buf) in
    let after = end_of_buffer (result_of a.read) (overwritten a.read buf) in
    let rest = logged now after answers in
    if eqb_ℤ a.ready (pos 0) then [] else logs a.read line rest

-- With the log file in place of the rest.
abbrev pub with_log : List ℕ → Option (List ℕ × Bool) → Option (List ℕ × Bool × List ℕ)
with_log log none = none
with_log log (some (bytes, eof)) = some (bytes, eof, log)

abbrev pub seen : Option (List ℕ × Bool × Fill) → Option (List ℕ × Bool × List ℕ)
seen none = none
seen (some (bytes, eof, last)) = some (bytes, eof, last.input_file)

abbrev prepend : List ℕ → Option (List ℕ × Bool × List ℕ) → Option (List ℕ × Bool × List ℕ)
prepend cs none = none
prepend cs (some (bytes, eof, log)) = some (cs ++ bytes, eof, log)

seen-some :
    (cs : List ℕ) (rest : Option (List ℕ × Bool × Fill))
    → seen (elim rest [ none ↦ none | some (bytes, eof, last) ↦ some (cs ++ bytes, eof, last) ])
      ≡ prepend cs (seen rest)
seen-some cs none = refl
seen-some cs (some (bytes, eof, last)) = refl

with_log-some :
    (c : ℕ) (cs log : List ℕ) (rest : Option (List ℕ × Bool))
    → with_log log (arrived (some (c ∷ cs)) rest) ≡ prepend (c ∷ cs) (with_log log rest)
with_log-some c cs log none = refl
with_log-some c cs log (some (bytes, eof)) = refl

-- The lines of all calls of such a function.
abbrev lines : (PipeRead → Fill → Fill) → (PipeRead → Fill → List ℕ) → List PipeRead → Fill → List ℕ
lines input line [] f = []
lines input line (a ∷ answers) f =
    let rest = lines input line answers (ended (input a f)) in
    if eqb_ℤ a.ready (pos 0) then [] else logs a.read (line a f) rest

module _ (input : PipeRead → Fill → Fill) (line : PipeRead → Fill → List ℕ)
    (filled : (a : PipeRead) (f : Fill) → Filled a (line a f) f (input a f)) where
  fills_more :
      (a : PipeRead) (answers : List PipeRead) (f : Fill) (n : ℕ)
      (after : Option (List ℕ × Bool × List ℕ))
      → (input a f).result ≡ suc n
      → seen (elim (fills input answers (ended (input a f))) [
        | none ↦ none
        | some (bytes, eof, last) ↦
            some (take (input a f).result (input a f).buf ++ bytes, eof, last)
      ])
        ≡ after
      → seen (fills input (a ∷ answers) f) ≡ after
  unfolding fills
  fills_more a answers f n after result same = rw (fills, result) same

  read_or_end :
      (a : PipeRead) (answers : List PipeRead) (f : Fill) (read : Option (List ℕ))
      → (input a f).buf ≡ overwritten read f.buf
      → (input a f).result ≡ result_of read
      → (input a f).yacc_block ≡ read_fails read
      → (input a f).input_file ≡ f.input_file ++ line a f
      → seen (fills input answers (ended (input a f)))
        ≡ with_log
            ((input a f).input_file ++ lines input line answers (ended (input a f)))
            (delivered answers)
      → seen (fills input (a ∷ answers) f)
        ≡ with_log
            (f.input_file ++ logs read (line a f) (lines input line answers (ended (input a f))))
            (arrived read (delivered answers))
  unfolding fills
  read_or_end a answers f none buf result block log rest = rw (fills, result, block, log) refl
  read_or_end a answers f (some []) buf result block log rest = rw (fills, result, block, log) refl
  read_or_end a answers f (some (c ∷ cs)) buf result block log rest =
      let taken : take (input a f).result (input a f).buf ≡ c ∷ cs =
        rw (result, buf) (take-append (c ∷ cs) (drop (length (c ∷ cs)) f.buf)) in
      let appended : f.input_file ++ (line a f ++ lines input line answers (ended (input a f)))
          ≡ (input a f).input_file ++ lines input line answers (ended (input a f)) =
        sym (append_assoc f.input_file (line a f) _)
        ∙ ap (λ t. t ++ lines input line answers (ended (input a f))) (sym log) in
      rw appended (
        fills_more a answers f (length cs) _ result (
          seen-some (take (input a f).result (input a f).buf)
            (fills input answers (ended (input a f))))
        ∙ ap (λ t. prepend t (seen (fills input answers (ended (input a f))))) taken
        ∙ ap (prepend (c ∷ cs)) rest
        ∙ sym (with_log-some c cs _ (delivered answers)))

  fills-seen :
      (answers : List PipeRead) (f : Fill)
      → seen (fills input answers f)
        ≡ with_log (f.input_file ++ lines input line answers f) (delivered answers)
  unfolding fills
  fills-seen [] f = refl
  fills-seen (a ∷ answers) f =
      let p = filled a f in
      let rest = fills-seen answers (ended (input a f)) in
      elim (Bool-cases (eqb_ℤ a.ready (pos 0))) [
        | inl e ↦
            let result : (input a f).result ≡ 0 = p.result ∙ rw e refl in
            let block : (input a f).yacc_block ≡ true = p.block ∙ rw e refl in
            let log : (input a f).input_file ≡ f.input_file = p.log ∙ rw e refl in
            rw (fills, e, result, block, log, append-nil f.input_file) refl
        | inr e ↦ rw e (
            read_or_end a answers f a.read (p.buf ∙ rw e refl) (p.result ∙ rw e refl)
              (p.block ∙ rw e refl) (p.log ∙ rw e refl) rest)
      ]

lines-none :
    (input : PipeRead → Fill → Fill) (answers : List PipeRead) (f : Fill)
    → lines input (λ a g. []) answers f ≡ []
lines-none input [] f = refl
lines-none input (a ∷ answers) f = elim (Bool-cases (eqb_ℤ a.ready (pos 0))) [
  | inl e ↦ rw e refl
  | inr e ↦ rw (e, lines-none input answers (ended (input a f))) (logs-none a.read)
]

abbrev log_of : PipeRead → Fill → List ℕ
log_of a f = log_line a.time (clock f.clock_start a) (overwritten a.read f.buf)

lines-logged :
    (yyin : ℕ) (answers : List PipeRead) (f : Fill)
    → lines (yy_log_input yyin) log_of answers f ≡ logged f.clock_start f.buf answers
lines-logged yyin [] f = refl
lines-logged yyin (a ∷ answers) f =
    let p = yy_log_input-Filled yyin a f in
    elim (Bool-cases (eqb_ℤ a.ready (pos 0))) [
      | inl e ↦ rw e refl
      | inr e ↦
          let result : (yy_log_input yyin a f).result ≡ result_of a.read = p.result ∙ rw e refl in
          let buf : (yy_log_input yyin a f).buf ≡ overwritten a.read f.buf = p.buf ∙ rw e refl in
          rw e (
            ap (logs a.read (log_of a f)) (
              lines-logged yyin answers (ended (yy_log_input yyin a f))
              ∙ rw (yy_log_input-clock yyin a f, result, buf) refl))
    ]

-- Whatever the system answers to the calls of YY_INPUT, the scanner has the bytes of the reads, in their
-- order, up to the first call whose select(2) times out, or whose read(2) fails or has none; yacc_eof is
-- set exactly where read(2) has none. With a log it is the same. Where each call finds the bytes of the
-- one before made into tokens, the log has a line for each call but one whose select(2) times out, with
-- the bytes of that call and then those of older ones behind it, up to the first NUL.
pub fills_lem :
    (yyin : ℕ) (answers : List PipeRead) (f : Fill)
    → (seen (fills (yy_nolog_input yyin) answers f) ≡ with_log f.input_file (delivered answers))
      × (seen (fills (yy_log_input yyin) answers f)
          ≡ with_log (f.input_file ++ logged f.clock_start f.buf answers) (delivered answers))
fills_lem yyin answers f = (
  fills-seen (yy_nolog_input yyin) (λ a g. []) (yy_nolog_input-Filled yyin) answers f
      ∙ ap (λ t. with_log t (delivered answers))
          (ap (λ t. f.input_file ++ t) (lines-none (yy_nolog_input yyin) answers f)
            ∙ append-nil f.input_file),
  fills-seen (yy_log_input yyin) log_of (yy_log_input-Filled yyin) answers f
      ∙ ap (λ t. with_log (f.input_file ++ t) (delivered answers)) (lines-logged yyin answers f),
)
