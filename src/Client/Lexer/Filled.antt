-- ===== src/Client/Lexer/Filled.antt =====
-- YY_INPUT of client/monitor.l: what the scanner has of the pipe, with and without a log.
pub mod Calls
pub mod Delivers
use diald_top.Base.{
  ℕ, zero, suc, ◌+◌, ◌-◌, Bool, true, false, not, if◌then◌else◌, Option, none, some, List, [], ◌∷◌,
  ◌++◌, ℤ, pos, negsuc, leb, eqb_ℤ, ◌==◌, length, take, drop, codes, c_str,
}
use diald_top.Client.Printf.{print_int}

-- What the system answers to one call: select(2), read(2), and times(2) where the log begins and
-- where it is written. read(2) returns no more than max_size bytes; `none` is -1.
pub record PipeRead : Type 0 where
  pub ready : ℤ
  pub read : Option (List ℕ)
  pub begun : ℕ
  pub time : ℕ

-- The static variables, those of one function or of the other; the buffer of the scanner, with
-- what is left in it; yacc_block; and what the log file has.
pub record Fill : Type 0 where
  pub oldyyin : Option ℕ
  pub yyfd : ℕ
  pub clock_start : ℕ
  pub buf : List ℕ
  pub result : ℕ
  pub yacc_block : Bool
  pub input_file : List ℕ

-- `oldyyin != yyin`
abbrev pub differs : Option ℕ → ℕ → Bool
differs none yyin = true
differs (some old) yyin = not (old == yyin)

-- What read(2) leaves in the buffer, and `c > 0 ? c : YY_NULL`.
abbrev pub overwritten : Option (List ℕ) → List ℕ → List ℕ
overwritten none buf = buf
overwritten (some bytes) buf = bytes ++ drop (length bytes) buf

abbrev pub result_of : Option (List ℕ) → ℕ
result_of none = 0
result_of (some bytes) = length bytes

abbrev pub read_fails : Option (List ℕ) → Bool
read_fails none = true
read_fails (some bytes) = false

-- A file is the descriptor that fileno has of it.
unfoldable pub yy_nolog_input : ℕ → PipeRead → Fill → Fill
yy_nolog_input yyin a f =
    let s = if differs f.oldyyin yyin then record f { oldyyin = some yyin; yyfd = yyin } else f in
    if eqb_ℤ a.ready (pos 0) then record s { yacc_block = true; result = 0 } else record s {
      buf = overwritten a.read s.buf;
      yacc_block = read_fails a.read;
      result = result_of a.read;
    }

-- A difference of two times.
abbrev pub since : ℕ → ℕ → ℤ
since now start = if leb start now then pos (now - start) else negsuc (start - now - 1)

-- `"%ld> %s"`, where nothing ends the bytes that read(2) has written.
unfoldable pub log_line : ℕ → ℕ → List ℕ → List ℕ
log_line now start buf = print_int (since now start) ++ (codes "> " ++ c_str buf)

unfoldable pub yy_log_input : ℕ → PipeRead → Fill → Fill
yy_log_input yyin a f =
    let t = if f.clock_start == 0 then record f { clock_start = a.begun } else f in
    let s = if differs t.oldyyin yyin then record t { oldyyin = some yyin; yyfd = yyin } else t in
    if eqb_ℤ a.ready (pos 0) then record s { yacc_block = true; result = 0 } else record s {
      buf = overwritten a.read s.buf;
      yacc_block = read_fails a.read;
      input_file = s.input_file ++ log_line a.time s.clock_start (overwritten a.read s.buf);
      result = result_of a.read;
    }

-- What flex makes of its buffer then: two NULs behind the bytes that it has.
abbrev pub end_of_buffer : ℕ → List ℕ → List ℕ
end_of_buffer n buf = take n buf ++ (0 ∷ 0 ∷ drop (n + 2) buf)

abbrev pub ended : Fill → Fill
ended f = record f { buf = end_of_buffer f.result f.buf }

-- YY_INPUT is called until it has no more bytes, and the rule for the end of the file then sets yacc_eof,
-- or returns _WOULDBLOCK. These are the bytes of all calls, and whether it sets it; `none` are calls
-- that all have bytes. Each has all bytes of the one before made into tokens.
unfoldable pub fills :
    (PipeRead → Fill → Fill) → List PipeRead → Fill → Option (List ℕ × Bool × Fill)
fills yy_input_func [] f = none
fills yy_input_func (a ∷ rest) f =
    let filled = yy_input_func a f in
    elim filled.result [
      | zero ↦ some ([], not filled.yacc_block, filled)
      | suc n ↦ elim (fills yy_input_func rest (ended filled)) [
        | none ↦ none
        | some (bytes, eof, last) ↦ some (take filled.result filled.buf ++ bytes, eof, last)
      ]
    ]
