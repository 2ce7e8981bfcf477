-- ===== src/Client/Lexer/Filled/Calls.antt =====
-- What one call of YY_INPUT leaves.
use diald_top.Base.{ℕ, ◌≡◌, arith, true, if◌then◌else◌, List, [], ◌++◌, pos, eqb_ℤ, ◌==◌}
use mathlib.Core.List.{append-nil}
use diald_top.Client.Lexer.Filled.{
  PipeRead, Fill, overwritten, result_of, read_fails, yy_nolog_input, log_line, yy_log_input,
}

-- What a call leaves, with the line that it puts into the log.
pub record Filled (a : PipeRead) (line : List ℕ) (f after : Fill) : Type 0 where
  pub buf : after.buf ≡ (if eqb_ℤ a.ready (pos 0) then f.buf else overwritten a.read f.buf)
  pub result : after.result ≡ (if eqb_ℤ a.ready (pos 0) then 0 else result_of a.read)
  pub block : after.yacc_block ≡ (if eqb_ℤ a.ready (pos 0) then true else read_fails a.read)
  pub log :
      after.input_file ≡ (if eqb_ℤ a.ready (pos 0) then f.input_file else f.input_file ++ line)

pub yy_nolog_input-Filled :
    (yyin : ℕ) (a : PipeRead) (f : Fill) → Filled a [] f (yy_nolog_input yyin a f)
unfolding yy_nolog_input
yy_nolog_input-Filled yyin a f = record {
  buf = ground arith;
  result = ground arith;
  block = ground arith;
  log = ground (arith, append-nil f.input_file);
}

abbrev pub clock : ℕ → PipeRead → ℕ
clock start a = if start == 0 then a.begun else start

pub yy_log_input-Filled :
    (yyin : ℕ) (a : PipeRead) (f : Fill)
    → Filled a
        (log_line a.time (clock f.clock_start a) (overwritten a.read f.buf))
        f
        (yy_log_input yyin a f)
unfolding yy_log_input
yy_log_input-Filled yyin a f = record {
  buf = ground arith;
  result = ground arith;
  block = ground arith;
  log = ground arith;
}

pub yy_log_input-clock :
    (yyin : ℕ) (a : PipeRead) (f : Fill)
    → (yy_log_input yyin a f).clock_start ≡ clock f.clock_start a
unfolding yy_log_input
yy_log_input-clock yyin a f = ground arith
