-- ===== src/ClientLib/Threads.antt =====
-- client-lib/thread.c, in its builds: with pthreads, with fork, or with neither.
pub mod Ends
use diald_top.Base.{
  ℕ, ◌%◌, ◌==◌, Bool, if◌then◌else◌, Option, none, some, ℤ, pos, negsuc, minus_one, eqb_ℤ,
}

pub data Build : Type 0 where
  pthread : Build
  forks : Build
  neither : Build

-- How ThreadCreate goes on: the caller has a result, and what is in `*pThreadID` where it is
-- written; or, in the child, the function is run and the process exits with 0.
pub data Created : Type 0 where
  result : ℤ → Option ℤ → Created
  child : Created

-- What pthread_create returns, with the thread that it names, and what fork returns.
pub record CreateAnswers : Type 0 where
  pub create : ℤ
  pub thread : ℤ
  pub pid : ℤ

unfoldable pub thread_create : Build → CreateAnswers → Created
thread_create pthread a = result a.create (some a.thread)
thread_create forks a = if eqb_ℤ a.pid (pos 0) then child else result (pos 0) (some a.pid)
thread_create neither a = result minus_one none

-- What pthread_join returns, and what waitpid returns.
pub record JoinAnswers : Type 0 where
  pub join : ℤ
  pub waited : ℤ

unfoldable pub thread_join : Build → JoinAnswers → ℤ → ℤ
thread_join pthread a thread = a.join
thread_join forks a thread = if eqb_ℤ a.waited thread then pos 0 else a.waited
thread_join neither a thread = minus_one

-- The status that the process exits with: the lowest byte of `(int)retVal`. With pthreads only the
-- thread ends, and with neither nothing does.
unfoldable pub thread_exit : Build → ℕ → Option ℕ
thread_exit pthread ret_val = none
thread_exit forks ret_val = some (ret_val % 256)
thread_exit neither ret_val = none
