-- ===== src/ClientLib/Semaphores.antt =====
-- client-lib/semaphores.c, where there are pthreads.
pub mod Counts
pub mod Progress
use diald_top.Base.{
  ℕ, zero, suc, ◌≡◌, Bool, if◌then◌else◌, Option, none, some, ℤ, pos, inc, dec, eqb_ℤ,
}

-- `value`, with what the model adds: how many threads wait on `condAboveThresh`, how many have been
-- woken and want the mutex back, and how many calls of SemaphoreTake and SemaphoreGive are done.
pub record Semaphore : Type 0 where
  pub value : ℤ
  pub waiting : ℕ
  pub woken : ℕ
  pub taken : ℕ
  pub given : ℕ

unfoldable pub semaphore_create : ℤ → Semaphore
semaphore_create init_val = record {
  value = init_val;
  waiting = 0;
  woken = 0;
  taken = 0;
  given = 0;
}

-- `pSemID->value--`, the mutex held, and the return.
unfoldable pub decrement : Semaphore → Semaphore
decrement s = record s { value = dec s.value; taken = suc s.taken }

-- SemaphoreTake up to its wait, or to its end where it does not wait.
unfoldable pub semaphore_take : Semaphore → Semaphore
unfolding decrement
semaphore_take s =
    if eqb_ℤ s.value (pos 0) then record s { waiting = suc s.waiting } else decrement s

-- SemaphoreTake behind its wait: the test is not made again. `none` where no thread is woken.
unfoldable pub wake : Semaphore → Option Semaphore
unfolding decrement
wake s = elim s.woken [ zero ↦ none | suc n ↦ some (decrement (record s { woken = n })) ]

-- pthread_cond_signal wakes a waiting thread, if there is one.
unfoldable pub signal : Semaphore → Semaphore
signal s = elim s.waiting [ zero ↦ s | suc n ↦ record s { waiting = n; woken = suc s.woken } ]

unfoldable pub semaphore_give : Semaphore → Semaphore
unfolding signal
semaphore_give s = signal (record s { value = inc s.value; given = suc s.given })

-- What the threads do, one after the other: the mutex makes each piece one step. And pthread_cond_wait
-- may also return on its own: then a waiting thread is woken as by a signal.
pub data Step (s : Semaphore) : Semaphore → Type 0 where
  takes : Step s (semaphore_take s)
  wakes : {t : Semaphore} → wake s ≡ some t → Step s t
  gives : Step s (semaphore_give s)
  rouses : Step s (signal s)

pub data Reach (init_val : ℤ) : Semaphore → Type 0 where
  creates : Reach init_val (semaphore_create init_val)
  later : {s t : Semaphore} → Reach init_val s → Step s t → Reach init_val t
