-- ===== src/ClientLib/SystemV.antt =====
-- client-lib/semaphores.c, where there are no pthreads but semget: the kernel's semaphores.
pub mod Same
use diald_top.Base.{ℕ, zero, suc, ◌-◌, ◌==◌, if◌then◌else◌, List, [], ◌∷◌}

-- The value that the kernel keeps, the calls of semop that wait, and, added by the model, how many
-- takes and gives are done.
pub record SysSemaphore : Type 0 where
  pub value : ℕ
  pub waiting : ℕ
  pub taken : ℕ
  pub given : ℕ

-- semget, and SETVAL
unfoldable pub sys_create : ℕ → SysSemaphore
sys_create init_val = record { value = init_val; waiting = 0; taken = 0; given = 0 }

-- semop with -1 waits while the value is 0.
unfoldable pub sys_take : SysSemaphore → SysSemaphore
sys_take s =
    if s.value == 0
    then record s { waiting = suc s.waiting }
    else record s { value = s.value - 1; taken = suc s.taken }

-- semop with 1: a call that waits then takes the value at once.
unfoldable pub sys_give : SysSemaphore → SysSemaphore
sys_give s = elim s.waiting [
  | zero ↦ record s { value = suc s.value; given = suc s.given }
  | suc n ↦ record s { waiting = n; taken = suc s.taken; given = suc s.given }
]

-- What the threads or processes do, one after the other.
pub data Act : Type 0 where
  take : Act
  give : Act

unfoldable pub sys_runs : List Act → SysSemaphore → SysSemaphore
unfolding sys_take sys_give
sys_runs [] s = s
sys_runs (take ∷ acts) s = sys_runs acts (sys_take s)
sys_runs (give ∷ acts) s = sys_runs acts (sys_give s)
