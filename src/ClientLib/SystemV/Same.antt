-- ===== src/ClientLib/SystemV/Same.antt =====
-- The two builds of the semaphores behave alike, so long as no thread overtakes one that is woken, and
-- none is woken but by a give.
use diald_top.Base.{
  ℕ, suc, ◌-◌, ◌≡◌, ◌==◌, refl, ap, ◌∙◌, false, arith, none, some, List, [], ◌∷◌, pos, inl, inr,
}
use diald_top.ClientLib.Semaphores.{
  Semaphore, semaphore_create, semaphore_take, semaphore_give, signal, wake, decrement,
}
use diald_top.ClientLib.Semaphores.Counts.{zero_or_suc}
use diald_top.ClientLib.SystemV.{
  SysSemaphore, sys_create, sys_take, sys_give, Act, take, give, sys_runs,
}

-- After a give the thread that it woke, if there is one, gets the mutex before any other.
unfoldable pub give_in_turn : Semaphore → Semaphore
unfolding semaphore_give wake
give_in_turn s = elim (wake (semaphore_give s)) [ none ↦ semaphore_give s | some t ↦ t ]

unfoldable pub runs_in_turn : List Act → Semaphore → Semaphore
unfolding semaphore_take give_in_turn
runs_in_turn [] s = s
runs_in_turn (take ∷ acts) s = runs_in_turn acts (semaphore_take s)
runs_in_turn (give ∷ acts) s = runs_in_turn acts (give_in_turn s)

-- The same state, with pthreads.
abbrev pub as_semaphore : SysSemaphore → Semaphore
as_semaphore s = record {
  value = pos s.value;
  waiting = s.waiting;
  woken = 0;
  taken = s.taken;
  given = s.given;
}

take_same : (s : SysSemaphore) → semaphore_take (as_semaphore s) ≡ as_semaphore (sys_take s)
unfolding semaphore_take sys_take decrement
take_same s = elim (zero_or_suc s.value) [
  | inl z ↦ rw z refl
  | inr (k, z) ↦
      let busy : (suc k == 0) ≡ false = ground arith in
      let less : suc k - 1 ≡ k = omega arith in rw (z, busy, less) refl
]

give_same : (s : SysSemaphore) → give_in_turn (as_semaphore s) ≡ as_semaphore (sys_give s)
unfolding give_in_turn sys_give semaphore_give signal wake decrement
give_same s = elim (zero_or_suc s.waiting) [ inl z ↦ rw z refl | inr (k, z) ↦ rw z refl ]

runs_same :
    (acts : List Act) (s : SysSemaphore)
    → runs_in_turn acts (as_semaphore s) ≡ as_semaphore (sys_runs acts s)
unfolding runs_in_turn sys_runs
runs_same [] s = refl
runs_same (take ∷ acts) s = ap (runs_in_turn acts) (take_same s) ∙ runs_same acts (sys_take s)
runs_same (give ∷ acts) s = ap (runs_in_turn acts) (give_same s) ∙ runs_same acts (sys_give s)

-- Whatever the takes and gives, the semaphore with pthreads has the value, the waiting threads and
-- the finished calls of the kernel's, if each woken thread gets the mutex next, and pthread_cond_wait
-- does not return without a signal.
pub runs_in_turn-sys_runs :
    (n : ℕ) (acts : List Act)
    → runs_in_turn acts (semaphore_create (pos n)) ≡ as_semaphore (sys_runs acts (sys_create n))
unfolding semaphore_create sys_create
runs_in_turn-sys_runs n acts = runs_same acts (sys_create n)
