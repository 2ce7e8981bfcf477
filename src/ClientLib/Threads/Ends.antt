-- ===== src/ClientLib/Threads/Ends.antt =====
-- What the callers of client-lib/thread.c can tell from the results.
use diald_top.Base.{
  ◌≡◌, ==_iff, refl, ap, ◌∙◌, sym, true, false, arith, inl, inr, ◌↔◌, Bool-cases, some, ℤ, pos,
  negsuc, eqb_ℤ,
}
use diald_top.ClientLib.Threads.{
  forks, CreateAnswers, result, thread_create, JoinAnswers, thread_join,
}

eqb_ℤ_iff : (a b : ℤ) → eqb_ℤ a b ≡ true → a ≡ b
eqb_ℤ_iff (pos a) (pos b) e = ap pos ((==_iff a b).0 e)
eqb_ℤ_iff (pos a) (negsuc b) e = ground arith
eqb_ℤ_iff (negsuc a) (pos b) e = ground arith
eqb_ℤ_iff (negsuc a) (negsuc b) e = ap negsuc ((==_iff a b).0 e)

eqb_ℤ_refl : (a : ℤ) → eqb_ℤ a a ≡ true
eqb_ℤ_refl (pos a) = ground arith
eqb_ℤ_refl (negsuc a) = ground arith

-- Where there is fork, whatever it answers to the caller, its failure with -1 too, ThreadCreate says
-- that the thread is there and names that answer; and, as waitpid never answers 0, ThreadJoin says
-- that the thread has ended exactly when waitpid answers what the thread is named.
thread_join-thread_create :
    (a : CreateAnswers) (b : JoinAnswers)
    → eqb_ℤ a.pid (pos 0) ≡ false
    → eqb_ℤ b.waited (pos 0) ≡ false
    → (thread_create forks a ≡ result (pos 0) (some a.pid))
      × ((thread_join forks b a.pid ≡ pos 0) ↔ (b.waited ≡ a.pid))
unfolding thread_create thread_join
thread_join-thread_create a b parent waited = (
  rw parent refl,
  (
    (λ e. elim (Bool-cases (eqb_ℤ b.waited a.pid)) [
      | inl same ↦ eqb_ℤ_iff b.waited a.pid same
      | inr other ↦
          let zero_waited : b.waited ≡ pos 0 = rw (other, thread_join) at e in
          absurd (true_false (sym (ap (λ n. eqb_ℤ n (pos 0)) zero_waited) ∙ waited))
    ]),
    λ e. rw e (rw (eqb_ℤ_refl a.pid) refl),
  ),
)
  where
    true_false : true ≡ false → ⊥
    true_false h = ground arith
